-- ===== src/Text/Checksum.antt =====
-- `adler32.Checksum`.
use limiter.Prelude.{ℕ, ◌+◌, ◌*◌, ◌%◌, ◌<◌, ◌^◌, ◌≡◌, refl, [], ◌∷◌, arith}
use limiter.Text.Bytes.{Text, text}

abbrev adler_mod : ℕ
adler_mod = 65521

update : Text → ℕ → ℕ → ℕ
update [] a b = b * 65536 + a
update (c ∷ s) a b = let a' = (a + c) % adler_mod in update s a' ((b + a') % adler_mod)

unfoldable pub checksum : Text → ℕ
unfolding update
checksum s = update s 1 0

update-lt : (s : Text) (a b : ℕ) → a < adler_mod → b < adler_mod → update s a b < 2 ^ 32
unfolding update
update-lt [] a b h k = omega arith
update-lt (c ∷ s) a b h k = update-lt s _ _ (omega arith) (omega arith)

-- The sum fits the `uint32` that it is returned in.
pub checksum-lt : (s : Text) → checksum s < 2 ^ 32
unfolding checksum
checksum-lt s = update-lt s 1 0 (omega arith) (omega arith)

checksum_wikipedia : checksum (text "Wikipedia") ≡ 0x11e60398
unfolding checksum text
checksum_wikipedia = refl
