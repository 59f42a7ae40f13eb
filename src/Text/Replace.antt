-- ===== src/Text/Replace.antt =====
-- `strings.ReplaceAll` of a text that is not empty.
use limiter.Prelude.{
  ◌≡◌, refl, ap, ◌∙◌, ℕ, zero, suc, ◌-◌, true, false, [], ◌∷◌, ◌++◌, length, arith,
}
use limiter.Text.Bytes.{Text}
use limiter.Text.Search.{starts_with, contains}

-- The first number counts the bytes of an occurrence that are still to be passed over.
replace_from : ℕ → Text → Text → Text → Text
replace_from n [] old new = []
replace_from (suc n) (c ∷ s) old new = replace_from n s old new
replace_from zero (c ∷ s) old new = elim (starts_with (c ∷ s) old) [
  | true ↦ new ++ replace_from (length old - 1) s old new
  | false ↦ c ∷ replace_from zero s old new
]

unfoldable pub replace_all : Text → Text → Text → Text
unfolding replace_from
replace_all s old new = replace_from zero s old new

kept_byte :
    (c : ℕ) (s old new : Text)
    → starts_with (c ∷ s) old ≡ false
    → replace_all (c ∷ s) old new ≡ c ∷ replace_all s old new
unfolding replace_all
kept_byte c s old new here = rw (here, replace_from) refl

-- A text without an occurrence is left as it is.
pub replace_all-absent : (s old new : Text) → contains s old ≡ false → replace_all s old new ≡ s
unfolding replace_all contains
replace_all-absent [] old new h = refl
replace_all-absent (c ∷ s) old new h =
    let here : starts_with (c ∷ s) old ≡ false = ground arith in
    let later : contains s old ≡ false = ground arith in
    kept_byte c s old new here ∙ ap (λ t. c ∷ t) (replace_all-absent s old new later)
