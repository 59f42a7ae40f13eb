-- ===== src/Text/Bytes.antt =====
-- A text is its bytes; a literal is ASCII, so that its code points are its bytes.
use Prim.Native.Char.{code}
use limiter.Prelude.{
  length, length-append, ap, ◌++◌, ℕ, ◌≡◌, refl, ◌↔◌, Bool, true, false, ◌&&◌, List, [], ◌∷◌,
  String, arith, eqb,
}

abbrev pub Text : Type 0
Text = List ℕ

unfoldable pub text : String → Text
text String.[] = []
text (String.◌∷◌ c s) = code c ∷ text s

infix 50 ◌==◌
unfoldable pub ◌==◌ : Text → Text → Bool
[] == [] = true
[] == (b ∷ t) = false
(a ∷ s) == [] = false
(a ∷ s) == (b ∷ t) = eqb a b && s == t

pub eq_refl : (s : Text) → (s == s) ≡ true
unfolding ◌==◌
eq_refl [] = refl
eq_refl (a ∷ s) = ground (arith, eq_refl s)

eq_sound : (s t : Text) → (s == t) ≡ true → s ≡ t
unfolding ◌==◌
eq_sound [] [] h = refl
eq_sound [] (b ∷ t) h = cc
eq_sound (a ∷ s) [] h = cc
eq_sound (a ∷ s) (b ∷ t) h = ground (arith, eq_sound s t)

pub eq_iff : (s t : Text) → ((s == t) ≡ true) ↔ (s ≡ t)
eq_iff s t = (eq_sound s t, λ e. rw e (eq_refl t))

pub eq_comm : (s t : Text) → (s == t) ≡ (t == s)
unfolding ◌==◌
eq_comm [] [] = refl
eq_comm [] (b ∷ t) = refl
eq_comm (a ∷ s) [] = refl
eq_comm (a ∷ s) (b ∷ t) = ground (arith, eq_comm s t)

pub append-cancel_left : (r s t : Text) → r ++ s ≡ r ++ t → s ≡ t
append-cancel_left [] s t h = h
append-cancel_left (b ∷ r) s t h = append-cancel_left r s t (ground arith)

-- Texts of the same length that are followed by the same are the same.
pub append-cancel_right : (r s t : Text) → r ++ t ≡ s ++ t → r ≡ s
append-cancel_right [] [] t h = refl
append-cancel_right (b ∷ r) (c ∷ s) t h =
    let e : r ≡ s = append-cancel_right r s t (ground arith) in ground arith
append-cancel_right [] (c ∷ s) t h = absurd (omega (arith, ap length h, length-append (c ∷ s) t))
append-cancel_right (b ∷ r) [] t h = absurd (omega (arith, ap length h, length-append (b ∷ r) t))
