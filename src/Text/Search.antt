-- ===== src/Text/Search.antt =====
-- `strings.Contains`.
use limiter.Prelude.{
  ◌≡◌, refl, ap, Bool, true, false, ◌&&◌, ◌||◌, [], ◌∷◌, ◌++◌, arith, eqb, Bool-cases, inl, inr,
}
use limiter.Text.Bytes.{Text}

unfoldable pub starts_with : Text → Text → Bool
starts_with s [] = true
starts_with [] (b ∷ t) = false
starts_with (a ∷ s) (b ∷ t) = eqb a b && starts_with s t

unfoldable pub contains : Text → Text → Bool
unfolding starts_with
contains [] sub = starts_with [] sub
contains (c ∷ s) sub = starts_with (c ∷ s) sub || contains s sub

pub starts_with-append : (sub t : Text) → starts_with (sub ++ t) sub ≡ true
unfolding starts_with
starts_with-append [] [] = refl
starts_with-append [] (c ∷ t) = refl
starts_with-append (b ∷ sub) t = ground (arith, starts_with-append sub t)

contains-starts_with : (s sub : Text) → starts_with s sub ≡ true → contains s sub ≡ true
unfolding contains
contains-starts_with [] sub h = h
contains-starts_with (c ∷ s) sub h = ground arith

-- A text holds what stands in its middle.
pub contains-append : (before sub after : Text) → contains (before ++ (sub ++ after)) sub ≡ true
unfolding contains
contains-append [] sub after =
    contains-starts_with (sub ++ after) sub (starts_with-append sub after)
contains-append (c ∷ before) sub after = ground (arith, contains-append before sub after)

starts_with_sound : (s sub : Text) → starts_with s sub ≡ true → (t : Text) × (s ≡ sub ++ t)
unfolding starts_with
starts_with_sound s [] h = (s, refl)
starts_with_sound [] (b ∷ t) h = cc
starts_with_sound (a ∷ s) (b ∷ t) h =
    let (rest, e) = starts_with_sound s t (ground arith) in (rest, ground arith)

-- And only that.
pub contains_sound :
    (s sub : Text)
    → contains s sub ≡ true
    → (before : Text) × (after : Text) × (s ≡ before ++ (sub ++ after))
unfolding contains
contains_sound [] sub h = let (t, e) = starts_with_sound [] sub h in ([], t, e)
contains_sound (c ∷ s) sub h = elim (Bool-cases (starts_with (c ∷ s) sub)) [
  | inl here ↦ (let (t, e) = starts_with_sound (c ∷ s) sub here in ([], t, e))
  | inr later ↦
      (let (b, a, e) = contains_sound s sub (ground arith) in (c ∷ b, a, ap (λ r. c ∷ r) e))
]
