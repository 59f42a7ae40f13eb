-- ===== src/Text/Split.antt =====
-- `strings.Split` at a single byte and `strings.Join`.
use limiter.Prelude.{
  ℕ, suc, ◌≡◌, refl, ap, ◌≢◌, List, [], ◌∷◌, ◌++◌, arith, eqb, length, All, ◌∙◌, if◌then◌else◌,
  Bool-cases, inl, inr,
}
use limiter.Text.Bytes.{Text}

-- The byte joins the first part of what follows it.
cons_part : ℕ → List Text → List Text
cons_part c [] = (c ∷ []) ∷ []
cons_part c (p ∷ ps) = (c ∷ p) ∷ ps

-- There is always a first part, also in the empty text.
unfoldable pub split : Text → ℕ → List Text
unfolding cons_part
split [] sep = [] ∷ []
split (c ∷ s) sep = let rest = split s sep in if eqb c sep then [] ∷ rest else cons_part c rest

unfoldable pub join : List Text → Text → Text
join [] sep = []
join (p ∷ []) sep = p
join (p ∷ q ∷ ps) sep = p ++ (sep ++ join (q ∷ ps) sep)

unfoldable pub count : Text → ℕ → ℕ
count [] c = 0
count (b ∷ s) c = if eqb b c then suc (count s c) else count s c

abbrev pub Lacks : ℕ → Text → Type 0
Lacks c = All (λ b. b ≢ c)

length-cons_part :
    (c : ℕ) (ps : List Text) (n : ℕ) → length ps ≡ suc n → length (cons_part c ps) ≡ suc n
unfolding cons_part
length-cons_part c [] n h = cc
length-cons_part c (p ∷ ps) n h = h

-- One part more than there are separators.
pub length-split : (s : Text) (sep : ℕ) → length (split s sep) ≡ suc (count s sep)
unfolding split count
length-split [] sep = refl
length-split (c ∷ s) sep = elim (Bool-cases (eqb c sep)) [
  | inl e ↦ rw e (ap suc (length-split s sep))
  | inr e ↦ rw e (length-cons_part c (split s sep) (count s sep) (length-split s sep))
]

-- A text without the separator is one part.
pub split-Lacks : (s : Text) (sep : ℕ) → Lacks sep s → split s sep ≡ s ∷ []
unfolding split
split-Lacks [] sep h = refl
split-Lacks (c ∷ s) sep h = rw (split-Lacks s sep h.1) (ground arith)

-- The part before the first separator is split off.
pub split-append : (s t : Text) (sep : ℕ) → Lacks sep s → split (s ++ sep ∷ t) sep ≡ s ∷ split t sep
unfolding split
split-append [] t sep h = ground arith
split-append (c ∷ s) t sep h = rw (split-append s t sep h.1) (ground arith)

abbrev join_byte : List Text → ℕ → Text
join_byte ps sep = join ps (sep ∷ [])

join-cons_part :
    (c sep : ℕ) (p : Text) (ps : List Text)
    → join_byte (cons_part c (p ∷ ps)) sep ≡ c ∷ join_byte (p ∷ ps) sep
unfolding join cons_part
join-cons_part c sep p [] = refl
join-cons_part c sep p (q ∷ ps) = refl

-- The parts, joined by the separator, are the text.
pub join-split : (s : Text) (sep : ℕ) → join (split s sep) (sep ∷ []) ≡ s
unfolding split
join-split [] sep = unfold join in refl
join-split (c ∷ s) sep = go (split s sep) refl (join-split s sep) (length-split s sep)
  where
    go :
        (ps : List Text)
        → split s sep ≡ ps
        → join (split s sep) (sep ∷ []) ≡ s
        → length (split s sep) ≡ suc (count s sep)
        → join (split (c ∷ s) sep) (sep ∷ []) ≡ c ∷ s
    go [] e ih l = absurd (ground (arith, ap length e))
    go (p ∷ ps) e ih l = elim (Bool-cases (eqb c sep)) [
      | inl t ↦ rw (e, t) (unfold join in ground arith)
      | inr t ↦ rw (e, t) (join-cons_part c sep p ps ∙ ap (λ r. c ∷ r) (rw (← e) ih))
    ]
