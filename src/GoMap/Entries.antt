-- ===== src/GoMap/Entries.antt =====
-- What holds of every entry of a map.
use limiter.Prelude.{◌≡◌, [], ◌∷◌, some, arith, Bool-cases, inl, inr, All, subst}
use limiter.Text.{Text, ◌==◌, eq_iff}
use limiter.GoMap.{GoMap, get, set, delete}

module _ {V : Type 0} (P : Text × V → Type 0) where
  pub All-set : (m : GoMap V) (k : Text) (v : V) → P (k, v) → All P m → All P (set m k v)
  unfolding set
  All-set [] k v hv h = (hv, tt)
  All-set ((j, w) ∷ m) k v hv h = elim (Bool-cases (j == k)) [
    | inl same ↦ rw same (subst (λ x. P (x, v)) (ground (arith, eq_iff j k)) hv, h.1)
    | inr other ↦ rw other (h.0, All-set m k v hv h.1)
  ]

  pub All-delete : (m : GoMap V) (k : Text) → All P m → All P (delete m k)
  unfolding delete
  All-delete [] k h = tt
  All-delete ((j, w) ∷ m) k h = elim (Bool-cases (j == k)) [
    | inl same ↦ rw same (All-delete m k h.1)
    | inr other ↦ rw other (h.0, All-delete m k h.1)
  ]

  pub All-get : (m : GoMap V) (k : Text) (v : V) → All P m → get m k ≡ some v → P (k, v)
  unfolding get
  All-get [] k v h e = absurd (cc)
  All-get ((j, w) ∷ m) k v h e = elim (Bool-cases (j == k)) [
    | inl same ↦ (let here : (j, w) ≡ (k, v) = ground (arith, eq_iff j k) in subst P here h.0)
    | inr other ↦ All-get m k v h.1 (rw other at e)
  ]
