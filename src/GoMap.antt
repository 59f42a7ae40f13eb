-- ===== src/GoMap.antt =====
-- Go's `map[string]V` as an association list, and the order in which `range` visits it.
pub mod Laws
pub mod Range
pub mod Groups
pub mod Entries
use limiter.Prelude.{
  ◌≡◌, Bool, true, false, List, [], ◌∷◌, ◌++◌, map, Option, none, some, if◌then◌else◌,
}
use mathlib.Core.List.{Permᴰ}
use limiter.Text.{Text, ◌==◌}

abbrev pub GoMap : Type 0 → Type 0
GoMap V = List (Text × V)

module _ {V : Type 0} where
  -- `v, ok := m[k]`
  unfoldable pub get : GoMap V → Text → Option V
  get [] k = none
  get ((j, v) ∷ m) k = if j == k then some v else get m k

  -- `m[k] = v`
  unfoldable pub set : GoMap V → Text → V → GoMap V
  set [] k v = (k, v) ∷ []
  set ((j, w) ∷ m) k v = if j == k then (j, v) ∷ m else (j, w) ∷ set m k v

  -- `delete(m, k)`
  unfoldable pub delete : GoMap V → Text → GoMap V
  delete [] k = []
  delete ((j, v) ∷ m) k = let rest = delete m k in if j == k then rest else (j, v) ∷ rest

  abbrev pub keys : GoMap V → List Text
  keys = map (λ e. e.0)

  -- Every key stands once, as in a Go map.
  abbrev pub IsDistinct : GoMap V → Type 0
  IsDistinct [] = Unit
  IsDistinct ((k, v) ∷ m) = (get m k ≡ none) × IsDistinct m

  -- `for k, v := range entries { m[k] = v }`
  unfoldable pub set_all : GoMap V → List (Text × V) → GoMap V
  set_all m [] = m
  set_all m ((k, v) ∷ es) = set_all (set m k v) es

-- `if _, ok := m[k]; !ok { m[k] = []V{v} } else { m[k] = append(m[k], v) }`
unfoldable pub push : {V : Type 0} → GoMap (List V) → Text → V → GoMap (List V)
unfolding get set
push m k v = elim (get m k) [ none ↦ set m k (v ∷ []) | some vs ↦ set m k (vs ++ v ∷ []) ]

-- The slice that stands for an absent key, `m[k]`.
unfoldable pub slice_at : {V : Type 0} → GoMap (List V) → Text → List V
slice_at m k = elim (get m k) [ none ↦ [] | some vs ↦ vs ]

-- The language fixes no order of iteration: `range` visits some permutation of the entries.
pub record Runtime : Type 1 where
  pub range : (V : Type 0) → GoMap V → List (Text × V)
  pub range_perm : (V : Type 0) (m : GoMap V) → Permᴰ (range V m) m
