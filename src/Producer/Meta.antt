-- ===== src/Producer/Meta.antt =====
-- The numbers of pods in the static metadata.
use limiter.Prelude.{
  ◌≡◌, ◌≢◌, refl, ap, sym, ◌∙◌, ℤ, pos, List, [], ◌∷◌, ◌++◌, false, Option, none, some, is_empty,
  length, if◌then◌else◌, Bool-cases, inl, inr, arith,
}
use mathlib.Core.List.Permᴰ
use limiter.Text.{Text, text, ◌==◌, eq_iff, eq_refl, append-cancel_right}
use limiter.GoMap.{GoMap, get, set, Runtime, IsDistinct}
use limiter.GoMap.Laws.{get-set_self, get-set_ne}
use limiter.GoMap.Range.{get-perm}
use limiter.Api.{NamespacedName}
use limiter.Producer.{count_pods, generate_meta}

-- `_base.pod` of `_base`
abbrev pub pod_key : Text → Text
pod_key k = k ++ text ".pod"

-- The number of pods of a subset that has some, over an earlier entry.
abbrev pub counted : Option (List Text) → Option ℤ → Option ℤ
counted o old = elim o [
  | none ↦ old
  | some pods ↦ if is_empty pods then old else some (pos (length pods))
]

module _ (go : Runtime) where
  abbrev with_count : Text → List Text → GoMap ℤ → GoMap ℤ
  with_count j v n = if is_empty v then n else set n (pod_key j) (pos (length v))

  with_count_ne :
      (j k : Text) (v : List Text) (n : GoMap ℤ)
      → (j == k) ≡ false
      → get (with_count j v n) (pod_key k) ≡ get n (pod_key k)
  with_count_ne j k v n other = elim (Bool-cases (is_empty v)) [
    | inl e ↦ rw e refl
    | inr e ↦ rw e (
        get-set_ne n (pod_key j) (pod_key k) (pos (length v))
          (λ same. keys_apart (append-cancel_right j k (text ".pod") same)))
  ]
    where
      keys_apart : j ≢ k
      keys_apart e = ground (arith, eq_iff j k)

  with_count_self :
      (k : Text) (v : List Text) (n : GoMap ℤ)
      → get (with_count k v n) (pod_key k) ≡ counted (some v) (get n (pod_key k))
  with_count_self k v n = elim (Bool-cases (is_empty v)) [
    | inl e ↦ rw e refl
    | inr e ↦ rw e (get-set_self n (pod_key k) (pos (length v)))
  ]

  get-count_pods :
      (es : GoMap (List Text)) (n : GoMap ℤ) (k : Text)
      → IsDistinct es
      → get (count_pods go es n) (pod_key k) ≡ counted (get es k) (get n (pod_key k))
  unfolding count_pods get
  get-count_pods [] n k d = refl
  get-count_pods ((j, v) ∷ es) n k d = elim (Bool-cases (j == k)) [
    | inl e ↦
        (let same : j ≡ k = (eq_iff j k).0 e in
          get-count_pods es (with_count j v n) k d.1
          ∙ ap (λ o. counted o (get (with_count j v n) (pod_key k))) (rw same at d.0)
          ∙ rw (same, eq_refl k) (with_count_self k v n))
    | inr e ↦
        get-count_pods es (with_count j v n) k d.1
        ∙ ap (counted (get es k)) (with_count_ne j k v n e)
        ∙ rw e refl
  ]

  -- If each subset stands once then for each that has pods the metadata says how many, under the
  -- subset's name with `.pod`, in whatever order the subsets are visited; for every other subset it
  -- says nothing.
  pub n_pod-generate_meta :
      (subsets_pods : GoMap (List Text)) (loc : NamespacedName) (k : Text)
      → IsDistinct subsets_pods
      → get (generate_meta go subsets_pods loc).n_pod (pod_key k)
        ≡ counted (get subsets_pods k) none
  unfolding generate_meta get
  n_pod-generate_meta subsets_pods loc k d =
      let (same, d') = get-perm (Permᴰ.symm (go.range_perm (List Text) subsets_pods)) d in
      get-count_pods (go.range (List Text) subsets_pods) [] k d'
      ∙ ap (λ o. counted o none) (sym (same k))
