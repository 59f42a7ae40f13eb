-- ===== src/Filters/Keys.antt =====
-- The keys of the table of filters that `GenerateEnvoyConfigs` returns.
use limiter.Prelude.{
  ◌≡◌, subst, List, [], ◌∷◌, none, Option, ret, deref, >>=-eq-ret, arith, Option-cases, inl, inr,
}
use limiter.Text.{Text}
use limiter.GoMap.{GoMap, set, Runtime, IsDistinct}
use limiter.GoMap.Laws.{set-IsDistinct}
use limiter.Api.{elements, SmartLimitDescriptor, SmartLimiterSpec, NamespacedName, found, ReadError}
use limiter.Framework.{Framework}
use limiter.Filters.{
  Subset, Cluster, Configs, no_configs, descriptors_to_envoy_filter,
  descriptors_to_global_rate_limit, valid_descriptors, set_descriptor, subsets_of, subset_selector,
  add_valid, add_subset, add_subsets, generate_envoy_configs,
}

module _ (fw : Framework) (go : Runtime) (spec : SmartLimiterSpec) (material : Option (GoMap Text))
    (loc : NamespacedName) where
  -- Every subset stands once in the table.
  abbrev Keyed : Configs → Type 0
  Keyed c = IsDistinct c.envoy_filters

  add_valid-Keyed :
      (sel : Option (GoMap Text)) (s : Subset) (ds : List SmartLimitDescriptor) (c c' : Configs)
      → Keyed c
      → add_valid fw go spec material loc sel s ds c ≡ ret c'
      → Keyed c'
  unfolding add_valid
  add_valid-Keyed sel s [] c c' d h =
      let same : set c.envoy_filters s.name none ≡ c'.envoy_filters = ground arith in
      subst IsDistinct same (set-IsDistinct c.envoy_filters s.name none d)
  add_valid-Keyed sel s (x ∷ xs) c c' d h =
      let (ef, e, h') =
        >>=-eq-ret
          (descriptors_to_envoy_filter fw go (x ∷ xs) (subset_selector fw go sel s) loc spec.rls) _
          h in
      let (gs, e', h'') = >>=-eq-ret (descriptors_to_global_rate_limit fw (x ∷ xs) loc) _ h' in
      let same : set c.envoy_filters s.name ef ≡ c'.envoy_filters = ground arith in
      subst IsDistinct same (set-IsDistinct c.envoy_filters s.name ef d)

  add_subset-Keyed :
      (sel : Option (GoMap Text)) (s : Subset) (c c' : Configs)
      → Keyed c
      → add_subset fw go spec material loc sel s c ≡ ret c'
      → Keyed c'
  unfolding add_subset
  add_subset-Keyed sel s c c' d h = elim (Option-cases (set_descriptor spec s.name)) [
    | inl e ↦
        (let r = rw (e, add_subset) at h in
          let same : set c.envoy_filters s.name none ≡ c'.envoy_filters = ground (arith, r) in
          subst IsDistinct same (set-IsDistinct c.envoy_filters s.name none d))
    | inr (set_of, e) ↦
        (let (descs, _, f) = >>=-eq-ret (deref set_of) _ (rw (e, add_subset) at h) in
          let (ds, _, g) =
            >>=-eq-ret (valid_descriptors fw material (elements descs.descriptor)) _ f in
          add_valid-Keyed sel s ds c c' d g)
  ]

  add_subsets-Keyed :
      (sel : Option (GoMap Text)) (ss : List Subset) (c c' : Configs)
      → Keyed c
      → add_subsets fw go spec material loc sel ss c ≡ ret c'
      → Keyed c'
  unfolding add_subsets
  add_subsets-Keyed sel [] c c' d h = let same : c ≡ c' = ground arith in subst Keyed same d
  add_subsets-Keyed sel (s ∷ ss) c c' d h =
      let (c1, e, h') = >>=-eq-ret (add_subset fw go spec material loc sel s c) _ h in
      add_subsets-Keyed sel ss c1 c' (add_subset-Keyed sel s c c1 d e) h'

  pub generate_envoy_configs-Keyed :
      (k : Cluster) (c : Configs) (sel : Option (GoMap Text)) (e : Option ReadError)
      → k.get_service loc ≡ found sel
      → generate_envoy_configs fw go spec material loc k ≡ ret (c, e)
      → IsDistinct c.envoy_filters × (e ≡ none)
  unfolding generate_envoy_configs
  generate_envoy_configs-Keyed k c sel e hs h =
      let (c', e', h') =
        >>=-eq-ret (add_subsets fw go spec material loc sel (subsets_of fw loc k) no_configs) _
          (rw (hs, generate_envoy_configs) at h) in
      let same : c' ≡ c = ground arith in
      (
        subst Keyed same (add_subsets-Keyed sel (subsets_of fw loc k) no_configs c' tt e'),
        ground arith,
      )
