-- ===== src/Filters/Named.antt =====
-- Which service the generated descriptors of the rate limit server are about.
use limiter.Prelude.{
  ◌≡◌, refl, subst, List, [], ◌∷◌, ◌++◌, Option, ret, deref, >>=-eq-ret, All, All-append, arith,
  Option-cases, inl, inr,
}
use limiter.Text.{Text}
use limiter.GoMap.{GoMap, Runtime}
use limiter.Api.{
  elements, SmartLimitDescriptor, SmartLimiterSpec, NamespacedName, Fetched, found, failed,
  ReadError,
}
use limiter.Model.{Descriptor}
use limiter.Framework.{Framework}
use limiter.GlobalLimit.Named.{IsNamed, generate_global_rate_limit_descriptor-IsNamed}
use limiter.Filters.{
  Subset, Cluster, Configs, no_configs, descriptors_to_envoy_filter, global_descriptors_of,
  descriptors_to_global_rate_limit, valid_descriptors, set_descriptor, subsets_of, subset_selector,
  add_valid, add_subset, add_subsets, generate_envoy_configs,
}

module _ (fw : Framework) (go : Runtime) (spec : SmartLimiterSpec) (material : Option (GoMap Text))
    (loc : NamespacedName) where
  descriptors_to_global_rate_limit-IsNamed :
      (ds : List SmartLimitDescriptor) (items : List Descriptor)
      → descriptors_to_global_rate_limit fw ds loc ≡ ret items
      → All (IsNamed loc) items
  unfolding descriptors_to_global_rate_limit
  descriptors_to_global_rate_limit-IsNamed ds items h =
      let (gs, e, e') = >>=-eq-ret (global_descriptors_of ds) _ h in
      generate_global_rate_limit_descriptor-IsNamed fw loc gs items e'

  add_valid-IsNamed :
      (sel : Option (GoMap Text)) (s : Subset) (ds : List SmartLimitDescriptor) (c c' : Configs)
      → All (IsNamed loc) c.global_descriptors
      → add_valid fw go spec material loc sel s ds c ≡ ret c'
      → All (IsNamed loc) c'.global_descriptors
  unfolding add_valid
  add_valid-IsNamed sel s [] c c' n h =
      let same : c.global_descriptors ≡ c'.global_descriptors = ground arith in
      subst (All (IsNamed loc)) same n
  add_valid-IsNamed sel s (d ∷ ds) c c' n h =
      let (ef, e, h') =
        >>=-eq-ret
          (descriptors_to_envoy_filter fw go (d ∷ ds) (subset_selector fw go sel s) loc spec.rls) _
          h in
      let (gs, e', h'') = >>=-eq-ret (descriptors_to_global_rate_limit fw (d ∷ ds) loc) _ h' in
      let same : c.global_descriptors ++ gs ≡ c'.global_descriptors = ground arith in
      subst (All (IsNamed loc)) same (
        All-append (IsNamed loc) c.global_descriptors gs n
          (descriptors_to_global_rate_limit-IsNamed (d ∷ ds) gs e'))

  add_subset-IsNamed :
      (sel : Option (GoMap Text)) (s : Subset) (c c' : Configs)
      → All (IsNamed loc) c.global_descriptors
      → add_subset fw go spec material loc sel s c ≡ ret c'
      → All (IsNamed loc) c'.global_descriptors
  unfolding add_subset
  add_subset-IsNamed sel s c c' n h = elim (Option-cases (set_descriptor spec s.name)) [
    | inl e ↦
        (let r = rw (e, add_subset) at h in
          let same : c.global_descriptors ≡ c'.global_descriptors = ground (arith, r) in
          subst (All (IsNamed loc)) same n)
    | inr (set_of, e) ↦
        (let (descs, _, f) = >>=-eq-ret (deref set_of) _ (rw (e, add_subset) at h) in
          let (ds, _, g) =
            >>=-eq-ret (valid_descriptors fw material (elements descs.descriptor)) _ f in
          add_valid-IsNamed sel s ds c c' n g)
  ]

  add_subsets-IsNamed :
      (sel : Option (GoMap Text)) (ss : List Subset) (c c' : Configs)
      → All (IsNamed loc) c.global_descriptors
      → add_subsets fw go spec material loc sel ss c ≡ ret c'
      → All (IsNamed loc) c'.global_descriptors
  unfolding add_subsets
  add_subsets-IsNamed sel [] c c' n h =
      let same : c.global_descriptors ≡ c'.global_descriptors = ground arith in
      subst (All (IsNamed loc)) same n
  add_subsets-IsNamed sel (s ∷ ss) c c' n h =
      let (c1, e, h') = >>=-eq-ret (add_subset fw go spec material loc sel s c) _ h in
      add_subsets-IsNamed sel ss c1 c' (add_subset-IsNamed sel s c c1 n e) h'

  -- Each item that is generated for the rate limit server has the name and the namespace of the
  -- service in its value, whichever descriptors take effect.
  pub global_descriptors-IsNamed :
      (k : Cluster) (c : Configs) (e : Option ReadError)
      → generate_envoy_configs fw go spec material loc k ≡ ret (c, e)
      → All (IsNamed loc) c.global_descriptors
  unfolding generate_envoy_configs
  global_descriptors-IsNamed k c e h = reads (k.get_service loc) refl
    where
      reads :
          (r : Fetched (Option (GoMap Text)))
          → k.get_service loc ≡ r
          → All (IsNamed loc) c.global_descriptors
      reads (failed e') p =
          let r = rw (p, generate_envoy_configs) at h in
          let same : no_configs.global_descriptors ≡ c.global_descriptors = ground (arith, r) in
          subst (All (IsNamed loc)) same tt
      reads (found sel) p =
          let (c', e', h') =
            >>=-eq-ret (add_subsets fw go spec material loc sel (subsets_of fw loc k) no_configs) _
              (rw (p, generate_envoy_configs) at h) in
          let same : c' ≡ c = ground arith in
          subst (λ x. All (IsNamed loc) x.global_descriptors) same
            (add_subsets-IsNamed sel (subsets_of fw loc k) no_configs c' tt e')
