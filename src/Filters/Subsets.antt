-- ===== src/Filters/Subsets.antt =====
-- What `GenerateEnvoyConfigs` returns for each subset of the service.
use limiter.Prelude.{
  List, [], ◌∷◌, Option, none, some, ◌≡◌, ◌≢◌, refl, ◌∙◌, sym, arith, All, subst, Go, ret, ◌>>=◌,
  deref, map, >>=-eq-ret,
}
use limiter.Text.{Text}
use limiter.GoMap.{GoMap, get, set, Runtime, IsDistinct}
use limiter.GoMap.Laws.{get-set_self, get-set_ne}
use limiter.GoMap.Range.{get-set_all_range}
use limiter.Api.{
  elements, SmartLimitDescriptor, SmartLimitDescriptors, SmartLimiterSpec, NamespacedName, found,
  ReadError,
}
use limiter.Envoy.{EnvoyFilter}
use limiter.Framework.{Framework}
use limiter.Filters.{
  Subset, Cluster, Configs, no_configs, descriptors_to_envoy_filter,
  descriptors_to_global_rate_limit, valid_descriptors, set_descriptor, add_valid, add_subset,
  add_subsets, subsets_of, subset_selector, generate_envoy_configs,
}

-- If a subset has each label once then its workloads are asked for by its labels and, for any other
-- key, by those of the service.
pub get-subset_selector :
    (fw : Framework) (go : Runtime) (sel : Option (GoMap Text)) (s : Subset) (j : Text)
    → IsDistinct s.labels
    → get (subset_selector fw go sel s) j
      ≡ elim (get s.labels j) [ none ↦ get (fw.copy_map sel) j | some v ↦ some v ]
unfolding subset_selector
get-subset_selector fw go sel s j d = get-set_all_range go (fw.copy_map sel) s.labels j d

abbrev pub HasOwnNames : List Subset → Type 0
HasOwnNames [] = Unit
HasOwnNames (s ∷ ss) = All (λ t. t.name ≢ s.name) ss × HasOwnNames ss

-- The set that the status has of descriptors.
abbrev pub reported : List SmartLimitDescriptor → Option SmartLimitDescriptors
reported ds = some (record { descriptor = some (map some ds) })

module _ (fw : Framework) (go : Runtime) (spec : SmartLimiterSpec) (material : Option (GoMap Text))
    (loc : NamespacedName) where
  -- The descriptors of a subset that take effect.
  pub valid_for : Text → Go (List SmartLimitDescriptor)
  valid_for name = elim (set_descriptor spec name) [
    | none ↦ ret []
    | some set_of ↦ do
      descs ← deref set_of
      valid_descriptors fw material (elements descs.descriptor)
  ]

  -- With no descriptor that takes effect there is no filter, so that an old one is deleted; else the
  -- filter is the one of these descriptors, and they are reported in the status.
  abbrev pub Outcome : Option (GoMap Text) → Configs → Subset → List SmartLimitDescriptor → Type 0
  Outcome sel c s [] = get c.envoy_filters s.name ≡ some none
  Outcome sel c s (d ∷ ds) =
      (ef : Option EnvoyFilter) × (descriptors_to_envoy_filter fw go (d ∷ ds)
          (subset_selector fw go sel s) loc spec.rls
        ≡ ret ef)
      × (get c.envoy_filters s.name ≡ some ef)
      × (get c.descriptors s.name ≡ some (reported (d ∷ ds)))

  -- The subset has an outcome, by the descriptors that are found to take effect.
  abbrev pub Settled : Option (GoMap Text) → Configs → Subset → Type 0
  Settled sel c s =
      (ds : List SmartLimitDescriptor) × (valid_for s.name ≡ ret ds) × Outcome sel c s ds

  add_valid-Outcome :
      (sel : Option (GoMap Text)) (s : Subset) (ds : List SmartLimitDescriptor) (c c' : Configs)
      → add_valid fw go spec material loc sel s ds c ≡ ret c'
      → Outcome sel c' s ds
  unfolding add_valid
  add_valid-Outcome sel s [] c c' h =
      let e : set c.envoy_filters s.name none ≡ c'.envoy_filters = ground arith in
      subst (λ m. get m s.name ≡ some none) e (get-set_self c.envoy_filters s.name none)
  add_valid-Outcome sel s (d ∷ ds) c c' h =
      let (ef, e, h') =
        >>=-eq-ret
          (descriptors_to_envoy_filter fw go (d ∷ ds) (subset_selector fw go sel s) loc spec.rls) _
          h in
      let (gs, e', h'') = >>=-eq-ret (descriptors_to_global_rate_limit fw (d ∷ ds) loc) _ h' in
      let f : set c.envoy_filters s.name ef ≡ c'.envoy_filters = ground arith in
      let g : set c.descriptors s.name (reported (d ∷ ds)) ≡ c'.descriptors = ground arith in
      (
        ef,
        e,
        subst (λ m. get m s.name ≡ some ef) f (get-set_self c.envoy_filters s.name ef),
        subst (λ m. get m s.name ≡ some (reported (d ∷ ds))) g
            (get-set_self c.descriptors s.name (reported (d ∷ ds))),
      )

  add_subset-Settled :
      (sel : Option (GoMap Text)) (s : Subset) (c c' : Configs)
      → add_subset fw go spec material loc sel s c ≡ ret c'
      → Settled sel c' s
  unfolding add_subset valid_for
  add_subset-Settled sel s c c' h = by_set (set_descriptor spec s.name) refl
    where
      by_set :
          (o : Option (Option SmartLimitDescriptors))
          → set_descriptor spec s.name ≡ o
          → Settled sel c' s
      by_set none e =
          let f : set c.envoy_filters s.name none ≡ c'.envoy_filters = ground arith in
          (
            [],
            rw (e, valid_for) refl,
            subst (λ m. get m s.name ≡ some none) f (get-set_self c.envoy_filters s.name none),
          )
      by_set (some set_of) e =
          let (descs, here, f) = >>=-eq-ret (deref set_of) _ (rw (e, add_subset) at h) in
          let (ds, made, g) =
            >>=-eq-ret (valid_descriptors fw material (elements descs.descriptor)) _ f in
          (ds, rw (e, valid_for) (rw here made), add_valid-Outcome sel s ds c c' g)

  -- A round changes nothing under another name.
  Same : Configs → Configs → Text → Type 0
  Same c c' name =
      (get c.envoy_filters name ≡ get c'.envoy_filters name)
      × (get c.descriptors name ≡ get c'.descriptors name)

  Outcome-Same :
      (sel : Option (GoMap Text)) (c c' : Configs) (s : Subset) (ds : List SmartLimitDescriptor)
      → Same c c' s.name
      → Outcome sel c s ds
      → Outcome sel c' s ds
  unfolding Same
  Outcome-Same sel c c' s [] (f, g) h = sym f ∙ h
  Outcome-Same sel c c' s (d ∷ ds) (f, g) (ef, e, hf, hg) = (ef, e, sym f ∙ hf, sym g ∙ hg)

  Settled-Same :
      (sel : Option (GoMap Text)) (c c' : Configs) (s : Subset)
      → Same c c' s.name
      → Settled sel c s
      → Settled sel c' s
  Settled-Same sel c c' s same (ds, e, o) = (ds, e, Outcome-Same sel c c' s ds same o)

  add_valid-Same :
      (sel : Option (GoMap Text)) (s : Subset) (ds : List SmartLimitDescriptor) (c c' : Configs)
      (name : Text)
      → s.name ≢ name
      → add_valid fw go spec material loc sel s ds c ≡ ret c'
      → Same c c' name
  unfolding add_valid Same
  add_valid-Same sel s [] c c' name n h =
      let f : c'.envoy_filters ≡ set c.envoy_filters s.name none = ground arith in
      let g : c'.descriptors ≡ c.descriptors = ground arith in
      (rw f (sym (get-set_ne c.envoy_filters s.name name none n)), rw g)
  add_valid-Same sel s (d ∷ ds) c c' name n h =
      let (ef, e, h') =
        >>=-eq-ret
          (descriptors_to_envoy_filter fw go (d ∷ ds) (subset_selector fw go sel s) loc spec.rls) _
          h in
      let (gs, e', h'') = >>=-eq-ret (descriptors_to_global_rate_limit fw (d ∷ ds) loc) _ h' in
      let f : c'.envoy_filters ≡ set c.envoy_filters s.name ef = ground arith in
      let g : c'.descriptors ≡ set c.descriptors s.name (reported (d ∷ ds)) = ground arith in
      (
        rw f (sym (get-set_ne c.envoy_filters s.name name ef n)),
        rw g (sym (get-set_ne c.descriptors s.name name (reported (d ∷ ds)) n)),
      )

  add_subset-Same :
      (sel : Option (GoMap Text)) (s : Subset) (c c' : Configs) (name : Text)
      → s.name ≢ name
      → add_subset fw go spec material loc sel s c ≡ ret c'
      → Same c c' name
  unfolding add_subset Same
  add_subset-Same sel s c c' name n h = by_set (set_descriptor spec s.name) refl
    where
      by_set :
          (o : Option (Option SmartLimitDescriptors))
          → set_descriptor spec s.name ≡ o
          → Same c c' name
      by_set none e =
          let f : c'.envoy_filters ≡ set c.envoy_filters s.name none = ground arith in
          let g : c'.descriptors ≡ c.descriptors = ground arith in
          (rw f (sym (get-set_ne c.envoy_filters s.name name none n)), rw g)
      by_set (some set_of) e =
          let (descs, here, f) = >>=-eq-ret (deref set_of) _ (rw (e, add_subset) at h) in
          let (ds, made, g) =
            >>=-eq-ret (valid_descriptors fw material (elements descs.descriptor)) _ f in
          add_valid-Same sel s ds c c' name n g

  add_subsets-Same :
      (sel : Option (GoMap Text)) (ss : List Subset) (c c' : Configs) (name : Text)
      → All (λ s. s.name ≢ name) ss
      → add_subsets fw go spec material loc sel ss c ≡ ret c'
      → Same c c' name
  unfolding add_subsets Same
  add_subsets-Same sel [] c c' name n h = (ground arith, ground arith)
  add_subsets-Same sel (s ∷ ss) c c' name n h =
      let (c1, e, h') = >>=-eq-ret (add_subset fw go spec material loc sel s c) _ h in
      let (f, g) = add_subset-Same sel s c c1 name n.0 e in
      let (f', g') = add_subsets-Same sel ss c1 c' name n.1 h' in (f ∙ f', g ∙ g')

  add_subsets-Settled :
      (sel : Option (GoMap Text)) (ss : List Subset) (c c' : Configs)
      → HasOwnNames ss
      → add_subsets fw go spec material loc sel ss c ≡ ret c'
      → All (λ s. Settled sel c' s) ss
  unfolding add_subsets
  add_subsets-Settled sel [] c c' n h = tt
  add_subsets-Settled sel (s ∷ ss) c c' n h =
      let (c1, e, h') = >>=-eq-ret (add_subset fw go spec material loc sel s c) _ h in
      (
        Settled-Same sel c1 c' s (add_subsets-Same sel ss c1 c' s.name n.0 h')
            (add_subset-Settled sel s c c1 e),
        add_subsets-Settled sel ss c1 c' n.1 h',
      )

  -- If the service is read and the subsets, the whole service among them, have names of their own,
  -- then each of them has an outcome: no filter if none of its descriptors takes effect, and else the
  -- filter of those that do, for the workloads of the subset, and their report in the status.
  pub subsets-Outcome :
      (k : Cluster) (sel : Option (GoMap Text)) (c : Configs) (e : Option ReadError)
      → k.get_service loc ≡ found sel
      → HasOwnNames (subsets_of fw loc k)
      → generate_envoy_configs fw go spec material loc k ≡ ret (c, e)
      → All (λ s. Settled sel c s) (subsets_of fw loc k)
  unfolding generate_envoy_configs
  subsets-Outcome k sel c e hs n h =
      let (c', e', h') =
        >>=-eq-ret (add_subsets fw go spec material loc sel (subsets_of fw loc k) no_configs) _
          (rw (hs, generate_envoy_configs) at h) in
      let same : c' ≡ c = ground arith in
      subst (λ x. All (λ s. Settled sel x s) (subsets_of fw loc k)) same
        (add_subsets-Settled sel (subsets_of fw loc k) no_configs c' n e')
