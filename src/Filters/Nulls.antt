-- ===== src/Filters/Nulls.antt =====
-- Sets and descriptors that are null, which the decoder lets through.
use limiter.Prelude.{
  ◌≡◌, refl, List, [], ◌∷◌, ◌++◌, Option, none, some, Go, ret, panic, ◌>>=◌, deref, HasNil,
}
use limiter.Text.{Text}
use limiter.GoMap.{GoMap, get, Runtime}
use limiter.Api.{
  elements, SmartLimitDescriptor, SmartLimitDescriptors, SmartLimiterSpec, NamespacedName, found,
}
use limiter.Framework.{Framework}
use limiter.Filters.{
  Subset, Cluster, Configs, no_configs, valid_descriptors, set_descriptor, add_valid, add_subset,
  add_subsets, subsets_of, generate_envoy_configs,
}

-- The set is nil, or one of its descriptors is.
abbrev pub IsNull : Option SmartLimitDescriptors → Type 0
IsNull none = Unit
IsNull (some descs) = HasNil (elements descs.descriptor)

panic_after : {A B : Type 0} (m : Go A) (f : A → Go B) → ((a : A) → f a ≡ panic) → (m >>= f) ≡ panic
panic_after (ret a) f h = h a
panic_after panic f h = refl

HasNil-valid_descriptors :
    (fw : Framework) (material : Option (GoMap Text)) (items : List (Option SmartLimitDescriptor))
    → HasNil items
    → valid_descriptors fw material items ≡ panic
unfolding valid_descriptors
HasNil-valid_descriptors fw material [] h = absurd h
HasNil-valid_descriptors fw material (none ∷ items) h = refl
HasNil-valid_descriptors fw material (some des ∷ items) h =
    rw (HasNil-valid_descriptors fw material items h) refl

module _ (fw : Framework) (go : Runtime) (spec : SmartLimiterSpec) (material : Option (GoMap Text))
    (loc : NamespacedName) (sets : GoMap (Option SmartLimitDescriptors)) (s : Subset)
    (set_of : Option SmartLimitDescriptors) (has_sets : spec.sets ≡ some sets)
    (has_set : get sets s.name ≡ some set_of) (null : IsNull set_of) where
  of_spec : set_descriptor spec s.name ≡ some set_of
  unfolding set_descriptor
  of_spec = rw has_sets has_set

  add_subset-null :
      (sel : Option (GoMap Text)) (c : Configs) → add_subset fw go spec material loc sel s c ≡ panic
  unfolding add_subset
  add_subset-null sel c = rw (of_spec, add_subset) (by_set set_of null)
    where
      by_set :
          (o : Option SmartLimitDescriptors)
          → IsNull o
          → (deref o >>= λ descs.
              valid_descriptors fw material (elements descs.descriptor) >>= λ ds.
              add_valid fw go spec material loc sel s ds c)
            ≡ panic
      by_set none h = refl
      by_set (some descs) h =
          rw (HasNil-valid_descriptors fw material (elements descs.descriptor) h) refl

  add_subsets-null :
      (before after : List Subset) (sel : Option (GoMap Text)) (c : Configs)
      → add_subsets fw go spec material loc sel (before ++ s ∷ after) c ≡ panic
  unfolding add_subsets
  add_subsets-null [] after sel c = rw (add_subset-null sel c) refl
  add_subsets-null (t ∷ before) after sel c =
      panic_after (add_subset fw go spec material loc sel t c)
        (add_subsets fw go spec material loc sel (before ++ s ∷ after))
        (λ c1. add_subsets-null before after sel c1)

  -- If the set of a subset is null, or has a null descriptor, and the service is found, then the
  -- generation panics, whatever the other sets are.
  pub null_set_panics :
      (k : Cluster) (sel : Option (GoMap Text)) (before after : List Subset)
      → k.get_service loc ≡ found sel
      → subsets_of fw loc k ≡ before ++ s ∷ after
      → generate_envoy_configs fw go spec material loc k ≡ panic
  unfolding generate_envoy_configs
  null_set_panics k sel before after service subsets =
      rw (service, generate_envoy_configs)
        (rw subsets (rw (add_subsets-null before after sel no_configs) refl))
