-- ===== src/Filters/Panics.antt =====
-- When the Envoy filters of a SmartLimiter can be generated at all.
use limiter.Prelude.{
  map, List, [], ◌∷◌, Option, none, some, ◌≡◌, refl, arith, All, All-map, subst, Option-cases,
  Bool-cases, inl, inr, ret, Returns, Returns-bind, Returns-case,
}
use limiter.Text.{Text, ◌==◌}
use limiter.GoMap.{GoMap, get, set, Runtime}
use limiter.Api.{
  elements, SmartLimitDescriptor, SmartLimitDescriptors, SmartLimiterSpec, NamespacedName, Fetched,
  found, failed,
}
use limiter.Framework.{Framework}
use limiter.Action.Agreement.{HasMatchers}
use limiter.RoutePatch.{generate_http_router_patch}
use limiter.RoutePatch.Panics.{generate_http_router_patch-Returns}
use limiter.LocalLimit.{generate_local_rate_limit_per_filter_patch}
use limiter.LocalLimit.Filing.{HasBucket}
use limiter.LocalLimit.Buckets.{IsComplete, IsComplete-HasBucket}
use limiter.LocalLimit.Panics.{generate_local_rate_limit_per_filter_patch-Returns}
use limiter.GlobalLimit.Quota.{IsComplete-Returns}
use limiter.Filters.{
  Subset, Cluster, Configs, no_configs, is_global, local_part, local_patches,
  descriptors_to_envoy_filter, global_descriptors_of, descriptors_to_global_rate_limit,
  set_descriptor, add_valid, add_subset, add_subsets, subsets_of, subset_selector,
  generate_envoy_configs,
}
use limiter.Filters.Selection.{HasParts, Selects-IsComplete, valid_descriptors-Selects}

pub local_part-IsComplete :
    (ds : List SmartLimitDescriptor) → All IsComplete ds → All IsComplete (local_part ds)
unfolding local_part
local_part-IsComplete [] h = tt
local_part-IsComplete (d ∷ ds) ((action, interval, ha, hi, m), h) =
    elim (Bool-cases (is_global action)) [
      | inl e ↦ rw (ha, local_part) (rw e (local_part-IsComplete ds h))
      | inr e ↦
          rw (ha, local_part) (rw e ((action, interval, ha, hi, m), local_part-IsComplete ds h))
    ]

global_descriptors_of-IsComplete :
    (ds : List SmartLimitDescriptor)
    → All IsComplete ds
    → (gs : List SmartLimitDescriptor) × (global_descriptors_of ds ≡ ret gs) × All IsComplete gs
unfolding global_descriptors_of
global_descriptors_of-IsComplete [] h = ([], refl, tt)
global_descriptors_of-IsComplete (d ∷ ds) ((action, interval, ha, hi, m), h) =
    let (gs, e, c) = global_descriptors_of-IsComplete ds h in
    elim (Bool-cases (is_global action)) [
      | inl g ↦ (d ∷ gs, rw (ha, e) (rw g refl), ((action, interval, ha, hi, m), c))
      | inr g ↦ (gs, rw (ha, e) (rw g refl), c)
    ]

module _ (fw : Framework) (go : Runtime) where
  descriptors_to_global_rate_limit-Returns :
      (ds : List SmartLimitDescriptor) (loc : NamespacedName)
      → All IsComplete ds
      → Returns (descriptors_to_global_rate_limit fw ds loc)
  unfolding descriptors_to_global_rate_limit
  descriptors_to_global_rate_limit-Returns ds loc h =
      let (gs, e, c) = global_descriptors_of-IsComplete ds h in
      rw e (IsComplete-Returns fw loc gs c)

  local_patches-Returns :
      (locals : List SmartLimitDescriptor) (loc : NamespacedName)
      → All IsComplete locals
      → Returns (local_patches fw go locals loc)
  unfolding local_patches
  local_patches-Returns [] loc h = ([], refl)
  local_patches-Returns (d ∷ ds) loc h =
      Returns-bind (generate_local_rate_limit_per_filter_patch fw go (d ∷ ds) loc) _
        (generate_local_rate_limit_per_filter_patch-Returns fw (d ∷ ds) loc go
          (All-map HasBucket IsComplete-HasBucket (d ∷ ds) h))
        (λ ps _. (_, refl))

  pub descriptors_to_envoy_filter-Returns :
      (ds : List SmartLimitDescriptor) (labels : GoMap Text) (loc : NamespacedName) (rls : Text)
      → All IsComplete ds
      → Returns (descriptors_to_envoy_filter fw go ds labels loc rls)
  unfolding descriptors_to_envoy_filter
  descriptors_to_envoy_filter-Returns ds labels loc rls h =
      Returns-bind (generate_http_router_patch fw go ds loc) _
        (generate_http_router_patch-Returns fw go ds loc (All-map HasMatchers (λ d c. c.4) ds h))
        (λ router _. Returns-case router none _ (λ ps.
          Returns-bind (local_patches fw go (local_part ds) loc) _
            (local_patches-Returns (local_part ds) loc (local_part-IsComplete ds h))
            (λ ls _. (_, refl))))

-- A set is there, each of its descriptors is, no matcher in them is nil, and their actions have
-- intervals.
abbrev pub IsFilled : Option SmartLimitDescriptors → Type 0
IsFilled set_of =
    (descs : SmartLimitDescriptors) × (dess : List SmartLimitDescriptor) × (set_of ≡ some descs)
    × (elements descs.descriptor ≡ map some dess)
    × All HasParts dess

-- Every set of the resource is.
abbrev pub IsWellFormed : SmartLimiterSpec → Type 0
IsWellFormed spec = elim spec.sets [ none ↦ Unit {0} | some sets ↦ All (λ e. IsFilled e.1) sets ]

IsFilled-set :
    (sets : GoMap (Option SmartLimitDescriptors)) (name : Text)
    (set_of : Option SmartLimitDescriptors)
    → All (λ e. IsFilled e.1) sets
    → get sets name ≡ some set_of
    → IsFilled set_of
unfolding get
IsFilled-set [] name set_of h e = absurd (cc)
IsFilled-set ((j, d) ∷ sets) name set_of h e = elim (Bool-cases (j == name)) [
  | inl same ↦ let same_set : d ≡ set_of = ground arith in subst IsFilled same_set h.0
  | inr other ↦ IsFilled-set sets name set_of h.1 (rw other at e)
]

IsFilled-spec :
    (spec : SmartLimiterSpec) (o : Option (GoMap (Option SmartLimitDescriptors))) (name : Text)
    (set_of : Option SmartLimitDescriptors)
    → spec.sets ≡ o
    → IsWellFormed spec
    → set_descriptor spec name ≡ some set_of
    → IsFilled set_of
unfolding set_descriptor
IsFilled-spec spec none name set_of o h e = absurd (cc (rw (o, set_descriptor) at e))
IsFilled-spec spec (some sets) name set_of o h e =
    IsFilled-set sets name set_of (rw o at h) (rw (o, set_descriptor) at e)

module _ (fw : Framework) (go : Runtime) (spec : SmartLimiterSpec) (material : Option (GoMap Text))
    (loc : NamespacedName) where
  add_valid-Returns :
      (sel : Option (GoMap Text)) (s : Subset) (ds : List SmartLimitDescriptor) (c : Configs)
      → All IsComplete ds
      → Returns (add_valid fw go spec material loc sel s ds c)
  unfolding add_valid
  add_valid-Returns sel s [] c h = (_, refl)
  add_valid-Returns sel s (d ∷ ds) c h =
      Returns-bind
        (descriptors_to_envoy_filter fw go (d ∷ ds) (subset_selector fw go sel s) loc spec.rls) _
        (descriptors_to_envoy_filter-Returns fw go (d ∷ ds) _ loc spec.rls h)
        (λ ef _.
          Returns-bind (descriptors_to_global_rate_limit fw (d ∷ ds) loc) _
            (descriptors_to_global_rate_limit-Returns fw go (d ∷ ds) loc h) (λ gs _. (_, refl)))

  add_subset-Returns :
      IsWellFormed spec
      → (sel : Option (GoMap Text)) (s : Subset) (c : Configs)
      → Returns (add_subset fw go spec material loc sel s c)
  unfolding add_subset
  add_subset-Returns h sel s c = elim (Option-cases (set_descriptor spec s.name)) [
    | inl e ↦
        (record c { envoy_filters = set c.envoy_filters s.name none }, rw (e, add_subset) refl)
    | inr (set_of, e) ↦
        (let (descs, dess, here, all_here, parts) =
            IsFilled-spec spec spec.sets s.name set_of refl h e in
          let (ds, made, selects) = valid_descriptors-Selects fw material dess in
          let (after, valid) =
            add_valid-Returns sel s ds c (Selects-IsComplete fw material selects parts) in
          (after, rw (e, add_subset) (rw here (rw all_here (rw made valid)))))
  ]

  add_subsets-Returns :
      IsWellFormed spec
      → (sel : Option (GoMap Text)) (ss : List Subset) (c : Configs)
      → Returns (add_subsets fw go spec material loc sel ss c)
  unfolding add_subsets
  add_subsets-Returns h sel [] c = (c, refl)
  add_subsets-Returns h sel (s ∷ ss) c =
      Returns-bind (add_subset fw go spec material loc sel s c)
        (add_subsets fw go spec material loc sel ss) (add_subset-Returns h sel s c)
        (λ c' _. add_subsets-Returns h sel ss c')

  -- If no set, descriptor or matcher of the resource is nil and each of its actions has an interval,
  -- the generation does not panic, whatever the metrics, the subsets, the service and the outcome
  -- of conversions.
  pub generate_envoy_configs-Returns :
      (k : Cluster) → IsWellFormed spec → Returns (generate_envoy_configs fw go spec material loc k)
  unfolding generate_envoy_configs
  generate_envoy_configs-Returns k h = reads (k.get_service loc) refl
    where
      reads :
          (r : Fetched (Option (GoMap Text)))
          → k.get_service loc ≡ r
          → Returns (generate_envoy_configs fw go spec material loc k)
      reads (failed e) p = ((no_configs, some e), rw (p, generate_envoy_configs) refl)
      reads (found sel) p =
          rw (p, generate_envoy_configs)
            (Returns-bind (add_subsets fw go spec material loc sel (subsets_of fw loc k) no_configs)
              _ (add_subsets-Returns h sel (subsets_of fw loc k) no_configs) (λ c _. (_, refl)))
