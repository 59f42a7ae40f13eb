-- ===== src/LocalLimit/PerRoute.antt =====
-- The per-route configurations of the local filter.
use limiter.Prelude.{subst, List, [], ◌∷◌, some, ◌≡◌, refl, ◌∙◌, sym, All, ret}
use limiter.Text.{Text}
use limiter.GoMap.{GoMap, slice_at, Runtime}
use limiter.GoMap.Groups.{
  push_all, values_on, slice_at-push_all_nil, loop, loop_over_filed, All-loop, IsSlice,
  visited_slices,
}
use limiter.Api.{SmartLimitDescriptor, NamespacedName}
use limiter.Envoy.{Message, Fields, ConfigObjectPatch, TokenBucket, LocalRateLimitDescriptor}
use limiter.Envoy
use limiter.Framework.{Framework}
use limiter.Route.{RouteConfig, gen_vhost_route_name}
use limiter.RoutePatch.{generate_envoy_vhost_match}
use limiter.RoutePatch.Patches.{route_of_patch, patches_on, IsRoute}
use limiter.LocalLimit.{
  route_patch, route_patches, generate_local_rate_limit_descriptors, local_rate_limit_of,
  generate_per_filter_patch, generate_local_rate_limit_per_filter_patch,
}
use limiter.LocalLimit.Filing.{
  descriptor_entries, config_entries, HasBucket, Paired, configs-IsNamed, paired, limits_of,
  buckets-limits, all_buckets_on, configs, file_descriptors-push_all,
}

module _ (fw : Framework) (encode : Message → Fields)
    (converts : (m : Message) → fw.message_to_struct m ≡ some (encode m))
    (ds : List SmartLimitDescriptor) (loc : NamespacedName) where
  patch_at : RouteConfig → List LocalRateLimitDescriptor → ConfigObjectPatch
  patch_at rc limits = record {
    apply_to = Envoy.http_route;
    match = some (generate_envoy_vhost_match rc);
    patch =
        generate_per_filter_patch fw
          (encode (Envoy.local_rate_limit (local_rate_limit_of fw limits)));
  }

  limited : List RouteConfig → List LocalRateLimitDescriptor → List ConfigObjectPatch
  limited [] limits = []
  limited (rc ∷ rest) limits = patch_at rc limits ∷ []

  -- What a route wants: nothing if no descriptor names it, and else one patch with a limit for each
  -- descriptor that does, in order.
  pub wanted_limits : Text → List SmartLimitDescriptor → List ConfigObjectPatch
  unfolding limited patch_at
  wanted_limits k [] = []
  wanted_limits k (d ∷ desc) =
      limited (values_on k (config_entries ds)) (limits_of fw loc (d ∷ desc))

  limited-keyed :
      (k : Text) (rcs : List RouteConfig) (limits : List LocalRateLimitDescriptor)
      → All (λ rc. gen_vhost_route_name rc ≡ k) rcs
      → All (λ p. route_of_patch p ≡ k) (limited rcs limits)
  unfolding limited patch_at generate_envoy_vhost_match gen_vhost_route_name
  limited-keyed k [] limits h = tt
  limited-keyed k (rc ∷ rest) limits h = (h.0, tt)

  limited-IsRoute :
      (rcs : List RouteConfig) (limits : List LocalRateLimitDescriptor)
      → All IsRoute (limited rcs limits)
  unfolding limited patch_at
  limited-IsRoute [] limits = tt
  limited-IsRoute (rc ∷ rest) limits = (refl, tt)

  wanted_limits-IsRoute :
      (k : Text) (desc : List SmartLimitDescriptor) → All IsRoute (wanted_limits k desc)
  unfolding wanted_limits
  wanted_limits-IsRoute k [] = tt
  wanted_limits-IsRoute k (d ∷ desc) =
      limited-IsRoute (values_on k (config_entries ds)) (limits_of fw loc (d ∷ desc))

  pub wanted_limits-nil : (k : Text) → wanted_limits k [] ≡ []
  unfolding wanted_limits
  wanted_limits-nil k = refl

  wanted_limits-keyed :
      (k : Text) (d : SmartLimitDescriptor) (desc : List SmartLimitDescriptor)
      → All (λ p. route_of_patch p ≡ k) (wanted_limits k (d ∷ desc))
  unfolding wanted_limits
  wanted_limits-keyed k d desc =
      limited-keyed k (values_on k (config_entries ds)) (limits_of fw loc (d ∷ desc))
        (configs-IsNamed k ds)

  route_patch_ret :
      (k : Text) (d : SmartLimitDescriptor) (desc : List SmartLimitDescriptor) (rc : RouteConfig)
      (rest : List RouteConfig) (limits : List LocalRateLimitDescriptor)
      → slice_at (configs ds) k ≡ rc ∷ rest
      → generate_local_rate_limit_descriptors fw (d ∷ desc) loc ≡ ret limits
      → route_patch fw (configs ds) k (d ∷ desc) loc ≡ ret (some (patch_at rc limits))
  unfolding route_patch patch_at
  route_patch_ret k d desc rc rest limits es el = rw (el, converts, es, route_patch)

  route_patch-wanted :
      (k : Text) (desc : List SmartLimitDescriptor)
      → All HasBucket ds
      → IsSlice (descriptor_entries ds) (k, desc)
      → (p : ConfigObjectPatch) × (route_patch fw (configs ds) k desc loc ≡ ret (some p))
        × (wanted_limits k desc ≡ p ∷ [])
  route_patch-wanted k [] b h = absurd (cc (h.1.2))
  route_patch-wanted k (d ∷ desc) b h =
      let (rc, rest, ec) =
        subst (λ l. Paired k l (values_on k (config_entries ds))) (sym h.0) (paired k ds) in
      (
        patch_at rc (limits_of fw loc (d ∷ desc)),
        route_patch_ret k d desc rc rest (limits_of fw loc (d ∷ desc))
            (slice_at-push_all_nil (config_entries ds) k ∙ ec)
            (buckets-limits fw loc (d ∷ desc)
              (subst (All HasBucket) (sym h.0) (all_buckets_on k ds b))),
        unfold wanted_limits limited in rw ec refl,
      )

  route_patches-loop :
      (l : GoMap (List SmartLimitDescriptor))
      → All HasBucket ds
      → All (IsSlice (descriptor_entries ds)) l
      → route_patches fw (configs ds) l loc
        ≡ ret (some (loop route_of_patch wanted_limits wanted_limits-nil wanted_limits-keyed l))
  unfolding route_patches
  route_patches-loop [] b h = refl
  route_patches-loop ((k, desc) ∷ l) b h =
      let (p, e, w) = route_patch-wanted k desc b h.0 in rw (e, w, route_patches-loop l b h.1)

  -- If every message converts and every descriptor has a bucket, the patches are made without a
  -- panic, and each route that a descriptor names has exactly one: the limits of all those
  -- descriptors, in order. No other route has one.
  pub one_limit_each :
      (go : Runtime)
      → All HasBucket ds
      → (ps : List ConfigObjectPatch) × (generate_local_rate_limit_per_filter_patch fw go ds loc
          ≡ ret ps)
        × All IsRoute ps
        × ((k : Text) → patches_on k ps ≡ wanted_limits k (values_on k (descriptor_entries ds)))
  unfolding generate_local_rate_limit_per_filter_patch
  one_limit_each go b = (
    loop route_of_patch wanted_limits wanted_limits-nil wanted_limits-keyed
        (go.range _ (push_all [] (descriptor_entries ds))),
    rw (
      file_descriptors-push_all (record { descriptors = []; configs = [] }) ds,
      route_patches-loop _ b (visited_slices (descriptor_entries ds) go),
    ),
    All-loop route_of_patch wanted_limits wanted_limits-nil wanted_limits-keyed IsRoute
        wanted_limits-IsRoute (go.range _ (push_all [] (descriptor_entries ds))),
    λ k.
        loop_over_filed route_of_patch wanted_limits wanted_limits-nil wanted_limits-keyed go
          (descriptor_entries ds) k,
  )
