-- ===== src/LocalLimit/Panics.antt =====
-- Panics in the patches of the local filter.
use limiter.Prelude.{
  List, [], ◌∷◌, none, some, refl, sym, All, subst, first, Returns, Returns-bind, Returns-case,
}
use limiter.Text.{Text}
use limiter.GoMap.{GoMap, Runtime, slice_at}
use limiter.GoMap.Groups.{push_all, values_on, slice_at-push_all_nil, IsSlice, visited_slices}
use limiter.Api.{SmartLimitDescriptor, NamespacedName}
use limiter.Framework.{Framework}
use limiter.LocalLimit.{
  route_patch, route_patches, generate_local_rate_limit_descriptors,
  generate_local_rate_limit_per_filter_patch,
}
use limiter.LocalLimit.Filing.{
  descriptor_entries, config_entries, HasBucket, Paired, paired, buckets-limits, all_buckets_on,
  configs, file_descriptors-push_all,
}

module _ (fw : Framework) (ds : List SmartLimitDescriptor) (loc : NamespacedName) where
  route_patch-Returns :
      (k : Text) (desc : List SmartLimitDescriptor)
      → All HasBucket ds
      → IsSlice (descriptor_entries ds) (k, desc)
      → Returns (route_patch fw (configs ds) k desc loc)
  unfolding route_patch
  route_patch-Returns k [] b h = absurd (cc (h.1.2))
  route_patch-Returns k (d ∷ desc) b h =
      let (rc, rest, ec) =
        subst (λ l. Paired k l (values_on k (config_entries ds))) (sym h.0) (paired k ds) in
      Returns-bind (generate_local_rate_limit_descriptors fw (d ∷ desc) loc) _
        (
          _,
          buckets-limits fw loc (d ∷ desc)
              (subst (All HasBucket) (sym h.0) (all_buckets_on k ds b)),
        )
        (λ limits _. Returns-case _ none _ (λ local.
          Returns-bind (first (slice_at (configs ds) k)) _
            (rc, rw (slice_at-push_all_nil (config_entries ds) k, ec) refl) (λ rc' _. (_, refl))))

  route_patches-Returns :
      (l : GoMap (List SmartLimitDescriptor))
      → All HasBucket ds
      → All (IsSlice (descriptor_entries ds)) l
      → Returns (route_patches fw (configs ds) l loc)
  unfolding route_patches
  route_patches-Returns [] b h = (some [], refl)
  route_patches-Returns ((k, desc) ∷ l) b h =
      Returns-bind (route_patch fw (configs ds) k desc loc) _ (route_patch-Returns k desc b h.0)
        (λ found _. Returns-case found none _ (λ p.
          Returns-bind (route_patches fw (configs ds) l loc) _ (route_patches-Returns l b h.1)
            (λ ps _. (_, refl))))

  pub generate_local_rate_limit_per_filter_patch-Returns :
      (go : Runtime)
      → All HasBucket ds
      → Returns (generate_local_rate_limit_per_filter_patch fw go ds loc)
  unfolding generate_local_rate_limit_per_filter_patch
  generate_local_rate_limit_per_filter_patch-Returns go b =
      rw (file_descriptors-push_all (record { descriptors = []; configs = [] }) ds) (
        Returns-bind
          (route_patches fw (configs ds) (go.range _ (push_all [] (descriptor_entries ds))) loc) _
          (route_patches-Returns _ b (visited_slices (descriptor_entries ds) go))
          (λ ps _. (_, refl)))
