-- ===== src/LocalLimit/Filing.antt =====
-- What the first loop over the descriptors files under the name of each route.
use limiter.Prelude.{List, [], ◌∷◌, ◌++◌, ◌≡◌, refl, ◌∙◌, All, inl, inr, Bool-cases, Go, ret, panic}
use limiter.Text.{Text, ◌==◌, eq_iff}
use limiter.GoMap.{GoMap, push}
use limiter.GoMap.Groups.{push_all, push_all-append, values_on}
use limiter.Api.{SmartLimitDescriptor, NamespacedName}
use limiter.Envoy.{TokenBucket, LocalRateLimitDescriptor}
use limiter.Framework.{Framework}
use limiter.Route.{RouteConfig, gen_vhost_route_name, generate_route_configs}
use limiter.Action.{generate_local_rate_limit_descriptor_entries}
use limiter.LocalLimit.{
  Routes, file_routes, file_descriptors, generate_local_rate_limit_descriptors,
  generate_token_bucket,
}

-- A descriptor and a configuration under each route that the descriptor names.
abbrev pub named_descriptors :
    SmartLimitDescriptor → List RouteConfig → List (Text × SmartLimitDescriptor)
named_descriptors d [] = []
named_descriptors d (rc ∷ rcs) = (gen_vhost_route_name rc, d) ∷ named_descriptors d rcs

abbrev pub named_configs : List RouteConfig → List (Text × RouteConfig)
named_configs [] = []
named_configs (rc ∷ rcs) = (gen_vhost_route_name rc, rc) ∷ named_configs rcs

abbrev pub descriptor_entries : List SmartLimitDescriptor → List (Text × SmartLimitDescriptor)
descriptor_entries [] = []
descriptor_entries (d ∷ ds) =
    named_descriptors d (generate_route_configs d.target) ++ descriptor_entries ds

abbrev pub config_entries : List SmartLimitDescriptor → List (Text × RouteConfig)
config_entries [] = []
config_entries (d ∷ ds) = named_configs (generate_route_configs d.target) ++ config_entries ds

abbrev pub HasBucket : SmartLimitDescriptor → Type 0
HasBucket d = (b : TokenBucket) × (generate_token_bucket d ≡ ret b)

-- A route that a descriptor names has a configuration, which bears its name.
abbrev pub Paired : Text → List SmartLimitDescriptor → List RouteConfig → Type 0
Paired k [] rcs = Unit
Paired k (d ∷ ds) rcs = (rc : RouteConfig) × (rest : List RouteConfig) × (rcs ≡ rc ∷ rest)

config-IsNamed :
    (k : Text) (es : List RouteConfig) (fs : List (Text × RouteConfig))
    → All (λ rc. gen_vhost_route_name rc ≡ k) (values_on k fs)
    → All (λ rc. gen_vhost_route_name rc ≡ k) (values_on k (named_configs es ++ fs))
config-IsNamed k [] fs h = h
config-IsNamed k (rc ∷ es) fs h = elim (Bool-cases (gen_vhost_route_name rc == k)) [
  | inl same ↦ rw same ((eq_iff (gen_vhost_route_name rc) k).0 same, config-IsNamed k es fs h)
  | inr other ↦ rw other (config-IsNamed k es fs h)
]

pub configs-IsNamed :
    (k : Text) (ds : List SmartLimitDescriptor)
    → All (λ rc. gen_vhost_route_name rc ≡ k) (values_on k (config_entries ds))
configs-IsNamed k [] = tt
configs-IsNamed k (d ∷ ds) =
    config-IsNamed k (generate_route_configs d.target) (config_entries ds) (configs-IsNamed k ds)

both_filed :
    (k : Text) (d : SmartLimitDescriptor) (rcs : List RouteConfig)
    (es : List (Text × SmartLimitDescriptor)) (fs : List (Text × RouteConfig))
    → Paired k (values_on k es) (values_on k fs)
    → Paired k (values_on k (named_descriptors d rcs ++ es)) (values_on k (named_configs rcs ++ fs))
both_filed k d [] es fs h = h
both_filed k d (rc ∷ rcs) es fs h = elim (Bool-cases (gen_vhost_route_name rc == k)) [
  | inl same ↦ rw same (rc, values_on k (named_configs rcs ++ fs), refl)
  | inr other ↦ rw other (both_filed k d rcs es fs h)
]

pub paired :
    (k : Text) (ds : List SmartLimitDescriptor)
    → Paired k (values_on k (descriptor_entries ds)) (values_on k (config_entries ds))
paired k [] = tt
paired k (d ∷ ds) =
    both_filed k d (generate_route_configs d.target) (descriptor_entries ds) (config_entries ds)
      (paired k ds)

buckets_on :
    (k : Text) (d : SmartLimitDescriptor) (rcs : List RouteConfig)
    (es : List (Text × SmartLimitDescriptor))
    → HasBucket d
    → All HasBucket (values_on k es)
    → All HasBucket (values_on k (named_descriptors d rcs ++ es))
buckets_on k d [] es b h = h
buckets_on k d (rc ∷ rcs) es b h = elim (Bool-cases (gen_vhost_route_name rc == k)) [
  | inl same ↦ rw same (b, buckets_on k d rcs es b h)
  | inr other ↦ rw other (buckets_on k d rcs es b h)
]

pub all_buckets_on :
    (k : Text) (ds : List SmartLimitDescriptor)
    → All HasBucket ds
    → All HasBucket (values_on k (descriptor_entries ds))
all_buckets_on k [] h = tt
all_buckets_on k (d ∷ ds) h =
    buckets_on k d (generate_route_configs d.target) (descriptor_entries ds) h.0
      (all_buckets_on k ds h.1)

module _ (fw : Framework) (loc : NamespacedName) where
  -- The limit of one descriptor, if it has a bucket.
  limit_of : SmartLimitDescriptor → Go TokenBucket → List LocalRateLimitDescriptor
  limit_of d panic = []
  limit_of d (ret bucket) =
      record {
        entries = generate_local_rate_limit_descriptor_entries fw d loc;
        token_bucket = bucket;
      }
      ∷ []

  -- A limit for each descriptor, in order.
  unfoldable pub limits_of : List SmartLimitDescriptor → List LocalRateLimitDescriptor
  unfolding limit_of
  limits_of [] = []
  limits_of (d ∷ desc) = limit_of d (generate_token_bucket d) ++ limits_of desc

  pub buckets-limits :
      (desc : List SmartLimitDescriptor)
      → All HasBucket desc
      → generate_local_rate_limit_descriptors fw desc loc ≡ ret (limits_of desc)
  unfolding generate_local_rate_limit_descriptors limits_of limit_of
  buckets-limits [] h = refl
  buckets-limits (d ∷ desc) h = rw (h.0.1, buckets-limits desc h.1) refl

abbrev pub configs : List SmartLimitDescriptor → GoMap (List RouteConfig)
configs ds = push_all [] (config_entries ds)

file_routes-push_all :
    (routes : Routes) (d : SmartLimitDescriptor) (rcs : List RouteConfig)
    → file_routes routes d rcs ≡ record {
      descriptors = push_all routes.descriptors (named_descriptors d rcs);
      configs = push_all routes.configs (named_configs rcs);
    }
unfolding file_routes
file_routes-push_all routes d [] = refl
file_routes-push_all routes d (rc ∷ rcs) =
    file_routes-push_all
      (record {
        descriptors = push routes.descriptors (gen_vhost_route_name rc) d;
        configs = push routes.configs (gen_vhost_route_name rc) rc;
      })
      d rcs

pub file_descriptors-push_all :
    (routes : Routes) (ds : List SmartLimitDescriptor)
    → file_descriptors routes ds ≡ record {
      descriptors = push_all routes.descriptors (descriptor_entries ds);
      configs = push_all routes.configs (config_entries ds);
    }
unfolding file_descriptors
file_descriptors-push_all routes [] = refl
file_descriptors-push_all routes (d ∷ ds) =
    file_descriptors-push_all (file_routes routes d (generate_route_configs d.target)) ds
    ∙ rw (file_routes-push_all routes d (generate_route_configs d.target)) (
        rw (
          push_all-append routes.descriptors (named_descriptors d (generate_route_configs d.target))
              (descriptor_entries ds),
          push_all-append routes.configs (named_configs (generate_route_configs d.target))
              (config_entries ds),
        ))
