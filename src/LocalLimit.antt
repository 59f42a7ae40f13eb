-- ===== src/LocalLimit.antt =====
-- controllers/envoy_local_limit.go: the token buckets and the patches of the local rate limit filter.
pub mod Buckets
pub mod Made
pub mod Filing
pub mod PerRoute
pub mod Panics
use mathlib.Core.Option
use limiter.Prelude.{
  ℤ, pos, List, [], ◌∷◌, ◌++◌, Bool, Option, none, some, if◌then◌else◌, map, is_empty, to_u32, Go,
  ret, panic, ◌>>=◌, deref, first,
}
use limiter.Text.{Text, ◌==◌}
use limiter.Text.Decimal.{atoi}
use limiter.GoMap.{GoMap, push, slice_at, Runtime}
use limiter.Api.{SmartLimitDescriptor, NamespacedName, Duration}
use limiter.Model
use limiter.Envoy.{
  Fields, field, no_fields, string_value, struct_value, TokenBucket, FractionalPercent,
  LocalRateLimit, LocalRateLimitDescriptor, ConfigObjectPatch, Patch,
}
use limiter.Envoy
use limiter.Framework.{Framework}
use limiter.Route.{RouteConfig, gen_vhost_route_name, generate_route_configs}
use limiter.RoutePatch.{generate_envoy_vhost_match}
use limiter.Action.{generate_local_rate_limit_descriptor_entries}

-- The error of `Atoi` is dropped; a descriptor without action or interval is a nil pointer read.
pub generate_token_bucket : SmartLimitDescriptor → Go TokenBucket
generate_token_bucket item = do
  action ← deref item.action
  let i = (atoi action.quota).0
  interval ← deref action.fill_interval
  ret (record {
    max_tokens = to_u32 i;
    fill_interval = record { seconds = interval.seconds; nanos = interval.nanos };
    tokens_per_fill = to_u32 i;
  })

pub generate_custom_token_bucket : ℤ → ℤ → ℤ → TokenBucket
generate_custom_token_bucket max_tokens tokens_per_fill second = record {
  max_tokens = to_u32 max_tokens;
  fill_interval = record { seconds = second; nanos = pos 0 };
  tokens_per_fill = to_u32 tokens_per_fill;
}

module _ (fw : Framework) where
  generate_envoy_local_rate_limit_enabled : FractionalPercent
  generate_envoy_local_rate_limit_enabled = record {
    runtime_key = fw.local_rate_limit_enabled;
    numerator = 100;
  }

  generate_envoy_local_rate_limit_enforced : FractionalPercent
  generate_envoy_local_rate_limit_enforced = record {
    runtime_key = fw.local_rate_limit_enforced;
    numerator = 100;
  }

  -- The typed struct around a converted message.
  local_typed_struct : Fields → Fields
  local_typed_struct local = field fw.any_at_type (string_value fw.type_url_udpa_typed_struct) (
      field fw.any_typed_url (string_value fw.type_url_envoy_local_rate_limit)
        (field fw.any_value (struct_value local) no_fields))

  http_filter_local_patch : Fields → ConfigObjectPatch
  unfolding local_typed_struct
  http_filter_local_patch local = record {
    apply_to = Envoy.http_filter;
    match = none;
    patch = record {
      operation = Envoy.insert_before;
      value =
          field fw.http_filter_name (string_value fw.envoy_local_rate_limit)
            (field fw.http_filter_typed_config (struct_value (local_typed_struct local)) no_fields);
    };
  }

  -- The limit of the filter itself, which limits nothing.
  listener_limit : LocalRateLimit
  listener_limit = record {
    stat_prefix = fw.local_rate_limit_stat_prefix;
    token_bucket = none;
    descriptors = [];
    filter_enabled = none;
    filter_enforced = none;
  }

  pub generate_http_filter_local_rate_limit_patch : Option ConfigObjectPatch
  unfolding http_filter_local_patch listener_limit
  generate_http_filter_local_rate_limit_patch =
      elim (fw.message_to_struct (Envoy.local_rate_limit listener_limit)) [
        | none ↦ none
        | some local ↦ some (http_filter_local_patch local)
      ]

  pub generate_per_filter_patch : Fields → Patch
  unfolding local_typed_struct
  generate_per_filter_patch local = record {
    operation = Envoy.merge;
    value =
        field Model.type_per_filter_config
          (struct_value
            (field fw.envoy_local_rate_limit (struct_value (local_typed_struct local)) no_fields))
          no_fields;
  }

  pub generate_local_rate_limit_descriptors :
      List SmartLimitDescriptor → NamespacedName → Go (List LocalRateLimitDescriptor)
  generate_local_rate_limit_descriptors [] loc = ret []
  generate_local_rate_limit_descriptors (item ∷ items) loc =
      let rest = generate_local_rate_limit_descriptors items loc in
      do
        bucket ← generate_token_bucket item
        ds ← rest
        ret (
            record {
              entries = generate_local_rate_limit_descriptor_entries fw item loc;
              token_bucket = bucket;
            }
            ∷ ds)

  -- The limit of a route: a wide bucket for all requests, and one for each descriptor.
  pub local_rate_limit_of : List LocalRateLimitDescriptor → LocalRateLimit
  unfolding generate_envoy_local_rate_limit_enabled generate_envoy_local_rate_limit_enforced
  local_rate_limit_of descriptors = record {
    stat_prefix = fw.local_rate_limit_stat_prefix;
    token_bucket = some (generate_custom_token_bucket (pos 100000) (pos 100000) (pos 1));
    descriptors = descriptors;
    filter_enabled = some generate_envoy_local_rate_limit_enabled;
    filter_enforced = some generate_envoy_local_rate_limit_enforced;
  }

-- `route2Descriptors` and `route2RouteConfig`
pub record Routes : Type 0 where
  pub descriptors : GoMap (List SmartLimitDescriptor)
  pub configs : GoMap (List RouteConfig)

file_routes : Routes → SmartLimitDescriptor → List RouteConfig → Routes
file_routes routes d [] = routes
file_routes routes d (rc ∷ rcs) =
    let name = gen_vhost_route_name rc in
    file_routes
      (record {
        descriptors = push routes.descriptors name d;
        configs = push routes.configs name rc;
      })
      d rcs

pub file_descriptors : Routes → List SmartLimitDescriptor → Routes
unfolding file_routes
file_descriptors routes [] = routes
file_descriptors routes (d ∷ ds) =
    file_descriptors (file_routes routes d (generate_route_configs d.target)) ds

module _ (fw : Framework) where
  -- The body of the second loop; `none` is a return of nil.
  route_patch :
      GoMap (List RouteConfig)
      → Text
      → List SmartLimitDescriptor
      → NamespacedName
      → Go (Option ConfigObjectPatch)
  route_patch configs vr desc loc = do
    limits ← generate_local_rate_limit_descriptors fw desc loc
    elim (fw.message_to_struct (Envoy.local_rate_limit (local_rate_limit_of fw limits))) [
      | none ↦ ret none
      | some local ↦ if is_empty desc then ret none else (do
        rc ← first (slice_at configs vr)
        ret (
            some (record {
              apply_to = Envoy.http_route;
              match = some (generate_envoy_vhost_match rc);
              patch = generate_per_filter_patch fw local;
            })))
    ]

  route_patches :
      GoMap (List RouteConfig)
      → List (Text × List SmartLimitDescriptor)
      → NamespacedName
      → Go (Option (List ConfigObjectPatch))
  route_patches configs [] loc = ret (some [])
  route_patches configs ((vr, desc) ∷ entries) loc =
      let rest = route_patches configs entries loc in
      do
        found ← route_patch configs vr desc loc
        elim found [ none ↦ ret none | some p ↦ (do ps ← rest; ret (Option.map (λ l. p ∷ l) ps)) ]

  pub generate_local_rate_limit_per_filter_patch :
      Runtime → List SmartLimitDescriptor → NamespacedName → Go (List ConfigObjectPatch)
  generate_local_rate_limit_per_filter_patch go descriptors loc =
      let routes = file_descriptors (record { descriptors = []; configs = [] }) descriptors in
      do
        patches ← route_patches routes.configs (go.range _ routes.descriptors) loc
        ret (elim patches [ none ↦ [] | some ps ↦ ps ])
