-- ===== src/GlobalLimit.antt =====
-- controllers/envoy_global_limit.go: the rate limit filter and the descriptors of the rate limit
-- server.
pub mod Made
pub mod Quota
pub mod Named
use limiter.Prelude.{
  ℕ, ℤ, pos, negsuc, List, [], ◌∷◌, ◌++◌, Bool, true, false, Option, none, some, if◌then◌else◌,
  is_empty, to_u32, eqb, Go, ret, panic, ◌>>=◌, deref,
}
use limiter.Text.{Text, text}
use limiter.Text.Decimal.{atoi, NumError}
use limiter.Api.{elements, SmartLimitDescriptor, Action, NamespacedName}
use limiter.Model
use limiter.Model.{Descriptor}
use limiter.Envoy.{
  Fields, field, no_fields, string_value, struct_value, ConfigObjectMatch, ConfigObjectPatch, Patch,
  Message,
}
use limiter.Envoy
use limiter.Framework.{Framework}
use limiter.Action.{generate_descriptor_value}

-- The error of `calculateQuotaPerUnit`.
pub data QuotaError : Type 0 where
  bad_quota : NumError → QuotaError
  invalid_time : QuotaError

generate_rate_limit_service : Text → Message
generate_rate_limit_service cluster_name = Envoy.rate_limit_service_config cluster_name

generate_envoy_http_filter_rate_limit_service_patch : Framework → Fields → Patch
generate_envoy_http_filter_rate_limit_service_patch fw rs = record {
  operation = Envoy.insert_before;
  value = field fw.http_filter_name (string_value Model.envoy_filters_http_rate_limit) (
      field fw.http_filter_typed_config
        (struct_value (
          field fw.any_at_type (string_value fw.type_url_udpa_typed_struct) (
            field fw.any_typed_url (string_value Model.type_url_envoy_rate_limit) (
              field fw.any_value
                (struct_value (
                  field Model.struct_domain (string_value Model.domain)
                    (field Model.struct_rate_limit_service (struct_value rs) no_fields)))
                no_fields))))
        no_fields);
}

generate_envoy_http_filter_match : Framework → ConfigObjectMatch
generate_envoy_http_filter_match fw = record {
  context = Envoy.sidecar_inbound;
  object_types = Envoy.listener fw.envoy_http_connection_manager fw.envoy_route;
}

http_filter_global_patch : Framework → Fields → ConfigObjectPatch
unfolding generate_envoy_http_filter_match generate_envoy_http_filter_rate_limit_service_patch
http_filter_global_patch fw rs = record {
  apply_to = Envoy.http_filter;
  match = some (generate_envoy_http_filter_match fw);
  patch = generate_envoy_http_filter_rate_limit_service_patch fw rs;
}

pub generate_envoy_http_filter_global_rate_limit_patch : Framework → Text → Option ConfigObjectPatch
unfolding generate_rate_limit_service http_filter_global_patch
generate_envoy_http_filter_global_rate_limit_patch fw server =
    elim (fw.message_to_struct (generate_rate_limit_service server)) [
      | none ↦ none
      | some rs ↦ some (http_filter_global_patch fw rs)
    ]

pub get_rate_limiter_server_cluster : Text → Text
get_rate_limiter_server_cluster server =
    if is_empty server then Model.rate_limit_service else server

is_seconds : ℤ → ℕ → Bool
is_seconds (pos n) k = eqb n k
is_seconds (negsuc n) k = false

-- The `switch` over the interval.
unit_of_seconds : ℤ → Option Text
unfolding is_seconds
unit_of_seconds seconds =
    if is_seconds seconds 86400
    then some (text "DAY")
    else if is_seconds seconds 3600
    then some (text "HOUR")
    else if is_seconds seconds 60
    then some (text "MINUTE")
    else if is_seconds seconds 1
    then some (text "SECOND")
    else none

-- The interval is read only if the quota is a number.
quota_of_action : Action → ℤ × Option NumError → Go (ℤ × Text × Option QuotaError)
unfolding unit_of_seconds
quota_of_action action (quota, some e) = ret (quota, [], some (bad_quota e))
quota_of_action action (quota, none) = do
  interval ← deref action.fill_interval
  elim (unit_of_seconds interval.seconds) [
    | some unit ↦ ret (quota, unit, none)
    | none ↦ ret (quota, [], some invalid_time)
  ]

unfoldable pub calculate_quota_per_unit : SmartLimitDescriptor → Go (ℤ × Text × Option QuotaError)
unfolding quota_of_action
calculate_quota_per_unit descriptor = do
  action ← deref descriptor.action
  quota_of_action action (atoi action.quota)

module _ (fw : Framework) where
  global_item : SmartLimitDescriptor → NamespacedName → ℤ → Text → Descriptor
  global_item d loc quota unit = record {
    key = if is_empty (elements d.match) then Model.generic_key else Model.header_value_match;
    value = generate_descriptor_value fw d loc;
    rate_limit = some (record { requests_per_unit = to_u32 quota; unit = unit });
  }

  -- One round of the loop, before the rounds that follow: an error ends the loop.
  add_item :
      SmartLimitDescriptor
      → NamespacedName
      → Go (ℤ × Text × Option QuotaError)
      → Go (List Descriptor)
      → Go (List Descriptor)
  unfolding global_item
  add_item d loc panic rest = panic
  add_item d loc (ret (quota, unit, some e)) rest = ret []
  add_item d loc (ret (quota, unit, none)) rest = do
    items ← rest
    ret (global_item d loc quota unit ∷ items)

  pub generate_global_rate_limit_descriptor :
      List SmartLimitDescriptor → NamespacedName → Go (List Descriptor)
  unfolding add_item
  generate_global_rate_limit_descriptor [] loc = ret []
  generate_global_rate_limit_descriptor (d ∷ ds) loc =
      let rest = generate_global_rate_limit_descriptor ds loc in
      add_item d loc (calculate_quota_per_unit d) rest

pub get_config_map_namespace_name : NamespacedName
get_config_map_namespace_name = record {
  name = Model.config_map_name;
  namespace = Model.config_map_namespace;
}
