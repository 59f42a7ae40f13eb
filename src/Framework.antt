-- ===== src/Framework.antt =====
-- What the controllers take from the slime framework and from the protobuf library: constants and
-- functions whose text is not in this repository. They are a parameter of every definition that
-- uses them.
use limiter.Prelude.{ℤ, Bool, Option}
use limiter.Text.{Text}
use limiter.GoMap.{GoMap}
use limiter.Api.{SmartLimitDescriptor, NamespacedName}
use limiter.Envoy.{Message, Fields}

-- slime.io/slime/framework/util
pub record Framework : Type 0 where
  pub local_rate_limit_stat_prefix : Text
  pub local_rate_limit_enabled : Text
  pub local_rate_limit_enforced : Text
  pub http_filter_name : Text
  pub http_filter_typed_config : Text
  pub any_at_type : Text
  pub any_typed_url : Text
  pub any_value : Text
  pub envoy_local_rate_limit : Text
  pub envoy_http_connection_manager : Text
  pub envoy_route : Text
  pub type_url_udpa_typed_struct : Text
  pub type_url_envoy_local_rate_limit : Text
  -- `Wellkonw_BaseSet`
  pub base_set : Text
  -- `MessageToStruct`, with `none` for an error
  pub message_to_struct : Message → Option Fields
  -- `CalculateTemplateBool` and `CalculateTemplate` at the metrics, with `none` for an error
  pub calculate_template_bool : Text → Option (GoMap Text) → Option Bool
  pub calculate_template : Text → Option (GoMap Text) → Option ℤ
  pub unity_host : Text → Text → Text
  pub copy_map : Option (GoMap Text) → GoMap Text
  -- `String` of a descriptor and of a `types.NamespacedName`
  pub descriptor_string : SmartLimitDescriptor → Text
  pub loc_string : NamespacedName → Text
