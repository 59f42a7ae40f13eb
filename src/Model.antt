-- ===== src/Model.antt =====
-- model: the constants of the module and the configuration of the rate limit server.
use limiter.Prelude.{ℕ, List, Option}
use limiter.Text.{Text, text}

abbrev pub config_map_name : Text
config_map_name = text "slime-rate-limit-config"

abbrev pub config_map_namespace : Text
config_map_namespace = text "istio-system"

abbrev pub config_map_config : Text
config_map_config = text "config.yaml"

abbrev pub generic_key : Text
generic_key = text "generic_key"

abbrev pub header_value_match : Text
header_value_match = text "header_match"

abbrev pub domain : Text
domain = text "slime"

abbrev pub inbound : Text
inbound = text "inbound"

abbrev pub outbound : Text
outbound = text "outbound"

-- Empty means match-all.
abbrev pub allow_all_port : Text
allow_all_port = text ""

abbrev pub global_smart_limiter : Text
global_smart_limiter = text "global"

abbrev pub rate_limit_service : Text
rate_limit_service = text "outbound|18081||rate-limit.istio-system.svc.cluster.local"

abbrev pub type_url_envoy_rate_limit : Text
type_url_envoy_rate_limit =
    text "type.googleapis.com/envoy.extensions.filters.http.ratelimit.v3.RateLimit"

abbrev pub struct_domain : Text
struct_domain = text "domain"

abbrev pub struct_rate_limit_service : Text
struct_rate_limit_service = text "rate_limit_service"

abbrev pub type_per_filter_config : Text
type_per_filter_config = text "typed_per_filter_config"

abbrev pub envoy_filters_http_rate_limit : Text
envoy_filters_http_rate_limit = text "envoy.filters.http.ratelimit"

abbrev pub inbound_default_route : Text
inbound_default_route = text "default"

-- `requests_per_unit` is a uint32.
pub record RateLimit : Type 0 where
  pub requests_per_unit : ℕ
  pub unit : Text

pub record Descriptor : Type 0 where
  pub key : Text
  pub value : Text
  pub rate_limit : Option RateLimit

pub record RateLimitConfig : Type 0 where
  pub domain : Text
  pub descriptors : List (Option Descriptor)
