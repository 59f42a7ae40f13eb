-- ===== src/Examples.antt =====
-- Concrete inputs for the theorems: a framework whose templates are numbers, a service `reviews` and
-- descriptors of the kinds that its documentation shows.
pub mod Limits
pub mod Filters
pub mod Yaml
pub mod Store
pub mod Refreshes
pub mod Complete
pub mod Reconciles
pub mod Producers
pub mod Members
pub mod Running
pub mod Copying
use limiter.Prelude.{ℤ, pos, negsuc, List, [], ◌∷◌, ◌++◌, true, false, Option, none, some}
use limiter.Text.{Text, text}
use limiter.Text.Decimal.{atoi}
use limiter.GoMap.{GoMap}
use limiter.Api.{
  SmartLimitDescriptor, SmartLimitDescriptors, SmartLimiterSpec, Action, Target, Duration,
  HeaderMatcher, NamespacedName, Fetched, found,
}
use limiter.Envoy.{Message, Fields, no_fields}
use limiter.Framework.{Framework}
use limiter.Filters.{Cluster, Subset}

abbrev pub encode : Message → Fields
encode m = no_fields

-- Every condition is true, and a quota is read as a number.
abbrev pub framework : Framework
framework = record {
  local_rate_limit_stat_prefix = text "http_local_rate_limiter";
  local_rate_limit_enabled = text "local_rate_limit_enabled";
  local_rate_limit_enforced = text "local_rate_limit_enforced";
  http_filter_name = text "name";
  http_filter_typed_config = text "typed_config";
  any_at_type = text "@type";
  any_typed_url = text "type_url";
  any_value = text "value";
  envoy_local_rate_limit = text "envoy.filters.http.local_ratelimit";
  envoy_http_connection_manager = text "envoy.filters.network.http_connection_manager";
  envoy_route = text "envoy.filters.http.router";
  type_url_udpa_typed_struct = text "udpa";
  type_url_envoy_local_rate_limit = text "local";
  base_set = text "_base";
  message_to_struct = λ m. some no_fields;
  calculate_template_bool = λ condition material. some true;
  calculate_template = λ quota material. some (atoi quota).0;
  unity_host = λ name namespace. name ++ (text "." ++ namespace);
  copy_map = λ m. elim m [ none ↦ [] | some labels ↦ labels ];
  descriptor_string = λ d. d.condition;
  loc_string = λ loc. loc.namespace ++ (text "/" ++ loc.name);
}

abbrev pub reviews : NamespacedName
reviews = record { name = text "reviews"; namespace = text "default" }

abbrev pub minute : Duration
minute = record { seconds = pos 60; nanos = pos 0 }

abbrev pub ten_a_minute : Text → Action
ten_a_minute strategy = record {
  quota = text "10";
  fill_interval = some minute;
  strategy = strategy;
}

abbrev pub outbound_target : Target
outbound_target = record {
  direction = text "outbound";
  port = pos 0;
  route = some (text "a.test.com:80/r1" ∷ text "no-slash" ∷ []);
  host = none;
}

abbrev pub port_target : Target
port_target = record { direction = []; port = pos 9080; route = none; host = none }

abbrev pub single : SmartLimitDescriptor
single = record {
  condition = text "true";
  action = some (ten_a_minute (text "single"));
  match = none;
  target = some port_target;
  custom_key = [];
  custom_value = [];
}

abbrev pub shared : SmartLimitDescriptor
shared = record single {
  action = some (ten_a_minute (text "global"));
  target = some outbound_target;
}

-- Without an interval.
abbrev pub no_interval : SmartLimitDescriptor
no_interval = record single {
  action = some (record { quota = text "10"; fill_interval = none; strategy = text "single" });
}

abbrev pub every_week : SmartLimitDescriptor
every_week = record single {
  action = some (record {
    quota = text "10";
    fill_interval = some (record { seconds = pos 604800; nanos = pos 0 });
    strategy = text "global";
  });
}

abbrev pub spec : SmartLimiterSpec
spec = record {
  sets =
      some
        ((text "_base", some (record { descriptor = some (some single ∷ some shared ∷ []) })) ∷ []);
  rls = [];
}

abbrev pub descriptors : SmartLimitDescriptors
descriptors = record { descriptor = some (some single ∷ some shared ∷ []) }

abbrev pub v1 : Subset
v1 = record { name = text "v1"; labels = (text "version", text "v1") ∷ [] }

abbrev pub cluster : Cluster
cluster = record {
  host_subsets = λ host. some (v1 ∷ []);
  get_service = λ loc. found (some ((text "app", text "reviews") ∷ []));
}
