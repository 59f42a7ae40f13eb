-- ===== src/Envoy.antt =====
-- The messages of Envoy and Istio that the controllers fill in, with the fields that they set.
-- These types belong to the libraries; nothing is proved of them.
use limiter.Prelude.{ℕ, Bool, List, Option}
use limiter.Text.{Text}
use limiter.GoMap.{GoMap}
use limiter.Api.{Duration}

-- `structpb.Value` and `Struct`. The kinds that only a converted message holds (numbers, booleans,
-- lists) are kept as a printed text.
mutual
  pub data Value : Type 0 where
    string_value : Text → Value
    struct_value : Fields → Value
    other_value : Text → Value

  pub data Fields : Type 0 where
    no_fields : Fields
    field : Text → Value → Fields → Fields

-- config/route/v3
pub data HeaderMatchSpecifier : Type 0 where
  safe_regex_match : Text → HeaderMatchSpecifier
  exact_match : Text → HeaderMatchSpecifier
  prefix_match : Text → HeaderMatchSpecifier
  suffix_match : Text → HeaderMatchSpecifier
  present_match : Bool → HeaderMatchSpecifier

pub record RouteHeaderMatcher : Type 0 where
  pub name : Text
  pub invert_match : Bool
  pub header_match_specifier : HeaderMatchSpecifier

pub data RateLimitAction : Type 0 where
  generic_key : Text → RateLimitAction
  header_value_match : Text → List RouteHeaderMatcher → RateLimitAction

pub record RouteRateLimit : Type 0 where
  pub actions : List (Option RateLimitAction)

-- extensions/common/ratelimit/v3
pub record Entry : Type 0 where
  pub key : Text
  pub value : Text

pub record TokenBucket : Type 0 where
  pub max_tokens : ℕ
  pub fill_interval : Duration
  pub tokens_per_fill : ℕ

pub record LocalRateLimitDescriptor : Type 0 where
  pub entries : List Entry
  pub token_bucket : TokenBucket

-- A `RuntimeFractionalPercent` in hundredths.
pub record FractionalPercent : Type 0 where
  pub runtime_key : Text
  pub numerator : ℕ

pub record LocalRateLimit : Type 0 where
  pub stat_prefix : Text
  pub token_bucket : Option TokenBucket
  pub descriptors : List LocalRateLimitDescriptor
  pub filter_enabled : Option FractionalPercent
  pub filter_enforced : Option FractionalPercent

-- The messages that are converted into a `Struct`.
pub data Message : Type 0 where
  route : List RouteRateLimit → Message
  local_rate_limit : LocalRateLimit → Message
  rate_limit_service_config : Text → Message

-- networking/v1alpha3
pub data ApplyTo : Type 0 where
  http_route http_filter : ApplyTo

pub data PatchContext : Type 0 where
  sidecar_inbound sidecar_outbound : PatchContext

pub data Operation : Type 0 where
  merge insert_before : Operation

pub data ObjectTypes : Type 0 where
  -- the names of the virtual host and of the route
  route_configuration : Text → Text → ObjectTypes
  -- the names of the filter and of the filter below it
  listener : Text → Text → ObjectTypes

pub record ConfigObjectMatch : Type 0 where
  pub context : PatchContext
  pub object_types : ObjectTypes

pub record Patch : Type 0 where
  pub operation : Operation
  pub value : Fields

pub record ConfigObjectPatch : Type 0 where
  pub apply_to : ApplyTo
  pub match : Option ConfigObjectMatch
  pub patch : Patch

-- A nil patch can stand in the list.
pub record EnvoyFilter : Type 0 where
  pub labels : GoMap Text
  pub config_patches : List (Option ConfigObjectPatch)
