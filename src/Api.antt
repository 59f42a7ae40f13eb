-- ===== src/Api.antt =====
-- api/v1alpha2: the SmartLimiter resource and the module's configuration, as the decoder hands them
-- to the controllers. A pointer that may be nil is an `Option`, also as an entry of a list or a map,
-- and so is a slice, whose nil is not the empty one to `reflect.DeepEqual`.
pub mod Equal
use limiter.Prelude.{ℤ, Bool, List, [], Option, none, some}
use limiter.Text.{Text}
use limiter.GoMap.{GoMap}

-- A slice is nil or has its elements; a loop over it, its length and an `append` do not tell nil from
-- empty.
abbrev pub Slice : Type 0 → Type 0
Slice A = Option (List A)

abbrev pub elements : {A : Type 0} → Slice A → List A
elements none = []
elements (some xs) = xs

-- `seconds` and `nanos` are int64 and int32.
pub record Duration : Type 0 where
  pub seconds : ℤ
  pub nanos : ℤ

pub record HeaderMatcher : Type 0 where
  pub name : Text
  pub regex_match : Text
  pub exact_match : Text
  pub prefix_match : Text
  pub suffix_match : Text
  pub present_match : Bool
  pub invert_match : Bool
  pub is_exact_match_empty : Bool

pub record Action : Type 0 where
  pub quota : Text
  pub fill_interval : Option Duration
  pub strategy : Text

pub record Target : Type 0 where
  pub direction : Text
  pub port : ℤ
  pub route : Slice Text
  pub host : Slice Text

pub record SmartLimitDescriptor : Type 0 where
  pub condition : Text
  pub action : Option Action
  pub match : Slice (Option HeaderMatcher)
  pub target : Option Target
  pub custom_key : Text
  pub custom_value : Text

pub record SmartLimitDescriptors : Type 0 where
  pub descriptor : Slice (Option SmartLimitDescriptor)

-- `sets` is nil when the resource gives none.
pub record SmartLimiterSpec : Type 0 where
  pub sets : Option (GoMap (Option SmartLimitDescriptors))
  pub rls : Text

pub record SmartLimiterStatus : Type 0 where
  pub ratelimit_status : GoMap (Option SmartLimitDescriptors)
  pub metric_status : Option (GoMap Text)

-- `types.NamespacedName`
pub record NamespacedName : Type 0 where
  pub name : Text
  pub namespace : Text

-- The answer of the API server to a read.
pub data ReadError : Type 0 where
  is_not_found other_error : ReadError

pub data Fetched (A : Type 0) : Type 0 where
  found : A → Fetched A
  failed : ReadError → Fetched A
