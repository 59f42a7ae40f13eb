-- ===== src/Action.antt =====
-- controllers/envoy_local_limit.go: the rate limit action of a route, and the descriptor value by
-- which the route, the local filter and the rate limit server know a descriptor.
pub mod Agreement
use limiter.Prelude.{
  List, [], ◌∷◌, ◌++◌, Bool, true, false, not, ◌&&◌, Option, none, some, if◌then◌else◌, is_empty,
  Go, ret, ◌>>=◌, deref,
}
use limiter.Text.{Text, text}
use limiter.Text.Decimal.{format_nat}
use limiter.Text.Checksum.{checksum}
use limiter.Api.{elements, HeaderMatcher, SmartLimitDescriptor, NamespacedName}
use limiter.Model
use limiter.Envoy.{HeaderMatchSpecifier, RouteHeaderMatcher, RateLimitAction, Entry}
use limiter.Envoy
use limiter.Framework.{Framework}

-- `t != ""`
abbrev pub is_set : Text → Bool
is_set t = not (is_empty t)

generate_safe_regex_match : HeaderMatcher → HeaderMatchSpecifier
generate_safe_regex_match m = Envoy.safe_regex_match m.regex_match

generate_prefix_match : HeaderMatcher → HeaderMatchSpecifier
generate_prefix_match m = Envoy.prefix_match m.prefix_match

generate_suffix_match : HeaderMatcher → HeaderMatchSpecifier
generate_suffix_match m = Envoy.suffix_match m.suffix_match

generate_exact_match : HeaderMatcher → HeaderMatchSpecifier
generate_exact_match m = Envoy.exact_match m.exact_match

generate_present_match : HeaderMatcher → HeaderMatchSpecifier
generate_present_match m = Envoy.present_match m.present_match

generate_invert_match : HeaderMatcher → Bool
generate_invert_match m = m.invert_match

-- The `switch` over the fields of a match: the first that is set wins.
header_match_specifier : HeaderMatcher → HeaderMatchSpecifier
unfolding generate_safe_regex_match generate_prefix_match generate_suffix_match generate_exact_match
    generate_present_match
header_match_specifier m =
    if is_set m.regex_match
    then generate_safe_regex_match m
    else if is_set m.exact_match
    then generate_exact_match m
    else if is_set m.prefix_match
    then generate_prefix_match m
    else if is_set m.suffix_match
    then generate_suffix_match m
    else if m.is_exact_match_empty
    then generate_exact_match m
    else generate_present_match m

-- The body of the loop over `descriptor.Match`, once the matcher is read.
pub route_header : HeaderMatcher → RouteHeaderMatcher
unfolding header_match_specifier generate_invert_match
route_header m = record {
  name = m.name;
  invert_match = generate_invert_match m;
  header_match_specifier = header_match_specifier m;
}

-- The loop: a nil matcher is a nil pointer read.
route_headers : List (Option HeaderMatcher) → Go (List RouteHeaderMatcher)
unfolding route_header
route_headers [] = ret []
route_headers (m ∷ ms) =
    let rest = route_headers ms in
    do match_of ← deref m; headers ← rest; ret (route_header match_of ∷ headers)

-- `descriptor.CustomKey != "" && descriptor.CustomValue != ""`
abbrev pub is_custom : SmartLimitDescriptor → Bool
is_custom d = is_set d.custom_key && is_set d.custom_value

module _ (fw : Framework) where
  pub generate_descriptor_value : SmartLimitDescriptor → NamespacedName → Text
  generate_descriptor_value item loc =
      let id = checksum (fw.descriptor_string item ++ fw.loc_string loc) in
      text "Service["
      ++ (loc.name
          ++ (text "."
              ++ (loc.namespace ++ (text "]-User[none]-Id[" ++ (format_nat id ++ text "]")))))

  -- `none` if the user brings an Envoy plugin of their own.
  pub generate_route_rate_limit_action :
      SmartLimitDescriptor → NamespacedName → Go (Option RateLimitAction)
  unfolding route_headers
  generate_route_rate_limit_action d loc =
      if is_custom d
      then ret none
      else if is_empty (elements d.match)
      then ret (some (Envoy.generic_key (generate_descriptor_value d loc)))
      else (do
        headers ← route_headers (elements d.match)
        ret (some (Envoy.header_value_match (generate_descriptor_value d loc) headers)))

  pub generate_local_rate_limit_descriptor_entries :
      SmartLimitDescriptor → NamespacedName → List Entry
  generate_local_rate_limit_descriptor_entries item loc =
      if is_custom item
      then record { key = item.custom_key; value = item.custom_value } ∷ []
      else if is_empty (elements item.match)
      then record { key = Model.generic_key; value = generate_descriptor_value item loc } ∷ []
      else record { key = Model.header_value_match; value = generate_descriptor_value item loc }
        ∷ []
