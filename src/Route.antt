-- ===== src/Route.antt =====
-- controllers/envoy_local_limit.go: from the target of a descriptor to the routes that it limits.
pub mod Names
use limiter.Prelude.{
  ℤ, pos, zero, List, [], ◌∷◌, ◌++◌, Bool, true, false, Option, none, some, if◌then◌else◌, is_empty,
  ◌≡◌, refl, ◌||◌,
}
use limiter.Text.{Text, text, ◌==◌}
use limiter.Text.Split.{split}
use limiter.Text.Decimal.{format_int}
use limiter.Api.{elements, Target}
use limiter.Model
use limiter.Envoy.{RateLimitAction}

-- The action is filled in later.
pub record RouteConfig : Type 0 where
  pub action : Option RateLimitAction
  pub route_name : Text
  pub vhost_name : Text
  pub direction : Text

unfoldable pub gen_vhost_route_name : RouteConfig → Text
gen_vhost_route_name rc = rc.vhost_name ++ (b'/' ∷ rc.route_name)

-- One round of the loop over `target.Route`: a route of another form than vhost/route is skipped.
config_of_parts : Text → List Text → List RouteConfig
config_of_parts direction (vhost_name ∷ route_name ∷ []) =
    record {
      action = none;
      route_name = route_name;
      vhost_name = vhost_name;
      direction = direction;
    }
    ∷ []
config_of_parts direction parts = []

configs_of_routes : Text → List Text → List RouteConfig
unfolding config_of_parts
configs_of_routes direction [] = []
configs_of_routes direction (route ∷ routes) =
    config_of_parts direction (split route b'/') ++ configs_of_routes direction routes

is_zero : ℤ → Bool
is_zero (pos zero) = true
is_zero i = false

default_config : Text → RouteConfig
default_config vhost_name = record {
  action = none;
  route_name = Model.inbound_default_route;
  vhost_name = vhost_name;
  direction = Model.inbound;
}

pub generate_default_inbound_route_configs : Option Target → List RouteConfig
unfolding default_config is_zero
generate_default_inbound_route_configs none = default_config Model.allow_all_port ∷ []
generate_default_inbound_route_configs (some target) =
    if is_zero target.port
    then default_config Model.allow_all_port ∷ []
    else (default_config
          (Model.inbound ++ (text "|" ++ (text "http" ++ (text "|" ++ format_int target.port))))
        ∷ [])

pub generate_route_configs : Option Target → List RouteConfig
unfolding configs_of_routes
generate_route_configs none = generate_default_inbound_route_configs none
generate_route_configs (some target) =
    if is_empty (elements target.route)
    then generate_default_inbound_route_configs (some target)
    else configs_of_routes target.direction (elements target.route)
