-- ===== src/RoutePatch.antt =====
-- controllers/envoy_local_limit.go, `generateHttpRouterPatch`: one patch for each limited route,
-- with the actions of all descriptors whose target names it.
pub mod Groups
pub mod Patches
pub mod Panics
use mathlib.Core.Option
use limiter.Prelude.{
  List, [], ◌∷◌, ◌++◌, Bool, Option, none, some, if◌then◌else◌, map, Go, ret, panic, ◌>>=◌, first,
}
use limiter.Text.{Text, ◌==◌}
use limiter.GoMap.{GoMap, push, Runtime}
use limiter.Api.{SmartLimitDescriptor, NamespacedName}
use limiter.Model
use limiter.Envoy.{RateLimitAction, RouteRateLimit, ConfigObjectMatch, ConfigObjectPatch}
use limiter.Envoy
use limiter.Framework.{Framework}
use limiter.Route.{RouteConfig, gen_vhost_route_name, generate_route_configs}
use limiter.Action.{generate_route_rate_limit_action}

unfoldable pub generate_envoy_vhost_match : RouteConfig → ConfigObjectMatch
generate_envoy_vhost_match rc = record {
  context =
      if rc.direction == Model.outbound then Envoy.sidecar_outbound else Envoy.sidecar_inbound;
  object_types = Envoy.route_configuration rc.vhost_name rc.route_name;
}

-- The loop `for _, rc := range rcs` of the first pass.
add_configs :
    GoMap (List RouteConfig) → RateLimitAction → List RouteConfig → GoMap (List RouteConfig)
add_configs groups action [] = groups
add_configs groups action (rc ∷ rcs) =
    let filled : RouteConfig = record rc { action = some action } in
    add_configs (push groups (gen_vhost_route_name filled) filled) action rcs

rate_limits : List RouteConfig → List RouteRateLimit
rate_limits = map λ rc. record { actions = rc.action ∷ [] }

module _ (fw : Framework) where
  add_descriptor :
      GoMap (List RouteConfig)
      → SmartLimitDescriptor
      → NamespacedName
      → Go (GoMap (List RouteConfig))
  unfolding add_configs
  add_descriptor groups d loc = do
    made ← generate_route_rate_limit_action fw d loc
    elim made [
      | none ↦ ret groups
      | some action ↦ ret (add_configs groups action (generate_route_configs d.target))
    ]

  -- The first pass, into `route2RouteConfig`.
  pub group_configs :
      GoMap (List RouteConfig)
      → List SmartLimitDescriptor
      → NamespacedName
      → Go (GoMap (List RouteConfig))
  group_configs groups [] loc = ret groups
  group_configs groups (d ∷ ds) loc =
      add_descriptor groups d loc >>= λ filed. group_configs filed ds loc

  -- The body of the second pass; `none` is an error of the conversion.
  patch_of_group : List RouteConfig → Go (Option ConfigObjectPatch)
  unfolding rate_limits
  patch_of_group rcs = elim (fw.message_to_struct (Envoy.route (rate_limits rcs))) [
    | none ↦ ret none
    | some struct ↦ do
      rc ← first rcs
      ret (
          some (record {
            apply_to = Envoy.http_route;
            match = some (generate_envoy_vhost_match rc);
            patch = record { operation = Envoy.merge; value = struct };
          }))
  ]

  patches_of_groups : List (Text × List RouteConfig) → Go (Option (List ConfigObjectPatch))
  patches_of_groups [] = ret (some [])
  patches_of_groups ((_, rcs) ∷ groups) =
      let rest = patches_of_groups groups in
      do
        found ← patch_of_group rcs
        elim found [ none ↦ ret none | some p ↦ (do ps ← rest; ret (Option.map (λ l. p ∷ l) ps)) ]

  pub generate_http_router_patch :
      Runtime → List SmartLimitDescriptor → NamespacedName → Go (Option (List ConfigObjectPatch))
  generate_http_router_patch go descriptors loc = do
    groups ← group_configs [] descriptors loc
    patches_of_groups (go.range (List RouteConfig) groups)
