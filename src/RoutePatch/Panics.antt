-- ===== src/RoutePatch/Panics.antt =====
-- Panics in `generateHttpRouterPatch`.
use limiter.Prelude.{List, [], ◌∷◌, none, some, refl, All, Returns, Returns-bind, Returns-case}
use mathlib.Core.List.Permᴰ
use limiter.Text.{Text}
use limiter.GoMap.{GoMap, Runtime}
use limiter.GoMap.Range.{All-perm}
use limiter.Api.{SmartLimitDescriptor, NamespacedName}
use limiter.Envoy.{ConfigObjectPatch}
use limiter.Envoy
use limiter.Framework.{Framework}
use limiter.Route.{RouteConfig}
use limiter.Action.Agreement.{HasMatchers}
use limiter.RoutePatch.{rate_limits, patch_of_group, patches_of_groups, generate_http_router_patch}
use limiter.RoutePatch.Groups.{IsNamed, grouped, group_configs-grouped, grouped-AreGroups}

module _ (fw : Framework) where
  patch_of_group-Returns :
      (k : Text) (rcs : List RouteConfig) → IsNamed (k, rcs) → Returns (patch_of_group fw rcs)
  unfolding patch_of_group
  patch_of_group-Returns k [] h = absurd (cc (h.2))
  patch_of_group-Returns k (rc ∷ rest) h =
      Returns-case (fw.message_to_struct (Envoy.route (rate_limits (rc ∷ rest)))) none _
        (λ s. (_, refl))

  patches_of_groups-Returns :
      (groups : GoMap (List RouteConfig))
      → All IsNamed groups
      → Returns (patches_of_groups fw groups)
  unfolding patches_of_groups
  patches_of_groups-Returns [] h = (some [], refl)
  patches_of_groups-Returns ((k, rcs) ∷ groups) h =
      Returns-bind (patch_of_group fw rcs) _ (patch_of_group-Returns k rcs h.0) (λ found _.
        Returns-case found none _ (λ p.
          Returns-bind (patches_of_groups fw groups) _ (patches_of_groups-Returns groups h.1)
            (λ ps _. (_, refl))))

  pub generate_http_router_patch-Returns :
      (go : Runtime) (ds : List SmartLimitDescriptor) (loc : NamespacedName)
      → All HasMatchers ds
      → Returns (generate_http_router_patch fw go ds loc)
  unfolding generate_http_router_patch
  generate_http_router_patch-Returns go ds loc h = rw (group_configs-grouped fw ds loc h) (
      patches_of_groups-Returns (go.range (List RouteConfig) (grouped fw ds loc)) (
        All-perm IsNamed (Permᴰ.symm (go.range_perm (List RouteConfig) (grouped fw ds loc)))
          (grouped-AreGroups fw ds loc).1))
