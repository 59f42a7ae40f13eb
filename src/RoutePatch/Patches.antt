-- ===== src/RoutePatch/Patches.antt =====
-- The second pass of `generateHttpRouterPatch`: the patches of the groups.
use limiter.Prelude.{
  subst, List, [], ◌∷◌, ◌++◌, none, some, if◌then◌else◌, map, keep_if, keep_if-append, ◌≡◌, refl,
  ap, ◌∙◌, sym, arith, append-nil, All, All-append, inl, inr, Bool-cases, ret,
}
use mathlib.Core.List.Permᴰ
use limiter.Text.{Text, ◌==◌, eq_iff}
use limiter.GoMap.{GoMap, get, slice_at, IsDistinct, Runtime}
use limiter.GoMap.Range.{get-perm, All-perm}
use limiter.Api.{SmartLimitDescriptor, NamespacedName}
use limiter.Envoy.{Message, Fields, ConfigObjectPatch}
use limiter.Envoy
use limiter.Framework.{Framework}
use limiter.Route.{RouteConfig, gen_vhost_route_name}
use limiter.Action.Agreement.{HasMatchers}
use limiter.RoutePatch.{
  generate_envoy_vhost_match, patch_of_group, patches_of_groups, generate_http_router_patch,
}
use limiter.RoutePatch.Groups.{
  all_configs, on_route, grouped, group_configs-grouped, slice_at-grouped, IsNamed, AreGroups,
  grouped-AreGroups,
}

slice_at-cons :
    (groups : GoMap (List RouteConfig)) (j k : Text) (rcs : List RouteConfig)
    → slice_at ((j, rcs) ∷ groups) k ≡ (if j == k then rcs else slice_at groups k)
unfolding slice_at get
slice_at-cons groups j k rcs = ground arith

slice_at_of_get :
    (l m : GoMap (List RouteConfig)) (k : Text) → get l k ≡ get m k → slice_at l k ≡ slice_at m k
unfolding slice_at
slice_at_of_get l m k e = ground arith

-- The virtual host and the route that a patch is for, as `genVhostRouteName` writes them.
abbrev pub route_of_patch : ConfigObjectPatch → Text
route_of_patch p = elim p.match [
  | none ↦ []
  | some m ↦ elim m.object_types [
    | Envoy.route_configuration vhost_name route_name ↦ vhost_name ++ (b'/' ∷ route_name)
    | Envoy.listener filter sub_filter ↦ []
  ]
]

abbrev pub patches_on : Text → List ConfigObjectPatch → List ConfigObjectPatch
patches_on k = keep_if λ p. route_of_patch p == k

abbrev pub IsRoute : ConfigObjectPatch → Type 0
IsRoute p = p.apply_to ≡ Envoy.http_route

module _ (encode : Message → Fields) where
  -- What a route wants: nothing if no action is for it, and else one patch with all its actions.
  abbrev pub wanted_patches : List RouteConfig → List ConfigObjectPatch
  wanted_patches [] = []
  wanted_patches (rc ∷ rest) =
      record {
        apply_to = Envoy.http_route;
        match = some (generate_envoy_vhost_match rc);
        patch = record {
          operation = Envoy.merge;
          value = encode (Envoy.route (map (λ c. record { actions = c.action ∷ [] }) (rc ∷ rest)));
        };
      }
      ∷ []

  abbrev all_patches : GoMap (List RouteConfig) → List ConfigObjectPatch
  all_patches [] = []
  all_patches ((k, rcs) ∷ groups) = wanted_patches rcs ++ all_patches groups

  wanted_patches-IsRoute : (rcs : List RouteConfig) → All IsRoute (wanted_patches rcs)
  wanted_patches-IsRoute [] = tt
  wanted_patches-IsRoute (rc ∷ rest) = (refl, tt)

  all_patches-IsRoute : (groups : GoMap (List RouteConfig)) → All IsRoute (all_patches groups)
  all_patches-IsRoute [] = tt
  all_patches-IsRoute ((k, rcs) ∷ groups) =
      All-append IsRoute (wanted_patches rcs) (all_patches groups) (wanted_patches-IsRoute rcs)
        (all_patches-IsRoute groups)

  route-wanted_patches :
      (k j : Text) (rcs : List RouteConfig)
      → IsNamed (k, rcs)
      → patches_on j (wanted_patches rcs) ≡ (if k == j then wanted_patches rcs else [])
  unfolding generate_envoy_vhost_match gen_vhost_route_name
  route-wanted_patches k j [] h = absurd (cc (h.2))
  route-wanted_patches k j (rc ∷ rest) h =
      let (rc', rest', e, n) = h in let name : gen_vhost_route_name rc ≡ k = cc in rw name

  route-all_patches_absent :
      (groups : GoMap (List RouteConfig)) (k : Text)
      → All IsNamed groups
      → get groups k ≡ none
      → patches_on k (all_patches groups) ≡ []
  unfolding get
  route-all_patches_absent [] k h e = refl
  route-all_patches_absent ((j, rcs) ∷ groups) k h e =
      keep_if-append (λ p. route_of_patch p == k) (wanted_patches rcs) (all_patches groups)
      ∙ ground (arith, route-wanted_patches j k rcs h.0, route-all_patches_absent groups k h.1)

  route-all_patches :
      (groups : GoMap (List RouteConfig)) (k : Text)
      → AreGroups groups
      → patches_on k (all_patches groups) ≡ wanted_patches (slice_at groups k)
  route-all_patches [] k h = unfold get slice_at in refl
  route-all_patches ((j, rcs) ∷ groups) k h =
      keep_if-append (λ p. route_of_patch p == k) (wanted_patches rcs) (all_patches groups)
      ∙ elim (Bool-cases (j == k)) [
        | inl same ↦
            rw
              (
                slice_at-cons groups j k rcs,
                same,
                route-wanted_patches j k rcs h.1.0,
                same,
                route-all_patches_absent groups k h.1.1
                    (subst (λ i. get groups i ≡ none) ((eq_iff j k).0 same) h.0.0),
              )
              (append-nil (wanted_patches rcs))
        | inr other ↦
            rw (slice_at-cons groups j k rcs, other, route-wanted_patches j k rcs h.1.0, other)
              (route-all_patches groups k (h.0.1, h.1.1))
      ]

module _ (fw : Framework) (encode : Message → Fields)
    (converts : (m : Message) → fw.message_to_struct m ≡ some (encode m)) where
  patch_of_group-wanted :
      (k : Text) (rcs : List RouteConfig)
      → IsNamed (k, rcs)
      → (p : ConfigObjectPatch) × (patch_of_group fw rcs ≡ ret (some p))
        × (wanted_patches encode rcs ≡ p ∷ [])
  unfolding patch_of_group
  patch_of_group-wanted k [] h = absurd (cc (h.2))
  patch_of_group-wanted k (rc ∷ rest) h = (_, rw (converts, patch_of_group), refl)

  patches_of_groups-wanted :
      (groups : GoMap (List RouteConfig))
      → All IsNamed groups
      → patches_of_groups fw groups ≡ ret (some (all_patches encode groups))
  unfolding patches_of_groups
  patches_of_groups-wanted [] h = refl
  patches_of_groups-wanted ((k, rcs) ∷ groups) h =
      let (p, e, w) = patch_of_group-wanted k rcs h.0 in
      rw (e, w, patches_of_groups-wanted groups h.1)

  -- If every message converts and no matcher is nil, the patches are made without a panic, and each
  -- route has exactly one: it holds, in order, the actions of all descriptors that name the route,
  -- and it applies to the inbound or outbound side that the first of them says. A route without
  -- actions has no patch.
  pub one_patch_each :
      (go : Runtime) (ds : List SmartLimitDescriptor) (loc : NamespacedName)
      → All HasMatchers ds
      → (ps : List ConfigObjectPatch) × (generate_http_router_patch fw go ds loc ≡ ret (some ps))
        × All IsRoute ps
        × ((k : Text)
            → patches_on k ps ≡ wanted_patches encode (on_route k (all_configs fw loc ds)))
  unfolding generate_http_router_patch
  one_patch_each go ds loc h = (
    all_patches encode visited,
    rw (group_configs-grouped fw ds loc h) (patches_of_groups-wanted visited named),
    all_patches-IsRoute encode visited,
    λ k.
        route-all_patches encode visited k (back.1, named)
        ∙ ap (wanted_patches encode) (same_slices k ∙ slice_at-grouped fw ds loc k),
  )
    where
      groups : GoMap (List RouteConfig)
      groups = grouped fw ds loc

      visited : GoMap (List RouteConfig)
      visited = go.range (List RouteConfig) groups

      are : AreGroups groups
      are = grouped-AreGroups fw ds loc

      back : ((k : Text) → get groups k ≡ get visited k) × IsDistinct visited
      back = get-perm (Permᴰ.symm (go.range_perm (List RouteConfig) groups)) are.0

      named : All IsNamed visited
      named = All-perm IsNamed (Permᴰ.symm (go.range_perm (List RouteConfig) groups)) are.1

      same_slices : (k : Text) → slice_at visited k ≡ slice_at groups k
      same_slices k = slice_at_of_get visited groups k (sym (back.0 k))
