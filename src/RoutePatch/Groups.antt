-- ===== src/RoutePatch/Groups.antt =====
-- The first pass of `generateHttpRouterPatch`: the groups of configurations.
use limiter.Prelude.{
  subst, List, [], ◌∷◌, ◌++◌, Option, none, some, map, keep_if, keep_if-append, ◌≡◌, refl, ap, ◌∙◌,
  sym, arith, append-nil, append_assoc, All, ret, Option-cases, inl, inr, Bool-cases,
}
use limiter.Text.{Text, ◌==◌, eq_iff}
use limiter.GoMap.{GoMap, get, set, push, slice_at, IsDistinct}
use limiter.GoMap.Laws.{slice_at-push, push-IsDistinct}
use limiter.Api.{SmartLimitDescriptor, NamespacedName}
use limiter.Envoy.{RateLimitAction}
use limiter.Framework.{Framework}
use limiter.Route.{RouteConfig, gen_vhost_route_name, generate_route_configs}
use limiter.Action.{generate_route_rate_limit_action}
use limiter.Action.Agreement.{HasMatchers, route_action, generate-route_action}
use limiter.RoutePatch.{add_configs, add_descriptor, group_configs}

abbrev pub fill : RateLimitAction → RouteConfig → RouteConfig
fill action rc = record rc { action = some action }

-- The configurations that a descriptor contributes, in order.
abbrev pub filled : Option RateLimitAction → List RouteConfig → List RouteConfig
filled none rcs = []
filled (some action) rcs = map (fill action) rcs

abbrev pub configs_of : Framework → NamespacedName → SmartLimitDescriptor → List RouteConfig
configs_of fw loc d = filled (route_action fw d loc) (generate_route_configs d.target)

abbrev pub all_configs : Framework → NamespacedName → List SmartLimitDescriptor → List RouteConfig
all_configs fw loc [] = []
all_configs fw loc (d ∷ ds) = configs_of fw loc d ++ all_configs fw loc ds

-- Those for one route.
abbrev pub on_route : Text → List RouteConfig → List RouteConfig
on_route k = keep_if λ rc. gen_vhost_route_name rc == k

-- The groups without the panics of nil matchers.
add_action :
    GoMap (List RouteConfig) → Option RateLimitAction → List RouteConfig → GoMap (List RouteConfig)
add_action groups none rcs = groups
add_action groups (some action) rcs = add_configs groups action rcs

grouped_from :
    Framework
    → GoMap (List RouteConfig)
    → List SmartLimitDescriptor
    → NamespacedName
    → GoMap (List RouteConfig)
unfolding add_action
grouped_from fw groups [] loc = groups
grouped_from fw groups (d ∷ ds) loc =
    grouped_from fw (add_action groups (route_action fw d loc) (generate_route_configs d.target)) ds
      loc

add_descriptor-action :
    (fw : Framework) (groups : GoMap (List RouteConfig)) (d : SmartLimitDescriptor)
    (loc : NamespacedName) (made : Option RateLimitAction)
    → generate_route_rate_limit_action fw d loc ≡ ret made
    → add_descriptor fw groups d loc
      ≡ ret (add_action groups made (generate_route_configs d.target))
unfolding add_descriptor add_action
add_descriptor-action fw groups d loc none e = rw (e, add_descriptor) refl
add_descriptor-action fw groups d loc (some action) e = rw (e, add_descriptor) refl

group_configs-grouped_from :
    (fw : Framework) (groups : GoMap (List RouteConfig)) (ds : List SmartLimitDescriptor)
    (loc : NamespacedName)
    → All HasMatchers ds
    → group_configs fw groups ds loc ≡ ret (grouped_from fw groups ds loc)
unfolding group_configs grouped_from
group_configs-grouped_from fw groups [] loc h = refl
group_configs-grouped_from fw groups (d ∷ ds) loc h =
    rw
      (add_descriptor-action fw groups d loc (route_action fw d loc)
        (generate-route_action fw d loc h.0))
      (group_configs-grouped_from fw
        (add_action groups (route_action fw d loc) (generate_route_configs d.target)) ds loc h.1)

pub grouped : Framework → List SmartLimitDescriptor → NamespacedName → GoMap (List RouteConfig)
unfolding grouped_from
grouped fw ds loc = grouped_from fw [] ds loc

pub group_configs-grouped :
    (fw : Framework) (ds : List SmartLimitDescriptor) (loc : NamespacedName)
    → All HasMatchers ds
    → group_configs fw [] ds loc ≡ ret (grouped fw ds loc)
unfolding grouped
group_configs-grouped fw ds loc h = group_configs-grouped_from fw [] ds loc h

slice_at-add_configs :
    (groups : GoMap (List RouteConfig)) (action : RateLimitAction) (rcs : List RouteConfig)
    (k : Text)
    → slice_at (add_configs groups action rcs) k
      ≡ slice_at groups k ++ on_route k (map (fill action) rcs)
unfolding add_configs
slice_at-add_configs groups action [] k = sym (append-nil _)
slice_at-add_configs groups action (rc ∷ rcs) k =
    slice_at-add_configs (push groups (gen_vhost_route_name (fill action rc)) (fill action rc))
      action rcs k
    ∙ ap (λ l. l ++ on_route k (map (fill action) rcs))
        (slice_at-push groups (gen_vhost_route_name (fill action rc)) k (fill action rc))
    ∙ append_assoc (slice_at groups k) _ _
    ∙ ap (λ l. slice_at groups k ++ l) (ground arith)

slice_at-add_action :
    (groups : GoMap (List RouteConfig)) (made : Option RateLimitAction) (rcs : List RouteConfig)
    (k : Text)
    → slice_at (add_action groups made rcs) k ≡ slice_at groups k ++ on_route k (filled made rcs)
unfolding add_action
slice_at-add_action groups none rcs k = sym (append-nil _)
slice_at-add_action groups (some action) rcs k = slice_at-add_configs groups action rcs k

slice_at-group_from :
    (fw : Framework) (groups : GoMap (List RouteConfig)) (ds : List SmartLimitDescriptor)
    (loc : NamespacedName) (k : Text)
    → slice_at (grouped_from fw groups ds loc) k
      ≡ slice_at groups k ++ on_route k (all_configs fw loc ds)
unfolding grouped_from
slice_at-group_from fw groups [] loc k = sym (append-nil _)
slice_at-group_from fw groups (d ∷ ds) loc k =
    slice_at-group_from fw
      (add_action groups (route_action fw d loc) (generate_route_configs d.target)) ds loc k
    ∙ ap (λ l. l ++ on_route k (all_configs fw loc ds))
        (slice_at-add_action groups (route_action fw d loc) (generate_route_configs d.target) k)
    ∙ append_assoc (slice_at groups k) _ _
    ∙ ap (λ l. slice_at groups k ++ l)
        (sym (
          keep_if-append (λ rc. gen_vhost_route_name rc == k) (configs_of fw loc d)
            (all_configs fw loc ds)))

pub slice_at-grouped :
    (fw : Framework) (ds : List SmartLimitDescriptor) (loc : NamespacedName) (k : Text)
    → slice_at (grouped fw ds loc) k ≡ on_route k (all_configs fw loc ds)
unfolding slice_at get grouped
slice_at-grouped fw ds loc k = slice_at-group_from fw [] ds loc k

-- A group is not empty, and its first configuration has its name.
abbrev pub IsNamed : Text × List RouteConfig → Type 0
IsNamed (k, rcs) =
    (rc : RouteConfig) × (rest : List RouteConfig) × (rcs ≡ rc ∷ rest)
    × (gen_vhost_route_name rc ≡ k)

abbrev pub AreGroups : GoMap (List RouteConfig) → Type 0
AreGroups groups = IsDistinct groups × All IsNamed groups

get-IsNamed :
    (groups : GoMap (List RouteConfig)) (k : Text) (rcs : List RouteConfig)
    → All IsNamed groups
    → get groups k ≡ some rcs
    → IsNamed (k, rcs)
unfolding get
get-IsNamed [] k rcs h e = absurd (cc)
get-IsNamed ((j, vs) ∷ groups) k rcs h e = elim (Bool-cases (j == k)) [
  | inl same ↦
      let vs-rcs : vs ≡ rcs = ground arith in
      subst (λ i. IsNamed (i, rcs)) ((eq_iff j k).0 same) (subst (λ l. IsNamed (j, l)) vs-rcs h.0)
  | inr other ↦ get-IsNamed groups k rcs h.1 (rw other at e)
]

set-IsNamed :
    (groups : GoMap (List RouteConfig)) (k : Text) (rcs : List RouteConfig)
    → All IsNamed groups
    → IsNamed (k, rcs)
    → All IsNamed (set groups k rcs)
unfolding set
set-IsNamed [] k rcs h n = (n, tt)
set-IsNamed ((j, vs) ∷ groups) k rcs h n = elim (Bool-cases (j == k)) [
  | inl same ↦ rw same (subst (λ i. IsNamed (i, rcs)) (sym ((eq_iff j k).0 same)) n, h.1)
  | inr other ↦ rw other (h.0, set-IsNamed groups k rcs h.1 n)
]

push-AreGroups :
    (groups : GoMap (List RouteConfig)) (rc : RouteConfig)
    → AreGroups groups
    → AreGroups (push groups (gen_vhost_route_name rc) rc)
unfolding push
push-AreGroups groups rc (d, h) = (push-IsDistinct groups (gen_vhost_route_name rc) rc d, named)
  where
    named : All IsNamed (push groups (gen_vhost_route_name rc) rc)
    named = elim (Option-cases (get groups (gen_vhost_route_name rc))) [
      | inl e ↦ rw (e, push) (set-IsNamed groups _ _ h (rc, [], refl, refl))
      | inr (vs, e) ↦
          (let (first, rest, e', n) = get-IsNamed groups (gen_vhost_route_name rc) vs h e in
            rw (e, push)
              (set-IsNamed groups _ _ h (first, rest ++ rc ∷ [], ap (λ l. l ++ rc ∷ []) e', n)))
    ]

add_configs-AreGroups :
    (groups : GoMap (List RouteConfig)) (action : RateLimitAction) (rcs : List RouteConfig)
    → AreGroups groups
    → AreGroups (add_configs groups action rcs)
unfolding add_configs
add_configs-AreGroups groups action [] h = h
add_configs-AreGroups groups action (rc ∷ rcs) h =
    add_configs-AreGroups (push groups (gen_vhost_route_name (fill action rc)) (fill action rc))
      action rcs (push-AreGroups groups (fill action rc) h)

add_action-AreGroups :
    (groups : GoMap (List RouteConfig)) (made : Option RateLimitAction) (rcs : List RouteConfig)
    → AreGroups groups
    → AreGroups (add_action groups made rcs)
unfolding add_action
add_action-AreGroups groups none rcs h = h
add_action-AreGroups groups (some action) rcs h = add_configs-AreGroups groups action rcs h

group_from-AreGroups :
    (fw : Framework) (groups : GoMap (List RouteConfig)) (ds : List SmartLimitDescriptor)
    (loc : NamespacedName)
    → AreGroups groups
    → AreGroups (grouped_from fw groups ds loc)
unfolding grouped_from
group_from-AreGroups fw groups [] loc h = h
group_from-AreGroups fw groups (d ∷ ds) loc h =
    group_from-AreGroups fw
      (add_action groups (route_action fw d loc) (generate_route_configs d.target)) ds loc
      (add_action-AreGroups groups (route_action fw d loc) (generate_route_configs d.target) h)

pub grouped-AreGroups :
    (fw : Framework) (ds : List SmartLimitDescriptor) (loc : NamespacedName)
    → AreGroups (grouped fw ds loc)
unfolding grouped
grouped-AreGroups fw ds loc = group_from-AreGroups fw [] ds loc (tt, tt)
