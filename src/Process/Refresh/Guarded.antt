-- ===== src/Process/Refresh/Guarded.antt =====
-- A refresh at a cluster in which no resource has null parts, and what it leaves of that.
use limiter.Prelude.{
  ◌≡◌, refl, sym, ◌∙◌, List, Option, none, some, Go, ret, Yields, Yields-bind, Bool-cases,
  Option-cases, inl, inr,
}
use limiter.Text.{Text}
use limiter.GoMap.{GoMap, Runtime}
use limiter.Api.{NamespacedName, ReadError, found}
use limiter.Model.{Descriptor}
use limiter.Envoy.{EnvoyFilter}
use limiter.Framework.{Framework}
use limiter.Environment.{Environment, is_global_enabled}
use limiter.Server.{Server, Platform, SmartLimiter, ConfigMap, IsStore, LeftAlone}
use limiter.Filters.{Subset, Cluster, Configs}
use limiter.Filters.Panics.{IsWellFormed, generate_envoy_configs-Returns}
use limiter.Process.ConfigMap.{update_of, refresh_config_map}
use limiter.Process.ConfigMap.Panics.{IsReadable, refresh_config_map-Returns}
use limiter.Process.ConfigMap.Kinds.{refresh_config_map-holds}
use limiter.Process.Metrics.{Endpoints, get_material}
use limiter.Process.Refresh.{Failure, generate_failed, refresh_filters, write_configs, refresh}
use limiter.Process.Refresh.Healthy.{refresh_filters-keeps}
use limiter.Process.Refresh.Panics.{IsReadable-refresh_filters}

-- The configuration of the rate limit server and every SmartLimiter that is stored have no null
-- parts.
abbrev pub IsValidated : (srv : Server) → Platform → srv.State → Type 0
IsValidated srv p s =
    IsReadable srv p s
    × ((loc : NamespacedName) (i : SmartLimiter)
        → srv.get_smart_limiter s loc ≡ found i
        → IsWellFormed i.spec)

-- The server brings no null parts in with what the controller writes: filters, configurations of
-- given items and statuses of SmartLimiters without null parts.
pub record IsGuarded (srv : Server) (p : Platform) : Type 0 where
  pub filters : (loc : NamespacedName) → LeftAlone srv (λ s. srv.get_smart_limiter s loc)
  pub config_maps :
      (s : srv.State) (cm : ConfigMap) (items : List Descriptor)
      → IsValidated srv p s
      → IsValidated srv p (srv.update_config_map s (update_of p cm items)).0
  pub statuses :
      (s : srv.State) (i : SmartLimiter)
      → IsWellFormed i.spec
      → IsValidated srv p s
      → IsValidated srv p (srv.update_status s i).0

module _ (fw : Framework) (go : Runtime) (srv : Server) (p : Platform) (env : Environment)
    (host_subsets : Text → Option (List Subset)) (st : IsStore srv) (guard : IsGuarded srv p) where
  filters-IsValidated :
      (s : srv.State) (i : SmartLimiter) (es : List (Text × Option EnvoyFilter))
      → IsValidated srv p s
      → IsValidated srv p (refresh_filters fw go srv p s i es)
  filters-IsValidated s i es v = (
    IsReadable-refresh_filters fw go srv p env host_subsets s i es st v.0,
    λ loc j e. v.1 loc j (
        sym (
          refresh_filters-keeps fw go srv p i (λ t. srv.get_smart_limiter t loc) (guard.filters loc)
            st s es)
        ∙ e),
  )

  pub config_map-IsValidated :
      (s : srv.State) (desc : List Descriptor) (loc : NamespacedName)
      → IsValidated srv p s
      → Yields (IsValidated srv p) (refresh_config_map srv p s desc loc)
  config_map-IsValidated s desc loc v =
      let (s', e) = refresh_config_map-Returns srv p s desc loc v.0 in
      (
        s',
        e,
        refresh_config_map-holds srv p s (IsValidated srv p)
            (λ cm items. guard.config_maps s cm items v) v desc loc s' e,
      )

  write_configs-IsValidated :
      (s : srv.State) (i : SmartLimiter) (loc : NamespacedName) (material : Option (GoMap Text))
      (c : Configs)
      → IsWellFormed i.spec
      → IsValidated srv p s
      → Yields
          (λ r. IsValidated srv p r.0)
          (write_configs fw go srv p env host_subsets s i loc material c)
  unfolding write_configs
  write_configs-IsValidated s i loc material c w v =
      let s1 = refresh_filters fw go srv p s i (go.range (Option EnvoyFilter) c.envoy_filters) in
      let v1 = filters-IsValidated s i (go.range (Option EnvoyFilter) c.envoy_filters) v in
      elim (Bool-cases (is_global_enabled env)) [
        | inl e ↦ rw e (
            Yields-bind {P = IsValidated srv p}
              (refresh_config_map srv p s1 c.global_descriptors loc) _
              (config_map-IsValidated s1 c.global_descriptors loc v1)
              (λ s2 _ v2. (_, refl, guard.statuses s2 _ w v2)))
        | inr e ↦ rw e (_, refl, guard.statuses s1 _ w v1)
      ]

  pub refresh-IsValidated :
      (s : srv.State) (metric_info : GoMap Endpoints) (i : SmartLimiter)
      → IsWellFormed i.spec
      → IsValidated srv p s
      → Yields (λ r. IsValidated srv p r.0) (refresh fw go srv p env host_subsets s metric_info i)
  unfolding refresh
  refresh-IsValidated s metric_info i w v = elim (Option-cases i.spec.sets) [
    | inl e ↦ rw (e, refresh) (_, refl, v)
    | inr (sets, e) ↦
        (let (r, made) =
            generate_envoy_configs-Returns fw go i.spec (get_material fw metric_info loc) loc k w in
          rw (e, refresh) (rw made (by_error r.0 r.1)))
  ]
    where
      loc : NamespacedName
      loc = record { name = i.name; namespace = i.namespace }

      k : Cluster
      k = record { host_subsets = host_subsets; get_service = srv.get_service s }

      by_error :
          (c : Configs) (e : Option ReadError)
          → Yields
              (λ r. IsValidated srv p r.0)
              (elim e as (λ _. Go (srv.State × Option Failure)) [
                | none ↦
                    write_configs fw go srv p env host_subsets s i loc
                      (get_material fw metric_info loc)
                      c
                | some e ↦ ret (s, some (generate_failed e))
              ])
      by_error c none = write_configs-IsValidated s i loc _ c w v
      by_error c (some e) = (_, refl, v)
