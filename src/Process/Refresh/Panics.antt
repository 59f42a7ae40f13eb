-- ===== src/Process/Refresh/Panics.antt =====
-- Panics in `refresh`.
use limiter.Prelude.{
  refl, ◌∙◌, sym, none, inl, inr, Bool-cases, Go, ret, List, Option, some, Returns, Returns-bind,
  Returns-case,
}
use limiter.Text.{Text}
use limiter.GoMap.{GoMap, Runtime}
use limiter.Api.{NamespacedName, ReadError}
use limiter.Envoy.{EnvoyFilter}
use limiter.GlobalLimit.{get_config_map_namespace_name}
use limiter.Process.ConfigMap.{refresh_config_map}
use limiter.Process.ConfigMap.Panics.{IsReadable, refresh_config_map-Returns}
use limiter.Framework.{Framework}
use limiter.Environment.{Environment, is_global_enabled}
use limiter.Server.{Server, Platform, SmartLimiter, IsStore}
use limiter.Filters.{Subset, Cluster, Configs, generate_envoy_configs}
use limiter.Filters.Panics.{IsWellFormed, generate_envoy_configs-Returns}
use limiter.Process.Metrics.{Endpoints, get_material}
use limiter.Process.Refresh.{
  Failure, none_sets, generate_failed, refresh_filters, write_configs, refresh,
}
use limiter.Process.Refresh.Healthy.{refresh_filters-keeps, maps-LeftAlone}

module _ (fw : Framework) (go : Runtime) (srv : Server) (p : Platform) (env : Environment)
    (host_subsets : Text → Option (List Subset)) where
  pub IsReadable-refresh_filters :
      (s : srv.State) (i : SmartLimiter) (es : List (Text × Option EnvoyFilter))
      → IsStore srv
      → IsReadable srv p s
      → IsReadable srv p (refresh_filters fw go srv p s i es)
  IsReadable-refresh_filters s i es st h cm config read g d y =
      h cm config read
        (sym (
            refresh_filters-keeps fw go srv p i
              (λ t. srv.get_config_map t get_config_map_namespace_name)
              (maps-LeftAlone srv st get_config_map_namespace_name) st s es)
          ∙ g)
        d y

  write_configs-Returns :
      (s : srv.State) (i : SmartLimiter) (loc : NamespacedName) (material : Option (GoMap Text))
      (c : Configs)
      → IsStore srv
      → IsReadable srv p s
      → Returns (write_configs fw go srv p env host_subsets s i loc material c)
  unfolding write_configs
  write_configs-Returns s i loc material c st h = elim (Bool-cases (is_global_enabled env)) [
    | inl e ↦ rw e (
        Returns-bind
          (refresh_config_map srv p
            (refresh_filters fw go srv p s i (go.range (Option EnvoyFilter) c.envoy_filters))
            c.global_descriptors loc)
          _
          (refresh_config_map-Returns srv p _ c.global_descriptors loc
            (IsReadable-refresh_filters s i (go.range (Option EnvoyFilter) c.envoy_filters) st h))
          (λ s2 _. (_, refl)))
    | inr e ↦ rw e (_, refl)
  ]

  -- On a server that keeps what is written, if no set, descriptor or matcher of the resource is
  -- nil, each of its actions has an interval, and the configuration of the rate limit server, if it
  -- is read, is not null and has no null item, then the refresh does not panic, whatever the
  -- metrics and the subsets are and the other reads and the writes return.
  pub refresh-Returns :
      (s : srv.State) (metric_info : GoMap Endpoints) (i : SmartLimiter)
      → IsStore srv
      → IsReadable srv p s
      → IsWellFormed i.spec
      → Returns (refresh fw go srv p env host_subsets s metric_info i)
  unfolding refresh
  refresh-Returns s metric_info i st readable h =
      let loc : NamespacedName = record { name = i.name; namespace = i.namespace } in
      let material = get_material fw metric_info loc in
      let k : Cluster = record { host_subsets = host_subsets; get_service = srv.get_service s } in
      Returns-case i.spec.sets (s, some none_sets) _
        (λ sets.
          Returns-bind (generate_envoy_configs fw go i.spec material loc k) _
            (generate_envoy_configs-Returns fw go i.spec material loc k h)
            (λ r _. by_error r.0 r.1))
    where
      by_error :
          (c : Configs) (e : Option ReadError)
          → Returns (elim e as (λ _. Go (srv.State × Option Failure)) [
            | none ↦
                write_configs fw go srv p env host_subsets s i
                  (record { name = i.name; namespace = i.namespace })
                  (get_material fw metric_info (record { name = i.name; namespace = i.namespace }))
                  c
            | some e ↦ ret (s, some (generate_failed e))
          ])
      by_error c none = write_configs-Returns s i _ _ c st readable
      by_error c (some e) = (_, refl)
