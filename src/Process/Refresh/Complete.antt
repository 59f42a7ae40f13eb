-- ===== src/Process/Refresh/Complete.antt =====
-- From the resource to the cluster: what a whole `refresh` leaves behind.
use limiter.Prelude.{◌≡◌, ap, ◌∙◌, List, Option, none, some, All, All-map, ret}
use limiter.Text.{Text}
use limiter.GoMap.{GoMap, Runtime}
use limiter.Api.{
  SmartLimitDescriptor, SmartLimitDescriptors, SmartLimiterStatus, NamespacedName, found,
}
use limiter.Model.{Descriptor}
use limiter.Process.ConfigMap.{rate_limit_config}
use limiter.Framework.{Framework}
use limiter.Environment.{Environment, is_global_enabled}
use limiter.Server.{Server, Platform, SmartLimiter, IsStore, IsMetadata, IsHealthy}
use limiter.Filters.{Subset, Cluster, Configs, subsets_of, generate_envoy_configs}
use limiter.Filters.Panics.{IsWellFormed, generate_envoy_configs-Returns}
use limiter.Filters.Keys.{generate_envoy_configs-Keyed}
use limiter.Filters.Named.{global_descriptors-IsNamed}
use limiter.Filters.Subsets.{HasOwnNames, valid_for, subsets-Outcome}
use limiter.Process.ConfigMap.Items.{Holds}
use limiter.Process.Metrics.{Endpoints, get_material}
use limiter.Process.Refresh.{Failure, write_configs, refresh}
use limiter.Process.Refresh.Written.{
  loc_of, cluster_at, Done, GlobalDone, after_status, every_filter_placed, global_done, written,
  subset_served, status_done,
}

module _ (fw : Framework) (go : Runtime) (srv : Server) (p : Platform) (env : Environment)
    (host_subsets : Text → Option (List Subset)) (i : SmartLimiter) where
  abbrev loc : NamespacedName
  loc = loc_of fw go srv p env host_subsets i

  abbrev cluster : srv.State → Cluster
  cluster s = cluster_at fw go srv p env host_subsets i s

  -- With sets and generated filters nothing is left but the writes.
  refresh-writes :
      (s : srv.State) (metric_info : GoMap Endpoints) (sets : GoMap (Option SmartLimitDescriptors))
      (c : Configs) (r : srv.State × Option Failure)
      → i.spec.sets ≡ some sets
      → generate_envoy_configs fw go i.spec (get_material fw metric_info loc) loc (cluster s)
        ≡ ret (c, none)
      → write_configs fw go srv p env host_subsets s i loc (get_material fw metric_info loc) c
        ≡ ret r
      → refresh fw go srv p env host_subsets s metric_info i ≡ ret r
  unfolding refresh
  refresh-writes s metric_info sets c r has_sets made w = rw (has_sets, refresh) (rw made w)

  module _ (st : IsStore srv) (meta : IsMetadata p) (ok : IsHealthy srv p)
      (yaml : (items : List Descriptor)
        → p.yaml_unmarshal (p.yaml_marshal (rate_limit_config items))
          ≡ some (some (rate_limit_config items)))
      (s : srv.State) (metric_info : GoMap Endpoints) where
    -- What a refresh is to leave behind.
    abbrev pub Complete : Option (GoMap Text) → List Descriptor → srv.State → Configs → Type 0
    Complete sel items s' c =
        let material = get_material fw metric_info loc in
        let status : SmartLimiterStatus = record {
          ratelimit_status = c.descriptors;
          metric_status = material;
        } in
        (generate_envoy_configs fw go i.spec material loc (cluster s) ≡ ret (c, none))
        × All
            (λ sub.
              (ds : List SmartLimitDescriptor) × (valid_for fw go i.spec material loc sub.name
                ≡ ret ds)
              × Done fw go srv p env host_subsets i s' status sel sub ds)
            (subsets_of fw loc (cluster s))
        × GlobalDone fw go srv p env host_subsets i (is_global_enabled env) s s' items
            c.global_descriptors
        × ((i' : SmartLimiter) × (srv.get_smart_limiter s' loc ≡ found i') × (i'.status ≡ status))

    -- On a server that answers what it can, rejects only stale or misplaced writes and keeps what is
    -- written, with a configuration of the rate limit server stored, without null items, that YAML
    -- reads back as it was written, let a resource be stored as it is refreshed, with sets, of which
    -- none is nil or has a nil descriptor, a nil matcher or an action without an interval; let its
    -- service be found and the subsets have names of their own.
    -- Then its refresh returns without an error and leaves behind: for each subset the filter of
    -- the descriptors that take effect, or none (or a filter of another revision); the generated
    -- items, and no others, as those of the service at the rate limit server, if global limits are
    -- on, and all config maps as they were if they are off; and the descriptors and metrics in the
    -- status.
    pub refresh-Complete :
        (sets : GoMap (Option SmartLimitDescriptors)) (sel : Option (GoMap Text))
        (items : List Descriptor)
        → i.spec.sets ≡ some sets
        → IsWellFormed i.spec
        → srv.get_smart_limiter s loc ≡ found i
        → srv.get_service s loc ≡ found sel
        → HasOwnNames (subsets_of fw loc (cluster s))
        → Holds srv p s items
        → (s' : srv.State) × (c : Configs) × (refresh fw go srv p env host_subsets s metric_info i
            ≡ ret (s', none))
          × Complete sel items s' c
    refresh-Complete sets sel items has_sets well here service names holds =
        let material = get_material fw metric_info loc in
        let ((c, e), made) =
          generate_envoy_configs-Returns fw go i.spec material loc (cluster s) well in
        let (keyed, no_error) =
          generate_envoy_configs-Keyed fw go i.spec material loc (cluster s) c sel e service made in
        let made_well = made ∙ ap (λ x. ret (c, x)) no_error in
        let enabled = is_global_enabled env in
        let (s2, after, global) =
          global_done fw go srv p env host_subsets i st meta ok yaml s c material enabled items
            holds
            (global_descriptors-IsNamed fw go i.spec material loc (cluster s) c none made_well) in
        let s' = after_status fw go srv p env host_subsets i st meta ok yaml s c material s2 in
        let in_place =
          every_filter_placed fw go srv p env host_subsets i st meta ok yaml s c material enabled s2
            after keyed in
        (
          s',
          c,
          refresh-writes s metric_info sets c (s', none) has_sets made_well
              (written fw go srv p env host_subsets i st meta ok yaml s c material s2 here after),
          (
            made_well,
            All-map _
                (λ sub settled. (
                  settled.0,
                  settled.1,
                  subset_served fw go srv p env host_subsets i st meta ok yaml s c material s2 sel
                      sub settled.0 in_place settled.2,
                ))
                _
                (subsets-Outcome fw go i.spec material loc (cluster s) sel c none service names
                  made_well),
            global,
            status_done fw go srv p env host_subsets i st meta ok yaml s c material s2 here after,
          ),
        )
