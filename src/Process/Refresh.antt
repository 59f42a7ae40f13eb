-- ===== src/Process/Refresh.antt =====
-- controllers/process.go, `Refresh` and `refresh`: the filters, the items of the rate limit server
-- and the status of a SmartLimiter.
pub mod Loop
pub mod Healthy
pub mod Written
pub mod Complete
pub mod Consume
pub mod Panics
pub mod Guarded
use limiter.Prelude.{
  List, [], ◌∷◌, ◌++◌, Bool, true, false, Option, none, some, if◌then◌else◌, Go, ret, panic, ◌>>=◌,
}
use limiter.Text.{Text, text, ◌==◌}
use limiter.GoMap.{GoMap, get, set, set_all, Runtime}
use limiter.Api.{
  SmartLimiterSpec, SmartLimiterStatus, NamespacedName, ReadError, is_not_found, other_error,
  Fetched, found, failed,
}
use limiter.Model.{Descriptor}
use limiter.Envoy.{EnvoyFilter}
use limiter.Framework.{Framework}
use limiter.Environment.{Environment, is_global_enabled}
use limiter.Server.{Server, Platform, SmartLimiter, EnvoyFilterResource}
use limiter.Filters.{Subset, Cluster, Configs, generate_envoy_configs}
use limiter.Process.EnvoyFilters.{refresh_envoy_filter}
use limiter.Process.ConfigMap.{refresh_config_map}
use limiter.Process.Metrics.{
  Endpoints, StaticMeta, Result, get_material, record_metrics, metric_info_of,
}

pub data Failure : Type 0 where
  none_sets : Failure
  generate_failed status_failed read_failed : ReadError → Failure

-- The name of the filter of a subset.
pub filter_name : Framework → SmartLimiter → Text → Text
filter_name fw instance_of k =
    if k == fw.base_set
    then instance_of.name ++ (text "." ++ (instance_of.namespace ++ text ".ratelimit"))
    else instance_of.name
      ++ (text "." ++ (instance_of.namespace ++ (text "." ++ (k ++ text ".ratelimit"))))

-- A conversion that fails leaves the specification nil, as if no filter were wanted.
unfoldable pub filter_resource :
    Framework → Platform → SmartLimiter → Text → Option EnvoyFilter → EnvoyFilterResource
unfolding filter_name
filter_resource fw p instance_of k ef = record {
  name = filter_name fw instance_of k;
  namespace = instance_of.namespace;
  labels = [];
  owner = none;
  resource_version = [];
  spec = elim ef [ none ↦ none | some filter ↦ p.proto_to_map filter ];
}

module _ (fw : Framework) (go : Runtime) (srv : Server) (p : Platform) where
  -- The loop over the filters; an error is logged.
  unfoldable pub refresh_filters :
      srv.State → SmartLimiter → List (Text × Option EnvoyFilter) → srv.State
  unfolding filter_resource
  refresh_filters s instance_of [] = s
  refresh_filters s instance_of ((k, ef) ∷ efs) =
      refresh_filters
        (refresh_envoy_filter srv p s instance_of (filter_resource fw p instance_of k ef)).0
        instance_of efs

  module _ (env : Environment) (host_subsets : Text → Option (List Subset)) where
    -- The writes of a refresh, once the filters are generated.
    pub write_configs :
        srv.State
        → SmartLimiter
        → NamespacedName
        → Option (GoMap Text)
        → Configs
        → Go (srv.State × Option Failure)
    unfolding refresh_filters
    write_configs s instance_of loc material c =
        let s1 = refresh_filters s instance_of (go.range (Option EnvoyFilter) c.envoy_filters) in
        let status : SmartLimiterStatus = record {
          ratelimit_status = c.descriptors;
          metric_status = material;
        } in
        do
          s2 ←
              if is_global_enabled env
              then refresh_config_map srv p s1 c.global_descriptors loc
              else ret s1
          let (s3, e) = srv.update_status s2 (record instance_of { status = status })
          ret (s3, elim e [ none ↦ none | some e ↦ some (status_failed e) ])

    pub refresh : srv.State → GoMap Endpoints → SmartLimiter → Go (srv.State × Option Failure)
    unfolding write_configs
    refresh s metric_info instance_of =
        let loc : NamespacedName = record {
          name = instance_of.name;
          namespace = instance_of.namespace;
        } in
        let material = get_material fw metric_info loc in
        elim instance_of.spec.sets [
          | none ↦ ret (s, some none_sets)
          | some sets ↦ do
            (c, e) ←
                generate_envoy_configs fw go instance_of.spec material loc
                  (record { host_subsets = host_subsets; get_service = srv.get_service s })
            elim e [
              | none ↦ write_configs s instance_of loc material c
              | some e ↦ ret (s, some (generate_failed e))
            ]
        ]

    -- `Refresh`: a SmartLimiter that is gone is no error.
    pub refresh_request :
        srv.State
        → GoMap Endpoints
        → NamespacedName
        → Option (GoMap Text)
        → Go (srv.State × GoMap Endpoints × Option Failure)
    unfolding refresh
    refresh_request s metric_info loc args = do
      recorded ← record_metrics go metric_info loc args
      elim (srv.get_smart_limiter s loc) [
        | failed e ↦ elim e [
          | is_not_found ↦ ret (s, recorded, none)
          | other_error ↦ ret (s, recorded, some (read_failed other_error))
        ]
        | found instance_of ↦ do (s1, e) ← refresh s recorded instance_of; ret (s1, recorded, e)
      ]

    module _ (unmarshal_meta : Text → Option StaticMeta) where
      -- The body of the loop of `ConsumeMetric`; an error of the refresh is logged.
      consume_results :
          srv.State → GoMap Endpoints → Text → List Result → Go (srv.State × GoMap Endpoints)
      unfolding refresh_request
      consume_results s metric_info meta_info results = elim (unmarshal_meta meta_info) [
        | none ↦ ret (s, metric_info)
        | some meta ↦ do
          info ← metric_info_of go meta results
          (s1, recorded, e) ←
              refresh_request s metric_info
                (record { name = meta.name; namespace = meta.namespace }) info
          ret (s1, recorded)
      ]

      consume_entries :
          srv.State → GoMap Endpoints → List (Text × List Result) → Go (srv.State × GoMap Endpoints)
      unfolding consume_results
      consume_entries s metric_info [] = ret (s, metric_info)
      consume_entries s metric_info ((meta_info, results) ∷ entries) =
          consume_results s metric_info meta_info results >>= λ r. consume_entries r.0 r.1 entries

      pub consume_metric :
          srv.State → GoMap Endpoints → GoMap (List Result) → Go (srv.State × GoMap Endpoints)
      unfolding consume_entries
      consume_metric s metric_info metric_map =
          consume_entries s metric_info (go.range (List Result) metric_map)

      -- What the two channels deliver, in the order in which it is received; none is the closing of
      -- either of them, which ends the loop.
      pub watch_metric :
          srv.State
          → GoMap Endpoints
          → List (Option (GoMap (List Result)))
          → Go (srv.State × GoMap Endpoints)
      unfolding consume_metric
      watch_metric s metric_info [] = ret (s, metric_info)
      watch_metric s metric_info (none ∷ received) = ret (s, metric_info)
      watch_metric s metric_info (some metric ∷ received) =
          consume_metric s metric_info metric >>= λ r. watch_metric r.0 r.1 received

    -- `subscribe`, with what `IsK8SService` makes of the host; it ignores every error.
    pub subscribe : srv.State → GoMap Endpoints → Option NamespacedName → Go srv.State
    unfolding refresh
    subscribe s metric_info none = ret s
    subscribe s metric_info (some loc) = elim (srv.get_smart_limiter s loc) [
      | failed e ↦ ret s
      | found instance_of ↦ do (s1, e) ← refresh s metric_info instance_of; ret s1
    ]
