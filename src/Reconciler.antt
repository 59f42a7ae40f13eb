-- ===== src/Reconciler.antt =====
-- controllers/smartlimiter_controller.go: which SmartLimiters the controller keeps metrics for.
pub mod Interest
pub mod Tables
pub mod Panics
use limiter.Prelude.{
  List, [], ◌∷◌, Bool, true, false, Option, none, some, if◌then◌else◌, Go, ret, ◌>>=◌,
}
use limiter.Text.{Text}
use limiter.GoMap.{GoMap, get, set, delete}
use limiter.Api.{
  SmartLimiterSpec, NamespacedName, ReadError, is_not_found, other_error, Fetched, found, failed,
}
use limiter.Api.Equal.{equal_spec}
use limiter.Environment.{Environment, is_global_enabled}
use limiter.Server.{Server, Platform, SmartLimiter}
use limiter.Process.ConfigMap.{refresh_config_map}
use limiter.Process.Metrics.{Endpoints, resource_key}

-- The fields of `SmartLimiterReconciler` that change; the maps are safe for concurrent use, and the
-- last policy is guarded by its lock.
pub record Reconciler : Type 0 where
  pub interest : GoMap (Unit {0})
  pub metric_info : GoMap Endpoints
  pub last_update_policy : SmartLimiterSpec

abbrev pub no_policy : SmartLimiterSpec
no_policy = record { sets = none; rls = [] }

module _ (srv : Server) (p : Platform) (env : Environment) where
  -- The resource is gone.
  forget_resource : srv.State → Reconciler → NamespacedName → Go (srv.State × Reconciler)
  forget_resource s r loc = do
    s' ← if is_global_enabled env then refresh_config_map srv p s [] loc else ret s
    ret (
      s',
      record {
        interest = delete r.interest (resource_key loc);
        metric_info = delete r.metric_info (resource_key loc);
        last_update_policy = no_policy;
      },
    )

  -- The resource was added or updated.
  accept_resource : Reconciler → NamespacedName → SmartLimiter → Reconciler
  accept_resource r loc instance_of =
      if env.rev_in_scope (p.istio_rev_from_label instance_of.labels)
      then (if equal_spec instance_of.spec r.last_update_policy then r else record r {
        last_update_policy = instance_of.spec;
        interest = set r.interest (resource_key loc) tt;
      })
      else r

  -- The last part is the error, for which the request is queued again.
  pub reconcile :
      srv.State → Reconciler → NamespacedName → Go (srv.State × Reconciler × Option ReadError)
  unfolding forget_resource accept_resource
  reconcile s r loc = elim (srv.get_smart_limiter s loc) [
    | failed e ↦ elim e [
      | is_not_found ↦ (do (s', r') ← forget_resource s r loc; ret (s', r', none))
      | other_error ↦ ret (s, r, some other_error)
    ]
    | found instance_of ↦ ret (s, accept_resource r loc instance_of, none)
  ]
