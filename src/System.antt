-- ===== src/System.antt =====
-- The running controller: the reconciler and the API server, and what can happen to them, in any
-- order. Each step is one request to `Reconcile` (controllers/smartlimiter_controller.go), one
-- metric that `WatchMetric` receives and `ConsumeMetric` (controllers/process.go) consumes, or a
-- write of somebody else at the API server, which leaves no resource with null parts.
pub mod Safety
use limiter.Prelude.{◌≡◌, List, Option, ret}
use limiter.Text.{Text}
use limiter.GoMap.{GoMap, Runtime}
use limiter.Api.{NamespacedName, ReadError}
use limiter.Framework.{Framework}
use limiter.Environment.{Environment}
use limiter.Server.{Server, Platform}
use limiter.Filters.{Subset}
use limiter.Process.Metrics.{StaticMeta, Result, Endpoints}
use limiter.Process.Refresh.{consume_metric}
use limiter.Process.Refresh.Consume.{HasValues}
use limiter.Process.Refresh.Guarded.{IsValidated}
use limiter.Reconciler.{Reconciler, reconcile}
use limiter.Producer.Ticker.{IsPlain}

module _ (fw : Framework) (go : Runtime) (srv : Server) (p : Platform) (env : Environment)
    (host_subsets : Text → Option (List Subset)) (unmarshal_meta : Text → Option StaticMeta) where
  pub record System : Type 0 where
    pub cluster : srv.State
    pub reconciler : Reconciler

  -- Consuming a metric changes the recorded metrics and, through its refreshes, the cluster.
  abbrev after_metric : System → srv.State → GoMap Endpoints → System
  after_metric t s metric_info = record {
    cluster = s;
    reconciler = record t.reconciler { metric_info = metric_info };
  }

  pub data Step (t : System) : System → Type 0 where
    request :
        (loc : NamespacedName) (s : srv.State) (r : Reconciler) (e : Option ReadError)
        → IsPlain loc
        → reconcile srv p env t.cluster t.reconciler loc ≡ ret (s, r, e)
        → Step t (record { cluster = s; reconciler = r })
    metric :
        (received : GoMap (List Result)) (s : srv.State) (metric_info : GoMap Endpoints)
        → HasValues received
        → consume_metric fw go srv p env host_subsets unmarshal_meta t.cluster
            t.reconciler.metric_info received
          ≡ ret (s, metric_info)
        → Step t (after_metric t s metric_info)
    elsewhere : (s : srv.State) → IsValidated srv p s → Step t (record t { cluster = s })

  pub data Reach (t : System) : System → Type 0 where
    here : Reach t t
    later : {u v : System} → Reach t u → Step u v → Reach t v
