-- ===== src/Examples/Running.antt =====
-- The controller from its start on, at a server with one resource.
use limiter.Prelude.{List, [], ◌∷◌, ◌≡◌, refl, false, Option, none, some, subst, Returns, Yields}
use limiter.Text.{Text, text}
use limiter.GoMap.{GoMap}
use limiter.GoMap.Range.{in_order}
use limiter.Api.{NamespacedName, Fetched, found}
use limiter.Reconciler.{reconcile}
use limiter.Reconciler.Panics.{reconcile-IsValidated}
use limiter.Examples.Filters.{spec-IsWellFormed}
use limiter.Filters.Panics.{IsWellFormed}
use limiter.Process.Metrics.{StaticMeta, Result}
use limiter.Process.Refresh.{consume_metric}
use limiter.Process.Refresh.Guarded.{IsValidated, IsGuarded}
use limiter.Process.ConfigMap.{update_of}
use limiter.Server.{SmartLimiter}
use limiter.Startup.{Prometheus, PrometheusLib, Manager, init_manager, new_maps}
use limiter.Startup.Wiring.{Begun, init_manager-Begun}
use limiter.System.{System, here, later, request}
use limiter.System.Safety.{Ticks, reachable-IsSafe}
use limiter.Examples.{framework, reviews, cluster}
use limiter.Examples.Store.{server, server-IsStore, platform, server-IsReadable, put_at-holds}
use limiter.Examples.Refreshes.{limiter_of_reviews, start}
use limiter.Examples.Producers.{calls, plain}
use limiter.Examples.Reconciles.{environment}

-- A client that is its address.
abbrev addresses : PrometheusLib
addresses = record {
  Client = Text;
  Api = Text;
  new_client = λ address. some address;
  new_api = λ client. client;
}

-- What was registered, and no refusal.
abbrev manager : Manager
manager = record {
  State = List Text;
  add_smart_limiters = λ s. (text "limiters" ∷ s, false);
  add_destination_rules = λ s. (text "rules" ∷ s, false);
}

abbrev prometheus : Prometheus
prometheus = record { address = text "prometheus:9090"; handlers = none }

init_manager-Begun_example :
    Begun addresses manager environment
      (some prometheus)
      []
      (init_manager addresses manager [] environment (some prometheus))
init_manager-Begun_example = init_manager-Begun addresses manager environment (some prometheus) []

-- What is answered is a SmartLimiter without null parts, if any.
abbrev Answers : Fetched SmartLimiter → Type 0
Answers r = (j : SmartLimiter) → r ≡ found j → IsWellFormed j.spec

found-Answers : (i : SmartLimiter) → IsWellFormed i.spec → Answers (found i)
found-Answers i w j e = let same : i ≡ j = cc in subst (λ x. IsWellFormed x.spec) same w

server-IsGuarded : IsGuarded server platform
server-IsGuarded = record {
  filters = λ loc s o. (refl, refl, refl);
  config_maps = λ s cm items v.
      (server-IsReadable (server.update_config_map s (update_of platform cm items)).0, v.1);
  statuses = λ s i w v. (
    server-IsReadable (server.update_status s i).0,
    λ loc.
        put_at-holds Answers s.limiters (record { name = i.name; namespace = i.namespace }) loc
          (found i) (found-Answers i w) (v.1 loc),
  );
}

start-IsValidated : IsValidated server platform start
start-IsValidated = (
  server-IsReadable start,
  λ loc i e.
      let same : limiter_of_reviews ≡ i = cc in
      subst (λ x. IsWellFormed x.spec) same spec-IsWellFormed,
)

abbrev about_reviews : Text → Option StaticMeta
about_reviews meta_info =
    some (record { name = reviews.name; namespace = reviews.namespace; n_pod = []; is_group = [] })

abbrev received : GoMap (List Result)
received =
    (
      text "reviews",
      record { name = text "cpu.max"; value = some ((text "v1", text "80") ∷ []) } ∷ [],
    )
    ∷ []

abbrev Running : Type 0
Running = System framework in_order server platform environment cluster.host_subsets about_reviews

abbrev begin : Running
begin = record { cluster = start; reconciler = new_maps addresses }

abbrev begun :
    Yields
      (λ x. IsValidated server platform x.0)
      (reconcile server platform environment start begin.reconciler reviews)
begun =
    reconcile-IsValidated server platform environment server-IsGuarded start begin.reconciler
      reviews start-IsValidated

abbrev accepted : Running
accepted = record { cluster = begun.0.0; reconciler = begun.0.1 }

reachable-IsSafe_example :
    Ticks framework in_order server platform environment cluster.host_subsets about_reviews
      server-IsStore server-IsGuarded addresses calls none accepted.reconciler
    × ((loc : NamespacedName)
        → Returns (reconcile server platform environment accepted.cluster accepted.reconciler loc))
    × Returns (
        consume_metric framework in_order server platform environment cluster.host_subsets
          about_reviews accepted.cluster accepted.reconciler.metric_info received)
reachable-IsSafe_example =
    reachable-IsSafe framework in_order server platform environment cluster.host_subsets
      about_reviews server-IsStore server-IsGuarded addresses calls none start accepted received
      start-IsValidated (later here (request reviews begun.0.0 begun.0.1 begun.0.2 plain.0 begun.1))
      (((_, refl), tt), tt)
