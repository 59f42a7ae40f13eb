-- ===== src/Examples/Producers.antt =====
-- The theorems on the producer at concrete inputs.
use limiter.Prelude.{
  List, [], ◌∷◌, ◌≡◌, ◌≢◌, refl, arith, Bool, true, false, none, some, ◌&&◌, map, keep_if, ret, All,
}
use limiter.Text.{Text, text, ◌==◌}
use limiter.GoMap.{GoMap, get, slice_at}
use limiter.GoMap.Range.{in_order}
use limiter.Environment.{Environment}
use limiter.Process.Metrics.{resource_key}
use limiter.Reconciler.{Reconciler, no_policy}
use limiter.Producer.{
  Pod, Calls, Handler, SourceHandler, value_type, query_subset_pods, generate_meta,
  replace_query_string, generate_query_string, handle_ticker_event,
}
use limiter.Producer.Pods.{query_subset_pods-pods}
use limiter.Producer.Ticker.{IsPlain, merge_events, handle_ticker_event-merge_events}
use limiter.Producer.Queries.{last_handler_only}
use limiter.Producer.Meta.{pod_key, counted, n_pod-generate_meta}
use limiter.Examples.{framework, reviews, v1, cluster}
use limiter.Examples.Filters.{other_name}

abbrev pods : List Pod
pods =
    record {
      name = text "reviews-1";
      labels = (text "version", text "v1") ∷ [];
      is_deleted = false;
    }
    ∷ record { name = text "reviews-2"; labels = []; is_deleted = false }
    ∷ []

pub has_labels : GoMap Text → GoMap Text → Bool
has_labels labels [] = true
has_labels labels ((k, v) ∷ wanted) =
    let rest = has_labels labels wanted in
    elim (get labels k) [ none ↦ false | some w ↦ v == w && rest ]

abbrev pub calls : Calls
calls = record {
  get_selector = λ loc. some [];
  list_pods = λ namespace selector. some pods;
  is_contain = has_labels;
  meta_text = λ meta. text "reviews";
}

other_way : text "v1" ≢ text "_base"
unfolding text
other_way e = absurd (cc)

query_subset_pods-pods_example :
    (slice_at (query_subset_pods framework calls cluster.host_subsets pods reviews) v1.name
      ≡ map (λ q. q.name) (keep_if (λ q. calls.is_contain q.labels v1.labels) pods))
    × (slice_at
          (query_subset_pods framework calls cluster.host_subsets pods reviews)
          framework.base_set
        ≡ map (λ q. q.name) pods)
query_subset_pods-pods_example =
    query_subset_pods-pods calls framework cluster.host_subsets pods reviews [] [] v1 refl (tt, tt)
      (other_way, tt) other_name

abbrev subsets_pods : GoMap (List Text)
subsets_pods = (text "v1", text "reviews-1" ∷ []) ∷ []

n_pod-generate_meta_example :
    get (generate_meta in_order subsets_pods reviews).n_pod (pod_key (text "v1"))
    ≡ counted (get subsets_pods (text "v1")) none
n_pod-generate_meta_example =
    n_pod-generate_meta in_order subsets_pods reviews (text "v1") (unfold get in refl, tt)

abbrev cpu_max : SourceHandler
cpu_max = record { query = text "max(cpu)"; source_type = value_type }

abbrev queries : List Handler
queries =
    (replace_query_string in_order (text "cpu.max") cpu_max.query cpu_max.source_type reviews
      subsets_pods).0

cpu_generated :
    get
      (generate_query_string in_order calls subsets_pods reviews ((text "cpu.max", cpu_max) ∷ []))
      (text "reviews")
    ≡ some queries
unfolding generate_query_string get text ◌==◌
cpu_generated = refl

last_handler_only_example :
    queries
    ≡ (replace_query_string in_order
        (text "cpu.max")
        cpu_max.query
        cpu_max.source_type
        reviews
        subsets_pods).0
last_handler_only_example =
    last_handler_only in_order reviews subsets_pods calls ((text "cpu.max", cpu_max) ∷ []) []
      (text "cpu.max") cpu_max (text "reviews") queries refl (unfold text in refl) cpu_generated

abbrev pub environment : Environment
environment = record {
  limiter = some (record { disable_global_rate_limit = false; disable_adaptive = false });
  rev_in_scope = λ rev. true;
}

abbrev interested : Reconciler
interested = record {
  interest = (resource_key reviews, tt) ∷ [];
  metric_info = [];
  last_update_policy = no_policy;
}

pub plain : All IsPlain (reviews ∷ [])
unfolding text
plain = ground arith

handle_ticker_event-merge_events_example :
    handle_ticker_event in_order framework calls cluster.host_subsets environment
      (some ((text "cpu.max", cpu_max) ∷ []))
      interested
    ≡ ret (
        merge_events in_order framework calls cluster.host_subsets environment
          (some ((text "cpu.max", cpu_max) ∷ []))
          interested
          (reviews ∷ [])
          [])
handle_ticker_event-merge_events_example =
    handle_ticker_event-merge_events in_order framework calls cluster.host_subsets environment
      (some ((text "cpu.max", cpu_max) ∷ [])) interested (reviews ∷ []) refl plain
