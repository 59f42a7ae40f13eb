-- ===== src/Producer.antt =====
-- controllers/producer.go: the queries that are asked of the metric source, and the static metadata
-- that comes back with the answers. A query map that is nil is an empty one here.
pub mod Pods
pub mod Ticker
pub mod Queries
pub mod Meta
use limiter.Prelude.{
  ℕ, ℤ, pos, List, [], ◌∷◌, ◌++◌, Bool, true, false, Option, none, some, if◌then◌else◌, is_empty,
  length, map, keep_if, not, Go, ret, panic, ◌>>=◌,
}
use limiter.Text.{Text, text, ◌==◌}
use limiter.Text.Split.{split, join}
use limiter.Text.Search.{contains}
use limiter.Text.Replace.{replace_all}
use limiter.GoMap.{GoMap, get, set, set_all, push, keys, Runtime}
use limiter.Api.{NamespacedName}
use limiter.Framework.{Framework}
use limiter.Environment.{Environment, is_adaptive}
use limiter.Filters.{Subset}
use limiter.Process.Metrics.{StaticMeta, resource_key}
use limiter.Reconciler.{Reconciler}

-- `v1.Pod`
pub record Pod : Type 0 where
  pub name : Text
  pub labels : GoMap Text
  pub is_deleted : Bool

-- `metric.Handler`
pub record Handler : Type 0 where
  pub name : Text
  pub query : Text

abbrev pub QueryMap : Type 0
QueryMap = GoMap (List Handler)

-- `Prometheus_Source_Handler` of the framework's configuration
pub data SourceType : Type 0 where
  value_type group_type : SourceType

pub record SourceHandler : Type 0 where
  pub query : Text
  pub source_type : SourceType

-- What is called: the API server's services and pods with `none` for an error, `util.IsContain`, and
-- `json.Marshal` of the metadata, with the empty text for an error.
pub record Calls : Type 0 where
  pub get_selector : NamespacedName → Option (GoMap Text)
  pub list_pods : Text → GoMap Text → Option (List Pod)
  pub is_contain : GoMap Text → GoMap Text → Bool
  pub meta_text : StaticMeta → Text

pub query_service_pods : Calls → NamespacedName → Option (List Pod)
query_service_pods calls loc = elim (calls.get_selector loc) [
  | none ↦ none
  | some selector ↦ elim (calls.list_pods loc.namespace selector) [
    | none ↦ none
    | some items ↦ some (keep_if (λ pod. not pod.is_deleted) items)
  ]
]

append_to_subsets : Calls → GoMap (List Text) → Pod → List Subset → GoMap (List Text)
append_to_subsets calls m pod [] = m
append_to_subsets calls m pod (sb ∷ sbs) =
    append_to_subsets calls
      (if calls.is_contain pod.labels sb.labels then push m sb.name pod.name else m) pod sbs

assign_pods : Calls → GoMap (List Text) → List Pod → List Subset → GoMap (List Text)
unfolding append_to_subsets
assign_pods calls m [] sbs = m
assign_pods calls m (pod ∷ pods) sbs =
    assign_pods calls (append_to_subsets calls m pod sbs) pods sbs

append_to_base : Framework → GoMap (List Text) → List Pod → GoMap (List Text)
append_to_base fw m [] = m
append_to_base fw m (pod ∷ pods) = append_to_base fw (push m fw.base_set pod.name) pods

module _ (fw : Framework) (calls : Calls) (host_subsets : Text → Option (List Subset)) where
  pub query_subset_pods : List Pod → NamespacedName → GoMap (List Text)
  unfolding assign_pods append_to_base
  query_subset_pods pods loc =
      let assigned : GoMap (List Text) =
        elim (host_subsets (fw.unity_host loc.name loc.namespace)) [
          | none ↦ []
          | some sbs ↦ assign_pods calls [] pods sbs
        ] in
      append_to_base fw assigned pods

module _ (go : Runtime) where
  count_pods : List (Text × List Text) → GoMap ℤ → GoMap ℤ
  count_pods [] n_pod = n_pod
  count_pods ((k, v) ∷ es) n_pod =
      count_pods es (if is_empty v then n_pod else set n_pod (k ++ text ".pod") (pos (length v)))

  pub generate_meta : GoMap (List Text) → NamespacedName → StaticMeta
  unfolding count_pods
  generate_meta subsets_pods loc = record {
    name = loc.name;
    namespace = loc.namespace;
    n_pod = count_pods (go.range (List Text) subsets_pods) [];
    is_group = [];
  }

  pub replace_query_string :
      Text → Text → SourceType → NamespacedName → GoMap (List Text) → List Handler × GoMap Bool
  replace_query_string metric_name query group_type loc subsets_pods =
      let q = replace_all query (text "$namespace") loc.namespace in
      (record { name = metric_name; query = q } ∷ [], (metric_name, true) ∷ [])
  replace_query_string metric_name query value_type loc subsets_pods =
      let q = replace_all query (text "$namespace") loc.namespace in
      let hs : List Handler =
        map
          (λ e. record {
            name = e.0 ++ (text "." ++ metric_name);
            query = replace_all q (text "$pod_name") (join e.1 (text "|"));
          })
          (go.range (List Text) subsets_pods) in
      if contains q (text "$pod_name")
      then (hs, set_all [] (map (λ h. (h.name, false)) hs))
      else (record { name = metric_name; query = q } ∷ [], (metric_name, false) ∷ [])

  -- The loop over the handlers: the queries of each replace those of the one before.
  add_handlers :
      NamespacedName
      → GoMap (List Text)
      → List (Text × SourceHandler)
      → List Handler
      → StaticMeta
      → List Handler × StaticMeta
  add_handlers loc subsets_pods [] queries meta = (queries, meta)
  add_handlers loc subsets_pods ((name, handler) ∷ hs) queries meta =
      let (queries', is_group) =
        replace_query_string name handler.query handler.source_type loc subsets_pods in
      let meta' : StaticMeta = record meta {
        is_group = set_all meta.is_group (go.range Bool is_group);
      } in
      elim (is_empty handler.query) [
        | true ↦ add_handlers loc subsets_pods hs queries meta
        | false ↦ add_handlers loc subsets_pods hs queries' meta'
      ]

  unfoldable pub generate_query_string :
      Calls → GoMap (List Text) → NamespacedName → GoMap SourceHandler → QueryMap
  unfolding add_handlers
  generate_query_string calls subsets_pods loc handlers =
      let (queries, meta) =
        add_handlers loc subsets_pods (go.range SourceHandler handlers) []
          (generate_meta subsets_pods loc) in
      let meta_info = calls.meta_text meta in
      if is_empty meta_info then [] else (meta_info, queries) ∷ []

  module _ (fw : Framework) (calls : Calls) (host_subsets : Text → Option (List Subset))
      (env : Environment) (source_handlers : Option (GoMap SourceHandler)) where
    handle_local_event : NamespacedName → QueryMap
    handle_local_event loc = elim (query_service_pods calls loc) [
      | none ↦ []
      | some pods ↦
          let meta = generate_meta (query_subset_pods fw calls host_subsets pods loc) loc in
          let meta_info = calls.meta_text meta in
          if is_empty meta_info then [] else (meta_info, []) ∷ []
    ]

    -- `source_handlers` is none if a part of the configuration on the way to them is nil.
    handle_prometheus_event : NamespacedName → QueryMap
    handle_prometheus_event loc = elim source_handlers [
      | none ↦ []
      | some handlers ↦ elim (query_service_pods calls loc) [
        | none ↦ []
        | some pods ↦
            generate_query_string calls (query_subset_pods fw calls host_subsets pods loc) loc
              handlers
      ]
    ]

    pub handle_event : Reconciler → NamespacedName → QueryMap
    unfolding handle_local_event handle_prometheus_event
    handle_event r loc = elim (get r.interest (resource_key loc)) [
      | none ↦ []
      | some _ ↦ if is_adaptive env then handle_prometheus_event loc else handle_local_event loc
    ]

    pub handle_watcher_event : Reconciler → NamespacedName → QueryMap
    unfolding handle_event
    handle_watcher_event r loc = handle_event r loc

    -- `item[0]` and `item[1]`
    loc_of_parts : List Text → Go NamespacedName
    loc_of_parts (namespace ∷ name ∷ parts) = ret (record { name = name; namespace = namespace })
    loc_of_parts parts = panic

    add_events : Reconciler → List Text → QueryMap → Go QueryMap
    unfolding loc_of_parts
    add_events r [] query_map = ret query_map
    add_events r (k ∷ ks) query_map = loc_of_parts (split k b'/') >>= λ loc.
        add_events r ks (set_all query_map (go.range (List Handler) (handle_event r loc)))

    pub handle_ticker_event : Reconciler → Go QueryMap
    unfolding add_events
    handle_ticker_event r = add_events r (keys (go.range (Unit {0}) r.interest)) []
