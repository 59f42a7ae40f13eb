-- ===== src/Producer/Ticker.antt =====
-- What the ticker asks for: the queries of everything in the interest map.
use limiter.Prelude.{◌≡◌, refl, ap, ◌∙◌, List, [], ◌∷◌, Option, All, map, ret, ◌>>=◌}
use limiter.Text.{Text, text}
use limiter.Text.Split.{split, Lacks, split-append, split-Lacks}
use limiter.GoMap.{GoMap, set_all, keys, Runtime}
use limiter.Api.{NamespacedName}
use limiter.Framework.{Framework}
use limiter.Environment.{Environment}
use limiter.Filters.{Subset}
use limiter.Process.Metrics.{resource_key}
use limiter.Reconciler.{Reconciler}
use limiter.Producer.{
  Calls, Handler, QueryMap, SourceHandler, handle_event, loc_of_parts, add_events,
  handle_ticker_event,
}

-- No name of Kubernetes has a slash.
abbrev pub IsPlain : NamespacedName → Type 0
IsPlain loc = Lacks b'/' loc.namespace × Lacks b'/' loc.name

split-resource_key :
    (loc : NamespacedName)
    → IsPlain loc
    → split (resource_key loc) b'/' ≡ loc.namespace ∷ loc.name ∷ []
unfolding text
split-resource_key loc (ns, n) =
    split-append loc.namespace loc.name b'/' ns
    ∙ ap (λ l. loc.namespace ∷ l) (split-Lacks loc.name b'/' n)

module _ (go : Runtime) (fw : Framework) (calls : Calls)
    (host_subsets : Text → Option (List Subset)) (env : Environment)
    (source_handlers : Option (GoMap SourceHandler)) (r : Reconciler) where
  -- The query maps of some resources, written one over the other.
  abbrev pub merge_events : List NamespacedName → QueryMap → QueryMap
  merge_events [] query_map = query_map
  merge_events (loc ∷ locs) query_map = merge_events locs (
      set_all query_map
        (go.range (List Handler) (handle_event go fw calls host_subsets env source_handlers r loc)))

  add_events-merge_events :
      (locs : List NamespacedName) (query_map : QueryMap)
      → All IsPlain locs
      → add_events go fw calls host_subsets env source_handlers r (map resource_key locs) query_map
        ≡ ret (merge_events locs query_map)
  unfolding add_events
  add_events-merge_events [] query_map h = refl
  add_events-merge_events (loc ∷ locs) query_map h =
      ap
        (λ parts. loc_of_parts go fw calls host_subsets env source_handlers parts >>= λ l.
          add_events go fw calls host_subsets env source_handlers r (map resource_key locs) (
            set_all query_map (
              go.range (List Handler)
                (handle_event go fw calls host_subsets env source_handlers r l))))
        (split-resource_key loc h.0)
      ∙ add_events-merge_events locs
          (set_all query_map (
            go.range (List Handler)
              (handle_event go fw calls host_subsets env source_handlers r loc)))
          h.1

  -- If the keys of the interest map are those of some resources, none of which has a slash in its
  -- namespace or its name, then the ticker's handler does not panic: it returns the query maps of
  -- these resources, each written over those before it.
  pub handle_ticker_event-merge_events :
      (locs : List NamespacedName)
      → keys (go.range (Unit {0}) r.interest) ≡ map resource_key locs
      → All IsPlain locs
      → handle_ticker_event go fw calls host_subsets env source_handlers r
        ≡ ret (merge_events locs [])
  unfolding handle_ticker_event
  handle_ticker_event-merge_events locs e h =
      ap (λ ks. add_events go fw calls host_subsets env source_handlers r ks []) e
      ∙ add_events-merge_events locs [] h
