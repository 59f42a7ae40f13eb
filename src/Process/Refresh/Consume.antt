-- ===== src/Process/Refresh/Consume.antt =====
-- `ConsumeMetric` on what a producer delivers.
use limiter.Prelude.{
  ◌≡◌, refl, List, [], ◌∷◌, Option, none, some, Go, ret, ◌>>=◌, Yields, Yields-bind, All,
  Option-cases, inl, inr,
}
use limiter.Text.{Text}
use limiter.GoMap.{GoMap, Runtime}
use mathlib.Core.List.Permᴰ
use limiter.GoMap.Range.{All-perm}
use limiter.Api.{NamespacedName, is_not_found, other_error, Fetched, found, failed}
use limiter.Framework.{Framework}
use limiter.Environment.{Environment}
use limiter.Server.{Server, Platform, SmartLimiter, IsStore}
use limiter.Filters.{Subset}
use limiter.Process.Metrics.{StaticMeta, Result, Endpoints, metric_info_of, record_metrics}
use limiter.Process.Metrics.Infos.{
  IsMap, HasValue, HasInfos, metric_info_of-IsMap, record_metrics-HasInfos,
}
use limiter.Process.Refresh.{
  Failure, read_failed, refresh, refresh_request, consume_results, consume_entries, consume_metric,
}
use limiter.Process.Refresh.Guarded.{IsValidated, IsGuarded, refresh-IsValidated}

-- No result that is delivered is the nil map.
abbrev pub HasValues : List (Text × List Result) → Type 0
HasValues metric = All (λ e. All HasValue e.1) metric

module _ (fw : Framework) (go : Runtime) (srv : Server) (p : Platform) (env : Environment)
    (host_subsets : Text → Option (List Subset)) (st : IsStore srv) (guard : IsGuarded srv p) where
  refresh_request-HasInfos :
      (s : srv.State) (metric_info : GoMap Endpoints) (loc : NamespacedName)
      (args : Option (GoMap Text))
      → IsMap args
      → IsValidated srv p s
      → HasInfos metric_info
      → Yields
          (λ r. IsValidated srv p r.0 × HasInfos r.1)
          (refresh_request fw go srv p env host_subsets s metric_info loc args)
  unfolding refresh_request
  refresh_request-HasInfos s metric_info loc args m v h =
      Yields-bind (record_metrics go metric_info loc args) _
        (record_metrics-HasInfos go metric_info loc args m h)
        (λ recorded _ h'. by_read recorded h' (srv.get_smart_limiter s loc) refl)
    where
      answered :
          GoMap Endpoints → Fetched SmartLimiter → Go (srv.State × GoMap Endpoints × Option Failure)
      answered recorded r = elim r [
        | failed e ↦ elim e [
          | is_not_found ↦ ret (s, recorded, none)
          | other_error ↦ ret (s, recorded, some (read_failed other_error))
        ]
        | found instance_of ↦ do
          (s1, e) ← refresh fw go srv p env host_subsets s recorded instance_of
          ret (s1, recorded, e)
      ]

      by_read :
          (recorded : GoMap Endpoints)
          → HasInfos recorded
          → (r : Fetched SmartLimiter) → srv.get_smart_limiter s loc ≡ r
          → Yields (λ r. IsValidated srv p r.0 × HasInfos r.1) (answered recorded r)
      by_read recorded h' (failed is_not_found) e = (_, refl, (v, h'))
      by_read recorded h' (failed other_error) e = (_, refl, (v, h'))
      by_read recorded h' (found i) e =
          let (r, same, v') =
            refresh-IsValidated fw go srv p env host_subsets st guard s recorded i (v.1 loc i e)
              v in
          rw same ((r.0, recorded, r.1), refl, (v', h'))

  module _ (unmarshal_meta : Text → Option StaticMeta) where
    abbrev Keeps : Go (srv.State × GoMap Endpoints) → Type 0
    Keeps m = Yields (λ r. IsValidated srv p r.0 × HasInfos r.1) m

    consume_results-Keeps :
        (s : srv.State) (metric_info : GoMap Endpoints) (meta_info : Text) (results : List Result)
        → All HasValue results
        → IsValidated srv p s
        → HasInfos metric_info
        → Keeps (
            consume_results fw go srv p env host_subsets unmarshal_meta s metric_info meta_info
              results)
    unfolding consume_results
    consume_results-Keeps s metric_info meta_info results v w h =
        elim (Option-cases (unmarshal_meta meta_info)) [
          | inl e ↦ rw (e, consume_results) ((s, metric_info), refl, (w, h))
          | inr (meta, e) ↦
              rw (e, consume_results)
                (Yields-bind (metric_info_of go meta results) _
                  (metric_info_of-IsMap go meta results v)
                  (λ info _ m.
                    Yields-bind
                      (refresh_request fw go srv p env host_subsets s metric_info
                        (record { name = meta.name; namespace = meta.namespace }) info)
                      _ (refresh_request-HasInfos s metric_info _ info m w h)
                      (λ r _ h'. ((r.0, r.1), refl, h'))))
        ]

    consume_entries-Keeps :
        (s : srv.State) (metric_info : GoMap Endpoints) (entries : List (Text × List Result))
        → HasValues entries
        → IsValidated srv p s
        → HasInfos metric_info
        → Keeps (consume_entries fw go srv p env host_subsets unmarshal_meta s metric_info entries)
    unfolding consume_entries
    consume_entries-Keeps s metric_info [] v w h = ((s, metric_info), refl, (w, h))
    consume_entries-Keeps s metric_info ((meta_info, results) ∷ entries) v w h =
        Yields-bind
          (consume_results fw go srv p env host_subsets unmarshal_meta s metric_info meta_info
            results)
          _ (consume_results-Keeps s metric_info meta_info results v.0 w h)
          (λ r _ h'. consume_entries-Keeps r.0 r.1 entries v.1 h'.0 h'.1)

    pub consume_metric-HasInfos :
        (s : srv.State) (metric_info : GoMap Endpoints) (metric : GoMap (List Result))
        → HasValues metric
        → IsValidated srv p s
        → HasInfos metric_info
        → Keeps (consume_metric fw go srv p env host_subsets unmarshal_meta s metric_info metric)
    unfolding consume_metric
    consume_metric-HasInfos s metric_info metric v w h =
        consume_entries-Keeps s metric_info (go.range (List Result) metric)
          (All-perm _ (Permᴰ.symm (go.range_perm (List Result) metric)) v) w h
