-- ===== src/System/Safety.antt =====
-- What holds in every state that the controller reaches.
use limiter.Prelude.{◌≡◌, refl, subst, List, [], ◌∷◌, Option, Go, ret, map, Returns, Yields, All}
use mathlib.Core.Path.{ap₂}
use mathlib.Core.List.Permᴰ
use limiter.Text.{Text}
use limiter.GoMap.{GoMap, keys, Runtime}
use limiter.GoMap.Range.{All-perm}
use limiter.Api.{NamespacedName}
use limiter.Framework.{Framework}
use limiter.Environment.{Environment}
use limiter.Server.{Server, Platform, IsStore}
use limiter.Filters.{Subset}
use limiter.Process.Metrics.{StaticMeta, Result, resource_key}
use limiter.Process.Metrics.Infos.{IsMap, HasInfos}
use limiter.Process.Refresh.{consume_metric}
use limiter.Process.Refresh.Consume.{HasValues, consume_metric-HasInfos}
use limiter.Process.Refresh.Guarded.{IsValidated, IsGuarded}
use limiter.Reconciler.{Reconciler, reconcile}
use limiter.Reconciler.Panics.{reconcile-IsValidated}
use limiter.Reconciler.Tables.{Tabled, reconcile-Tabled}
use limiter.Producer.{Calls, SourceHandler, handle_ticker_event}
use limiter.Producer.Ticker.{IsPlain, merge_events, handle_ticker_event-merge_events}
use limiter.Startup.{PrometheusLib, new_maps}
use limiter.System.{System, Step, request, metric, elsewhere, Reach, here, later}

-- The key is that of a resource whose name and namespace have no slash.
abbrev pub IsOwned : Text × Unit {0} → Type 0
IsOwned e = (loc : NamespacedName) × (e.0 ≡ resource_key loc) × IsPlain loc

-- Entries with such keys are those of a list of resources.
names_of :
    (m : GoMap (Unit {0}))
    → All IsOwned m
    → (locs : List NamespacedName) × (keys m ≡ map resource_key locs) × All IsPlain locs
names_of [] h = ([], refl, tt)
names_of ((k, u) ∷ m) ((loc, e, plain), h) =
    let (locs, same, all_plain) = names_of m h in (loc ∷ locs, ap₂ (◌∷◌) e same, (plain, all_plain))

module _ (fw : Framework) (go : Runtime) (srv : Server) (p : Platform) (env : Environment)
    (host_subsets : Text → Option (List Subset)) (unmarshal_meta : Text → Option StaticMeta)
    (st : IsStore srv) (guard : IsGuarded srv p) where
  -- The interest map has keys of resources, no recorded metrics are nil, and no resource of the
  -- cluster has null parts.
  abbrev IsSound : System fw go srv p env host_subsets unmarshal_meta → Type 0
  IsSound t = Tabled IsOwned (λ e. IsMap e.1.info) t.reconciler × IsValidated srv p t.cluster

  yielded : {A : Type 0} (P : A → Type 0) (m : Go A) (a : A) → Yields P m → m ≡ ret a → P a
  yielded P m a (x, e, h) e' = let same : x ≡ a = cc in subst P same h

  Step-IsSound :
      {t u : System fw go srv p env host_subsets unmarshal_meta}
      → Step fw go srv p env host_subsets unmarshal_meta t u
      → IsSound t
      → IsSound u
  Step-IsSound {t} (request loc s r e plain done) h = (
    reconcile-Tabled IsOwned (λ e. IsMap e.1.info) srv p env loc (loc, refl, plain) t.cluster s
        t.reconciler r e done h.0,
    yielded (λ x. IsValidated srv p x.0) (reconcile srv p env t.cluster t.reconciler loc) (s, r, e)
        (reconcile-IsValidated srv p env guard t.cluster t.reconciler loc h.1) done,
  )
  Step-IsSound {t} (metric received s metric_info v e) h =
      let (after, infos) =
        yielded (λ x. IsValidated srv p x.0 × HasInfos x.1) _ (s, metric_info)
          (consume_metric-HasInfos fw go srv p env host_subsets st guard unmarshal_meta t.cluster
            t.reconciler.metric_info received v h.1 h.0.1)
          e in
      ((h.0.0, infos), after)
  Step-IsSound (elsewhere s v) h = (h.0, v)

  Reach-IsSound :
      {t u : System fw go srv p env host_subsets unmarshal_meta}
      → IsSound t
      → Reach fw go srv p env host_subsets unmarshal_meta t u
      → IsSound u
  Reach-IsSound h here = h
  Reach-IsSound h (later r st) = Step-IsSound st (Reach-IsSound h r)

  module _ (lib : PrometheusLib) (calls : Calls)
      (source_handlers : Option (GoMap SourceHandler)) where
    -- The ticker asks for the queries of some resources, and these make up the interest map.
    abbrev pub Ticks : Reconciler → Type 0
    Ticks r =
        (locs : List NamespacedName) × (keys (go.range (Unit {0}) r.interest)
          ≡ map resource_key locs)
        × (handle_ticker_event go fw calls host_subsets env source_handlers r
            ≡ ret (merge_events go fw calls host_subsets env source_handlers r locs []))

    ticks : (r : Reconciler) → All IsOwned r.interest → Ticks r
    ticks r h =
        let (locs, same, plain) =
          names_of (go.range (Unit {0}) r.interest)
            (All-perm IsOwned (Permᴰ.symm (go.range_perm (Unit {0}) r.interest)) h) in
        (
          locs,
          same,
          handle_ticker_event-merge_events go fw calls host_subsets env source_handlers r locs same
              plain,
        )

    -- Let the server keep what is written, and say that a cluster is valid if the configuration of
    -- the rate limit server, where it can be read, is not null and has no null item, and no
    -- SmartLimiter has a null set, descriptor or matcher or an action without an interval; let the
    -- controller's writes of filters, of items and of a valid SmartLimiter's status leave a valid
    -- cluster valid. Then in every state that is reached from a valid cluster and empty maps by
    -- requests for names without a slash, by delivered metrics without a nil map and by writes of
    -- others that leave the cluster valid, the ticker's handler does not panic and asks for the
    -- queries of exactly the resources in the interest map, no request panics, and the next metric
    -- without a nil map is consumed without a panic.
    pub reachable-IsSafe :
        (s : srv.State) (t : System fw go srv p env host_subsets unmarshal_meta)
        (received : GoMap (List Result))
        → IsValidated srv p s
        → Reach fw go srv p env host_subsets unmarshal_meta
            (record { cluster = s; reconciler = new_maps lib })
            t
        → HasValues received
        → Ticks t.reconciler
          × ((loc : NamespacedName) → Returns (reconcile srv p env t.cluster t.reconciler loc))
          × Returns (
              consume_metric fw go srv p env host_subsets unmarshal_meta t.cluster
                t.reconciler.metric_info received)
    reachable-IsSafe s t received valid reach v =
        let sound : IsSound t = Reach-IsSound ((tt, tt), valid) reach in
        let (r, e, h) =
          consume_metric-HasInfos fw go srv p env host_subsets st guard unmarshal_meta t.cluster
            t.reconciler.metric_info received v sound.1 sound.0.1 in
        (
          ticks t.reconciler sound.0.0,
          λ loc.
              let (x, made, w) =
                reconcile-IsValidated srv p env guard t.cluster t.reconciler loc sound.1 in
              (x, made),
          (r, e),
        )
