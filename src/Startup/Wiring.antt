-- ===== src/Startup/Wiring.antt =====
-- What the process starts with, or that it exits.
use limiter.Prelude.{
  ◌≡◌, ◌⊎◌, refl, ap, sym, subst, inl, inr, true, false, Bool, Option, none, some, Bool-cases,
  Option-cases,
}
use limiter.Environment.{Environment, is_adaptive}
use limiter.Startup.{
  Prometheus, PrometheusLib, watcher_events, ticker_events, ConfigError, Started, ProducerConfig,
  Manager, new_maps, new_prometheus_source_config, new_producer_config, with_handlers,
  new_reconciler, init_manager, default_producer_config,
}

module _ (lib : PrometheusLib) (mgr : Manager) (env : Environment)
    (prometheus : Option Prometheus) where
  -- No client of Prometheus can be made.
  abbrev pub HasNoClient : Type 0
  HasNoClient =
      (prometheus ≡ none)
      ⊎ ((p : Prometheus) × (prometheus ≡ some p) × (lib.new_client p.address ≡ none))

  -- With adaptive limits the metrics come from Prometheus, and without from the mock source.
  abbrev pub HasSource : Bool → ProducerConfig lib → Type 0
  HasSource true pc =
      (pc.enable_prometheus_source ≡ true)
      × (pc.enable_mock_source ≡ false)
      × (pc.enable_watcher_producer ≡ true)
      × ((p : Prometheus) × (client : lib.Client) × (prometheus ≡ some p)
          × (lib.new_client p.address ≡ some client)
          × (pc.prometheus_source ≡ some (lib.new_api client)))
  HasSource false pc =
      (pc.enable_prometheus_source ≡ false)
      × (pc.enable_mock_source ≡ true)
      × (pc.enable_watcher_producer ≡ false)
      × (pc.prometheus_source ≡ none)

  -- The reconciler starts empty and reads from the channels to which the producers write; each
  -- producer asks its own handler.
  abbrev pub IsWired : Started lib → Type 0
  IsWired st =
      (st.reconciler ≡ new_maps lib)
      × (st.watcher_metric_chan ≡ st.producer.watcher.metric_chan)
      × (st.ticker_metric_chan ≡ st.producer.ticker.metric_chan)
      × (st.producer.watcher.need_update_metric_handler ≡ some watcher_events)
      × (st.producer.ticker.need_update_metric_handler ≡ some ticker_events)
      × (st.producer.enable_ticker_producer ≡ true)
      × HasSource (is_adaptive env) st.producer

  abbrev pub Made : Option (Started lib) → Type 0
  Made none = (is_adaptive env ≡ true) × HasNoClient
  Made (some st) = IsWired st

  -- The source, or why there is none.
  abbrev Sourced : ConfigError ⊎ lib.Api → Type 0
  Sourced (inl e) = HasNoClient
  Sourced (inr api) =
      (p : Prometheus) × (client : lib.Client) × (prometheus ≡ some p)
      × (lib.new_client p.address ≡ some client)
      × (api ≡ lib.new_api client)

  sourced : (o : Option Prometheus) → prometheus ≡ o → Sourced (new_prometheus_source_config lib o)
  unfolding new_prometheus_source_config
  sourced none e = inl e
  sourced (some p) e = elim (Option-cases (lib.new_client p.address)) [
    | inl f ↦ rw (f, new_prometheus_source_config) (inr (p, e, f))
    | inr (client, f) ↦ rw (f, new_prometheus_source_config) (p, client, e, f, refl)
  ]

  abbrev started_with : ProducerConfig lib → Started lib
  started_with pc = record {
    reconciler = new_maps lib;
    watcher_metric_chan = pc.watcher.metric_chan;
    ticker_metric_chan = pc.ticker.metric_chan;
    producer = with_handlers lib pc;
  }

  abbrev with_prometheus : lib.Api → ProducerConfig lib
  with_prometheus api = record (default_producer_config lib) {
    prometheus_source = some api;
    enable_prometheus_source = true;
    enable_watcher_producer = true;
  }

  with_source :
      (r : ConfigError ⊎ lib.Api)
      → is_adaptive env ≡ true
      → new_prometheus_source_config lib prometheus ≡ r
      → Sourced r
      → Made (new_reconciler lib env prometheus)
  unfolding new_reconciler new_producer_config with_handlers default_producer_config
  with_source (inl e) a f no_client =
      let made : new_producer_config lib env prometheus ≡ inl e = rw a (rw f refl) in
      let exits : new_reconciler lib env prometheus ≡ none = rw (made, new_reconciler) refl in
      subst Made (sym exits) (a, no_client)
  with_source (inr api) a f (p, client, g, h, same) =
      let made : new_producer_config lib env prometheus ≡ inr (with_prometheus api) =
        rw a (rw f refl) in
      let started : new_reconciler lib env prometheus ≡ some (started_with (with_prometheus api)) =
        rw (made, new_reconciler) refl in
      subst Made (sym started) (
        refl,
        refl,
        refl,
        refl,
        refl,
        refl,
        subst (λ b. HasSource b (with_handlers lib (with_prometheus api))) (sym a)
            (refl, refl, refl, (p, client, g, h, ap some same)),
      )

  without_source : is_adaptive env ≡ false → Made (new_reconciler lib env prometheus)
  unfolding new_reconciler new_producer_config with_handlers default_producer_config
  without_source a =
      let pc : ProducerConfig lib = record (default_producer_config lib) {
        enable_mock_source = true;
      } in
      let made : new_producer_config lib env prometheus ≡ inr pc = rw a refl in
      let started : new_reconciler lib env prometheus ≡ some (started_with pc) =
        rw (made, new_reconciler) refl in
      subst Made (sym started) (
        refl,
        refl,
        refl,
        refl,
        refl,
        refl,
        subst (λ b. HasSource b (with_handlers lib pc)) (sym a) (refl, refl, refl, refl),
      )

  new_reconciler-Made : Made (new_reconciler lib env prometheus)
  new_reconciler-Made = elim (Bool-cases (is_adaptive env)) [
    | inl a ↦
        with_source (new_prometheus_source_config lib prometheus) a refl (sourced prometheus refl)
    | inr a ↦ without_source a
  ]

  -- A registration of the manager fails.
  abbrev pub HasRefused : mgr.State → Type 0
  HasRefused s =
      ((mgr.add_smart_limiters s).1 ≡ true)
      ⊎ ((mgr.add_destination_rules (mgr.add_smart_limiters s).0).1 ≡ true)

  -- Both registrations were done without an error, in their order.
  abbrev pub Begun : mgr.State → Option (mgr.State × Started lib) → Type 0
  Begun s none = ((is_adaptive env ≡ true) × HasNoClient) ⊎ HasRefused s
  Begun s (some (s', st)) =
      (s' ≡ (mgr.add_destination_rules (mgr.add_smart_limiters s).0).0)
      × ((mgr.add_smart_limiters s).1 ≡ false)
      × ((mgr.add_destination_rules (mgr.add_smart_limiters s).0).1 ≡ false)
      × IsWired st

  begun :
      (s : mgr.State) (r : Option (Started lib))
      → new_reconciler lib env prometheus ≡ r
      → Made r
      → Begun s (init_manager lib mgr s env prometheus)
  unfolding init_manager
  begun s none e made =
      let r : init_manager lib mgr s env prometheus ≡ none = rw (e, init_manager) refl in
      subst (Begun s) (sym r) (inl made)
  begun s (some st) e made = elim (Bool-cases (mgr.add_smart_limiters s).1) [
    | inl f ↦
        let r : init_manager lib mgr s env prometheus ≡ none = rw (e, init_manager) (rw f refl) in
        subst (Begun s) (sym r) (inr (inl f))
    | inr f ↦
        let s' = (mgr.add_destination_rules (mgr.add_smart_limiters s).0).0 in
        elim (Bool-cases (mgr.add_destination_rules (mgr.add_smart_limiters s).0).1) [
          | inl g ↦
              let r : init_manager lib mgr s env prometheus ≡ none =
                rw (e, init_manager) (rw f (rw g refl)) in
              subst (Begun s) (sym r) (inr (inr g))
          | inr g ↦
              let r : init_manager lib mgr s env prometheus ≡ some (s', st) =
                rw (e, init_manager) (rw f (rw g refl)) in
              subst (Begun s) (sym r) (refl, f, g, made)
        ]
  ]

  -- The process exits only if adaptive limits are on and no client of Prometheus can be made, or if
  -- the manager refuses one of the two registrations. Else both are done without an error, the
  -- reconciler starts with empty maps on the channels of its producers, each producer asks its own
  -- handler, and the metrics come from Prometheus if adaptive limits are on, and from the mock
  -- source if not.
  pub init_manager-Begun : (s : mgr.State) → Begun s (init_manager lib mgr s env prometheus)
  init_manager-Begun s = begun s (new_reconciler lib env prometheus) refl new_reconciler-Made
