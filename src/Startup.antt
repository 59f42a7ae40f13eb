-- ===== src/Startup.antt =====
-- controllers/smartlimiter_controller.go, `NewReconciler` and `newProducerConfig`;
-- controllers/producer.go, `newPrometheusSourceConfig`; and module/module.go: how the controller is
-- put together. The channels and the handlers are named here; the producer that runs on them is the
-- framework's.
pub mod Wiring
use limiter.Prelude.{
  ℕ, List, [], ◌∷◌, Bool, true, false, Option, none, some, ◌⊎◌, inl, inr, if◌then◌else◌,
}
use limiter.Text.{Text, text}
use limiter.GoMap.{GoMap}
use limiter.Environment.{Limiter, Environment, is_adaptive}
use limiter.Reconciler.{Reconciler, no_policy}
use limiter.Producer.{SourceHandler}

-- The Prometheus part of the framework's configuration, `env.Config.Metric.Prometheus`.
pub record Prometheus : Type 0 where
  pub address : Text
  pub handlers : Option (GoMap SourceHandler)

-- The client library, with `none` for an error.
pub record PrometheusLib : Type 1 where
  pub Client : Type 0
  pub Api : Type 0
  pub new_client : Text → Option Client
  pub new_api : Client → Api

-- `NeedUpdateMetricHandler` of a producer: the methods `handleWatcherEvent` and `handleTickerEvent`
pub data EventHandler : Type 0 where
  watcher_events ticker_events : EventHandler

-- The channels that `newProducerConfig` makes for metrics.
pub data MetricChannel : Type 0 where
  watcher_metrics ticker_metrics : MetricChannel

pub record GroupVersionKind : Type 0 where
  pub group : Text
  pub version : Text
  pub kind : Text

-- `metric.WatcherProducerConfig` with its trigger's kinds
pub record WatcherProducerConfig : Type 0 where
  pub name : Text
  pub metric_chan : MetricChannel
  pub kinds : List GroupVersionKind
  pub need_update_metric_handler : Option EventHandler

-- `metric.TickerProducerConfig` with its trigger's durations, in seconds
pub record TickerProducerConfig : Type 0 where
  pub name : Text
  pub metric_chan : MetricChannel
  pub durations : List ℕ
  pub need_update_metric_handler : Option EventHandler

pub data ConfigError : Type 0 where
  empty_prometheus_config client_error : ConfigError

module _ (lib : PrometheusLib) where
  -- `metric.ProducerConfig`, without the channels of events and of the stop signal
  pub record ProducerConfig : Type 0 where
    pub enable_watcher_producer : Bool
    pub watcher : WatcherProducerConfig
    pub enable_ticker_producer : Bool
    pub ticker : TickerProducerConfig
    pub prometheus_source : Option lib.Api
    pub enable_prometheus_source : Bool
    pub enable_mock_source : Bool

  pub new_prometheus_source_config : Option Prometheus → ConfigError ⊎ lib.Api
  new_prometheus_source_config none = inl empty_prometheus_config
  new_prometheus_source_config (some prometheus) = elim (lib.new_client prometheus.address) [
    | none ↦ inl client_error
    | some client ↦ inr (lib.new_api client)
  ]

  -- Before a source is chosen.
  default_producer_config : ProducerConfig
  default_producer_config = record {
    enable_watcher_producer = false;
    watcher = record {
      name = text "smartLimiter-watcher";
      metric_chan = watcher_metrics;
      kinds = record { group = []; version = text "v1"; kind = text "Endpoints" } ∷ [];
      need_update_metric_handler = none;
    };
    enable_ticker_producer = true;
    ticker = record {
      name = text "smartLimiter-ticker";
      metric_chan = ticker_metrics;
      durations = 30 ∷ [];
      need_update_metric_handler = none;
    };
    prometheus_source = none;
    enable_prometheus_source = false;
    enable_mock_source = false;
  }

  pub new_producer_config : Environment → Option Prometheus → ConfigError ⊎ ProducerConfig
  unfolding new_prometheus_source_config default_producer_config
  new_producer_config env prometheus =
      if is_adaptive env
      then (elim (new_prometheus_source_config prometheus) [
        | inl e ↦ inl e
        | inr api ↦ inr (record default_producer_config {
          prometheus_source = some api;
          enable_prometheus_source = true;
          enable_watcher_producer = true;
        })
      ])
      else inr (record default_producer_config { enable_mock_source = true })

  -- What runs once the reconciler is made: it reads from two channels, and the producer of the
  -- framework was started with its configuration.
  pub record Started : Type 0 where
    pub reconciler : Reconciler
    pub watcher_metric_chan : MetricChannel
    pub ticker_metric_chan : MetricChannel
    pub producer : ProducerConfig

  abbrev pub new_maps : Reconciler
  new_maps = record { interest = []; metric_info = []; last_update_policy = no_policy }

  -- The handlers are put into the configuration after it is made.
  with_handlers : ProducerConfig → ProducerConfig
  with_handlers pc = record pc {
    watcher = record pc.watcher { need_update_metric_handler = some watcher_events };
    ticker = record pc.ticker { need_update_metric_handler = some ticker_events };
  }

  -- `none` is the exit of the process.
  pub new_reconciler : Environment → Option Prometheus → Option Started
  unfolding new_producer_config with_handlers
  new_reconciler env prometheus = elim (new_producer_config env prometheus) [
    | inl e ↦ none
    | inr pc ↦ some (record {
      reconciler = new_maps;
      watcher_metric_chan = pc.watcher.metric_chan;
      ticker_metric_chan = pc.ticker.metric_chan;
      producer = with_handlers pc;
    })
  ]

-- The manager's state, and what registering a controller makes of it; true is an error.
pub record Manager : Type 1 where
  pub State : Type 0
  pub add_smart_limiters : State → State × Bool
  pub add_destination_rules : State → State × Bool

-- `SetupWithManager`
abbrev pub setup_with_manager : (mgr : Manager) → mgr.State → mgr.State × Bool
setup_with_manager mgr s = mgr.add_smart_limiters s

pub record Module : Type 0 where
  pub config : Limiter

abbrev pub module_name : Text
module_name = text "limiter"

pub kind : Module → Text
kind m = module_name

-- `ret := *m`; the configuration is a value here.
pub clone : Module → Module
clone m = record { config = m.config }

-- The functions that add the types of a library to the scheme, each with its error; the first error
-- ends the loop.
pub init_scheme {ℓ} : {E S : Type ℓ} → List (S → S × Option E) → S → S × Option E
init_scheme [] s = (s, none)
init_scheme (f ∷ fs) s = elim (f s).1 [ none ↦ init_scheme fs (f s).0 | some e ↦ ((f s).0, some e) ]

-- `none` is the exit of the process.
pub init_manager :
    (lib : PrometheusLib) (mgr : Manager)
    → mgr.State
    → Environment
    → Option Prometheus
    → Option (mgr.State × Started lib)
unfolding new_reconciler
init_manager lib mgr s env prometheus = elim (new_reconciler lib env prometheus) [
  | none ↦ none
  | some started ↦
      let (s1, failed_limiters) = setup_with_manager mgr s in
      if failed_limiters
      then none
      else (let (s2, failed_rules) = mgr.add_destination_rules s1 in
          if failed_rules then none else some (s2, started))
]
