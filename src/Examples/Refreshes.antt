-- ===== src/Examples/Refreshes.antt =====
-- The theorems on refreshes, metrics and reconciliations at concrete inputs.
use limiter.Prelude.{
  if◌then◌else◌, List, [], ◌∷◌, ◌⊎◌, ◌≡◌, ◌≢◌, refl, true, not, Option, none, some, ret, panic, ◌↔◌,
  keep_if, All,
}
use limiter.Text.{Text, text, ◌==◌}
use limiter.Text.Search.{contains}
use limiter.GoMap.{GoMap, get, set}
use limiter.GoMap.Range.{in_order}
use limiter.Api.{found}
use limiter.Model
use limiter.Model.{Descriptor}
use limiter.Envoy.{EnvoyFilter, no_fields}
use limiter.Server.{SmartLimiter, EnvoyFilterResource, ConfigMap, place}
use limiter.GlobalLimit.Named.{IsNamed}
use limiter.Filters.Named.{global_descriptors-IsNamed}
use limiter.Process.EnvoyFilters.{refresh_envoy_filter}
use limiter.Process.EnvoyFilters.Settled.{IsForeign, Refreshed, refresh_envoy_filter-Settled}
use limiter.Process.EnvoyFilters.Idempotent.{refresh_envoy_filter-idempotent}
use limiter.Process.ConfigMap.{mentions, rate_limit_config, refresh_config_map}
use limiter.Process.ConfigMap.Panics.{ReadsNull, refresh_config_map-panic}
use limiter.Process.ConfigMap.Items.{Holds, own_items_replaced, refresh_config_map-idempotent}
use limiter.Process.Metrics.{Endpoints, resource_key, record_metrics}
use limiter.Process.Metrics.Material.{metric_at, over, record_metrics-over}
use limiter.Process.Refresh.{filter_resource, refresh_filters}
use limiter.Process.Refresh.Loop.{InPlace, refresh_filters-InPlace}
use limiter.Examples.{framework, reviews, spec, cluster}
use limiter.Examples.Filters.{generated}
use limiter.Examples.Yaml.{marshal, unmarshal-marshal}
use limiter.Examples.Store.{Objects, server, server-IsStore, platform, platform-IsMetadata}

abbrev pub limiter_of_reviews : SmartLimiter
limiter_of_reviews = record {
  name = reviews.name;
  namespace = reviews.namespace;
  labels = [];
  resource_version = [];
  spec = spec;
  status = record { ratelimit_status = []; metric_status = none };
}

abbrev own_item : Descriptor
own_item = record {
  key = text "generic_key";
  value = text "Service[reviews.default]";
  rate_limit = none;
}

abbrev other_item : Descriptor
other_item = record { key = text "generic_key"; value = text "Service[ratings]"; rate_limit = none }

abbrev pub stored : List Descriptor
stored = other_item ∷ own_item ∷ []

abbrev stored_map : ConfigMap
stored_map = record {
  name = Model.config_map_name;
  namespace = Model.config_map_namespace;
  labels = [];
  resource_version = [];
  data_of = (Model.config_map_config, marshal (rate_limit_config stored)) ∷ [];
}

-- No filter is there yet.
abbrev pub start : Objects
start = record {
  limiters = λ loc. found limiter_of_reviews;
  filters = λ loc. none;
  config_maps = λ loc. found stored_map;
}

abbrev base_filter : EnvoyFilterResource
base_filter = record {
  name = text "reviews.default.ratelimit";
  namespace = text "default";
  labels = [];
  owner = none;
  resource_version = [];
  spec = some no_fields;
}

abbrev created : Objects
created = (refresh_envoy_filter server platform start limiter_of_reviews base_filter).0

created_without_error :
    refresh_envoy_filter server platform start limiter_of_reviews base_filter ≡ (created, none)
unfolding refresh_envoy_filter get text
created_without_error = refl

refresh_envoy_filter-Settled_example :
    ((start ≡ created)
      × IsForeign server platform start
          (place base_filter)
          (platform.istio_rev_from_label limiter_of_reviews.labels))
    ⊎ Refreshed server platform server-IsStore platform-IsMetadata limiter_of_reviews base_filter
        created
refresh_envoy_filter-Settled_example =
    refresh_envoy_filter-Settled server platform server-IsStore platform-IsMetadata
      limiter_of_reviews base_filter start created refl platform-IsMetadata.no_rev
      created_without_error

refresh_envoy_filter-idempotent_example :
    refresh_envoy_filter server platform created limiter_of_reviews base_filter ≡ (created, none)
refresh_envoy_filter-idempotent_example =
    refresh_envoy_filter-idempotent server platform server-IsStore platform-IsMetadata
      limiter_of_reviews base_filter start created refl platform-IsMetadata.no_rev
      created_without_error

abbrev two_filters : List (Text × Option EnvoyFilter)
two_filters =
    (text "v1", none) ∷ (text "_base", some (record { labels = []; config_patches = [] })) ∷ []

keys_apart : text "v1" ≢ text "_base"
unfolding text
keys_apart e = absurd (cc)

refresh_filters-InPlace_example :
    All
      (InPlace framework in_order server platform limiter_of_reviews
        (refresh_filters framework in_order server platform start limiter_of_reviews two_filters))
      two_filters
unfolding refresh_envoy_filter filter_resource get text
refresh_filters-InPlace_example =
    refresh_filters-InPlace framework in_order server platform limiter_of_reviews server-IsStore
      platform-IsMetadata start two_filters ((keys_apart, tt), (tt, tt)) (refl, (refl, tt))

pub start_config : Holds server platform start stored
unfolding get text ◌==◌
start_config = (
  stored_map,
  marshal (rate_limit_config stored),
  Model.domain,
  refl,
  refl,
  unmarshal-marshal stored,
)

own_item_is_about_it : All (λ item. mentions reviews item ≡ true) (own_item ∷ [])
unfolding contains text
own_item_is_about_it = (refl, tt)

own_items_replaced_example :
    (s' : Objects) × (items' : List Descriptor) × (refresh_config_map server platform start
        (own_item ∷ [])
        reviews
      ≡ ret s')
    × Holds server platform s' items'
    × (keep_if (mentions reviews) items' ≡ own_item ∷ [])
    × (keep_if (λ item. not (mentions reviews item)) items'
        ≡ keep_if (λ item. not (mentions reviews item)) stored)
own_items_replaced_example =
    own_items_replaced server platform server-IsStore unmarshal-marshal start stored (own_item ∷ [])
      reviews start_config (λ cm g. refl) own_item_is_about_it

refresh_config_map-idempotent_example :
    (s' : Objects) × (refresh_config_map server platform start (own_item ∷ []) reviews ≡ ret s')
    × (refresh_config_map server platform s' (own_item ∷ []) reviews ≡ ret s')
refresh_config_map-idempotent_example =
    refresh_config_map-idempotent server platform server-IsStore unmarshal-marshal start stored
      (own_item ∷ []) reviews start_config (λ cm g. refl) own_item_is_about_it

refresh_config_map-panic_example :
    (refresh_config_map server platform start (own_item ∷ []) reviews ≡ panic)
    ↔ ReadsNull server platform start
refresh_config_map-panic_example =
    refresh_config_map-panic server platform start (own_item ∷ []) reviews

global_descriptors-IsNamed_example : All (IsNamed reviews) generated.0.0.global_descriptors
global_descriptors-IsNamed_example =
    global_descriptors-IsNamed framework in_order spec none reviews cluster generated.0.0
      generated.0.1 generated.1

abbrev cpu : GoMap Text
cpu = (text "v1.cpu", text "80") ∷ []

abbrev recorded : GoMap Endpoints
recorded = (resource_key reviews, record { location = reviews; info = some cpu }) ∷ []

cpu_done : record_metrics in_order [] reviews (some cpu) ≡ ret recorded
unfolding record_metrics get set
cpu_done = refl

record_metrics-over_example : metric_at recorded reviews (text "v1.cpu") ≡ (
    if resource_key reviews == resource_key reviews
    then over (get cpu (text "v1.cpu")) (metric_at [] reviews (text "v1.cpu"))
    else metric_at [] reviews (text "v1.cpu"))
record_metrics-over_example =
    record_metrics-over in_order cpu (unfold get in refl, tt) [] recorded reviews reviews
      (text "v1.cpu") cpu_done
