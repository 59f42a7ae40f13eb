-- ===== src/Process/ConfigMap.antt =====
-- controllers/process.go, `refreshConfigMap`: the items of a service in the configuration of the rate
-- limit server.
pub mod Items
pub mod Kinds
pub mod Panics
use limiter.Prelude.{
  List, [], ◌∷◌, ◌++◌, Bool, true, false, not, ◌&&◌, Option, none, some, if◌then◌else◌, eqb, length,
  keep_if, map, Go, ret, ◌>>=◌, deref,
}
use limiter.Text.{Text, text, ◌==◌}
use limiter.Text.Search.{contains}
use limiter.GoMap.{GoMap, get}
use limiter.Api.{NamespacedName, Fetched, found, failed}
use limiter.Model
use limiter.Model.{Descriptor, RateLimitConfig}
use limiter.GlobalLimit.{get_config_map_namespace_name}
use limiter.Server.{Server, Platform, ConfigMap}

-- `reflect.DeepEqual` on two `map[string]string`
has_entries : GoMap Text → GoMap Text → Bool
has_entries b [] = true
has_entries b ((k, v) ∷ a) =
    let rest = has_entries b a in elim (get b k) [ none ↦ false | some w ↦ (v == w) && rest ]

pub same_map : GoMap Text → GoMap Text → Bool
unfolding has_entries
same_map a b = eqb (length a) (length b) && has_entries b a

abbrev pub service_info : NamespacedName → Text
service_info loc = loc.name ++ (text "." ++ loc.namespace)

-- `strings.Contains(item.Value, serviceInfo)`
abbrev pub mentions : NamespacedName → Descriptor → Bool
mentions loc item = contains item.value (service_info loc)

pub generate_config_map_labels : GoMap Text
generate_config_map_labels = (text "app", text "rate-limit") ∷ []

abbrev pub rate_limit_config : List Descriptor → RateLimitConfig
rate_limit_config desc = record { domain = Model.domain; descriptors = map some desc }

unfoldable pub construct_config_map : Platform → List Descriptor → ConfigMap
unfolding generate_config_map_labels
construct_config_map p desc = record {
  name = get_config_map_namespace_name.name;
  namespace = get_config_map_namespace_name.namespace;
  labels = generate_config_map_labels;
  resource_version = [];
  data_of = (Model.config_map_config, p.yaml_marshal (rate_limit_config desc)) ∷ [];
}

-- The loop over the items, which are read through their pointers.
pub kept : NamespacedName → List (Option Descriptor) → Go (List Descriptor)
kept loc [] = ret []
kept loc (item ∷ items) =
    let rest = kept loc items in
    do
      descriptor ← deref item
      others ← rest
      ret (if mentions loc descriptor then others else descriptor ∷ others)

-- What the new configuration has if no item is nil.
abbrev pub replaced : NamespacedName → List Descriptor → List Descriptor → List Descriptor
replaced loc items desc = keep_if (λ item. not (mentions loc item)) items ++ desc

-- The config map that is written over an existing one.
abbrev pub update_of : Platform → ConfigMap → List Descriptor → ConfigMap
update_of p existing items = record (construct_config_map p items) {
  resource_version = existing.resource_version;
}

module _ (srv : Server) (p : Platform) where
  store : srv.State → ConfigMap → List Descriptor → srv.State
  unfolding same_map
  store s existing items =
      if same_map existing.data_of (construct_config_map p items).data_of
      then s
      else (srv.update_config_map s (update_of p existing items)).0

  -- Every error is logged and ends the refresh; a null configuration is a nil pointer read.
  pub refresh_config_map : srv.State → List Descriptor → NamespacedName → Go srv.State
  unfolding store same_map
  refresh_config_map s desc service_loc =
      elim (srv.get_config_map s get_config_map_namespace_name) [
        | failed e ↦ ret s
        | found existing ↦ elim (get existing.data_of Model.config_map_config) [
          | none ↦ ret s
          | some config ↦ elim (p.yaml_unmarshal config) [
            | none ↦ ret s
            | some read ↦ do
              rc ← deref read
              others ← kept service_loc rc.descriptors
              ret (store s existing (others ++ desc))
          ]
        ]
      ]
