-- ===== src/Filters.antt =====
-- controllers/envoy_filters.go: from the descriptors of a SmartLimiter to Envoy filters, one for
-- each subset of the service, and to the descriptors of the rate limit server.
pub mod Selection
pub mod Patches
pub mod Panics
pub mod Nulls
pub mod Subsets
pub mod Named
pub mod Keys
use limiter.Prelude.{
  ℕ, ℤ, List, [], ◌∷◌, ◌++◌, Bool, true, false, Option, none, some, if◌then◌else◌, is_empty, map,
  Go, ret, panic, ◌>>=◌, deref,
}
use limiter.Text.{Text, text, ◌==◌}
use limiter.Text.Decimal.{format_int}
use limiter.GoMap.{GoMap, get, set, set_all, Runtime}
use limiter.Api.{
  elements, SmartLimitDescriptor, SmartLimitDescriptors, SmartLimiterSpec, Action, NamespacedName,
  Fetched, found, failed, ReadError,
}
use limiter.Model
use limiter.Model.{Descriptor}
use limiter.Envoy.{ConfigObjectPatch, EnvoyFilter}
use limiter.Framework.{Framework}
use limiter.RoutePatch.{generate_http_router_patch}
use limiter.LocalLimit.{
  generate_http_filter_local_rate_limit_patch, generate_local_rate_limit_per_filter_patch,
}
use limiter.GlobalLimit.{
  generate_envoy_http_filter_global_rate_limit_patch, get_rate_limiter_server_cluster,
  generate_global_rate_limit_descriptor,
}

-- `networking.Subset`
pub record Subset : Type 0 where
  pub name : Text
  pub labels : GoMap Text

-- What `GenerateEnvoyConfigs` reads: the subsets of the destination rule of a host and the selector
-- of a service.
pub record Cluster : Type 0 where
  pub host_subsets : Text → Option (List Subset)
  pub get_service : NamespacedName → Fetched (Option (GoMap Text))

pub record Configs : Type 0 where
  pub envoy_filters : GoMap (Option EnvoyFilter)
  pub descriptors : GoMap (Option SmartLimitDescriptors)
  pub global_descriptors : List Descriptor

abbrev pub no_configs : Configs
no_configs = record { envoy_filters = []; descriptors = []; global_descriptors = [] }

abbrev pub is_global : Action → Bool
is_global action = action.strategy == Model.global_smart_limiter

-- The two loops that split the descriptors by strategy; here a missing action is passed over.
pub global_part : List SmartLimitDescriptor → List SmartLimitDescriptor
global_part [] = []
global_part (d ∷ ds) = elim d.action [
  | none ↦ global_part ds
  | some action ↦ if is_global action then d ∷ global_part ds else global_part ds
]

pub local_part : List SmartLimitDescriptor → List SmartLimitDescriptor
local_part [] = []
local_part (d ∷ ds) = elim d.action [
  | none ↦ local_part ds
  | some action ↦ if is_global action then local_part ds else d ∷ local_part ds
]

module _ (fw : Framework) (go : Runtime) where
  global_patches : List SmartLimitDescriptor → Text → List (Option ConfigObjectPatch)
  global_patches globals rls =
      if is_empty globals
      then []
      else elim (generate_envoy_http_filter_global_rate_limit_patch fw
          (get_rate_limiter_server_cluster rls)) [ none ↦ [] | some p ↦ some p ∷ [] ]

  local_patches : List SmartLimitDescriptor → NamespacedName → Go (List (Option ConfigObjectPatch))
  local_patches locals loc = if is_empty locals then ret [] else (do
    per_filter ← generate_local_rate_limit_per_filter_patch fw go locals loc
    ret (generate_http_filter_local_rate_limit_patch fw ∷ map some per_filter))

  pub descriptors_to_envoy_filter :
      List SmartLimitDescriptor → GoMap Text → NamespacedName → Text → Go (Option EnvoyFilter)
  unfolding global_patches local_patches
  descriptors_to_envoy_filter descriptors labels loc rls = do
    router ← generate_http_router_patch fw go descriptors loc
    elim router [
      | none ↦ ret none
      | some router_patches ↦ do
        locals ← local_patches (local_part descriptors) loc
        ret (
            some (record {
              labels = labels;
              config_patches =
                  map some router_patches
                  ++ (global_patches (global_part descriptors) rls ++ locals);
            }))
    ]

-- The loop of `descriptorsToGlobalRateLimit`: here a missing action is a nil pointer read.
global_descriptors_of : List SmartLimitDescriptor → Go (List SmartLimitDescriptor)
global_descriptors_of [] = ret []
global_descriptors_of (d ∷ ds) =
    let rest = global_descriptors_of ds in
    do
      action ← deref d.action
      globals ← rest
      ret (if is_global action then d ∷ globals else globals)

pub descriptors_to_global_rate_limit :
    Framework → List SmartLimitDescriptor → NamespacedName → Go (List Descriptor)
unfolding global_descriptors_of
descriptors_to_global_rate_limit fw descriptors loc = do
  globals ← global_descriptors_of descriptors
  generate_global_rate_limit_descriptor fw globals loc

module _ (fw : Framework) (material : Option (GoMap Text)) where
  -- What the body of the loop over `setDescriptor.Descriptor_` appends.
  valid_of : SmartLimitDescriptor → List SmartLimitDescriptor
  valid_of des = elim (fw.calculate_template_bool des.condition material) [
    | none ↦ []
    | some should_update ↦
        if should_update
        then (elim des.action [
          | none ↦ []
          | some action ↦ elim (fw.calculate_template action.quota material) [
            | none ↦ []
            | some rate_limit_value ↦
                record {
                  condition = [];
                  action = some (record {
                    quota = format_int rate_limit_value;
                    fill_interval = action.fill_interval;
                    strategy = action.strategy;
                  });
                  match = des.match;
                  target = des.target;
                  custom_key = [];
                  custom_value = [];
                }
                ∷ []
          ]
        ])
        else []
  ]

  -- The loop: a nil descriptor is a nil pointer read.
  pub valid_descriptors : List (Option SmartLimitDescriptor) → Go (List SmartLimitDescriptor)
  unfolding valid_of
  valid_descriptors [] = ret []
  valid_descriptors (item ∷ items) =
      let rest = valid_descriptors items in do des ← deref item; ds ← rest; ret (valid_of des ++ ds)

-- `spec.Sets[name]`, also of the nil map; the pointer that is found may be nil.
pub set_descriptor : SmartLimiterSpec → Text → Option (Option SmartLimitDescriptors)
set_descriptor spec name = elim spec.sets [ none ↦ none | some sets ↦ get sets name ]

-- The subsets of the destination rule, and then the service as a whole.
unfoldable pub subsets_of : Framework → NamespacedName → Cluster → List Subset
subsets_of fw loc k =
    let base : Subset = record { name = fw.base_set; labels = [] } in
    elim (k.host_subsets (fw.unity_host loc.name loc.namespace)) [
      | none ↦ base ∷ []
      | some sets ↦ sets ++ base ∷ []
    ]

-- The workloads of a subset: those of the service that have the subset's labels too.
pub subset_selector : Framework → Runtime → Option (GoMap Text) → Subset → GoMap Text
subset_selector fw go svc_selector s = set_all (fw.copy_map svc_selector) (go.range Text s.labels)

module _ (fw : Framework) (go : Runtime) (spec : SmartLimiterSpec) (material : Option (GoMap Text))
    (loc : NamespacedName) where
  -- The body of the loop over the subsets, once its valid descriptors are known.
  add_valid : Option (GoMap Text) → Subset → List SmartLimitDescriptor → Configs → Go Configs
  unfolding subset_selector
  add_valid svc_selector s [] c = ret (record c { envoy_filters = set c.envoy_filters s.name none })
  add_valid svc_selector s (d ∷ ds) c = do
    ef ←
        descriptors_to_envoy_filter fw go (d ∷ ds) (subset_selector fw go svc_selector s) loc
          spec.rls
    desc ← descriptors_to_global_rate_limit fw (d ∷ ds) loc
    ret (record {
      envoy_filters = set c.envoy_filters s.name ef;
      descriptors =
          set c.descriptors s.name (some (record { descriptor = some (map some (d ∷ ds)) }));
      global_descriptors = c.global_descriptors ++ desc;
    })

  add_subset : Option (GoMap Text) → Subset → Configs → Go Configs
  unfolding add_valid set_descriptor
  add_subset svc_selector s c = elim (set_descriptor spec s.name) [
    | none ↦ ret (record c { envoy_filters = set c.envoy_filters s.name none })
    | some set_of ↦ do
      descs ← deref set_of
      ds ← valid_descriptors fw material (elements descs.descriptor)
      add_valid svc_selector s ds c
  ]

  add_subsets : Option (GoMap Text) → List Subset → Configs → Go Configs
  unfolding add_subset
  add_subsets svc_selector [] c = ret c
  add_subsets svc_selector (s ∷ ss) c = add_subset svc_selector s c >>= add_subsets svc_selector ss

  -- The second part is the error of the read of the service, if it failed.
  pub generate_envoy_configs : Cluster → Go (Configs × Option ReadError)
  unfolding add_subsets subsets_of
  generate_envoy_configs k = elim (k.get_service loc) [
    | failed e ↦ ret (no_configs, some e)
    | found svc_selector ↦ do
      c ← add_subsets svc_selector (subsets_of fw loc k) no_configs
      ret (c, none)
  ]
