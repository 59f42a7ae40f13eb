-- ===== src/Process/Metrics.antt =====
-- controllers/process.go: from the results of a producer to the metrics of a SmartLimiter.
pub mod Material
pub mod Infos
use limiter.Prelude.{
  ℕ, ℤ, pos, zero, List, [], ◌∷◌, ◌++◌, Bool, true, false, Option, none, some, if◌then◌else◌, Go,
  ret, panic, ◌>>=◌,
}
use limiter.Text.{Text, text}
use limiter.Text.Decimal.{format_int}
use limiter.GoMap.{GoMap, get, set, set_all, Runtime}
use limiter.Api.{NamespacedName}
use limiter.Framework.{Framework}

-- `StaticMeta` of controllers/producer.go
pub record StaticMeta : Type 0 where
  pub name : Text
  pub namespace : Text
  pub n_pod : GoMap ℤ
  pub is_group : GoMap Bool

-- `metric.Result`
pub record Result : Type 0 where
  pub name : Text
  pub value : Option (GoMap Text)

-- `slime_model.Endpoints`
pub record Endpoints : Type 0 where
  pub location : NamespacedName
  pub info : Option (GoMap Text)

-- `namespace/name`
abbrev pub resource_key : NamespacedName → Text
resource_key loc = loc.namespace ++ (text "/" ++ loc.name)

-- `m[k] = v`, which panics on the nil map.
unfoldable pub assign : Option (GoMap Text) → Text → Text → Go (Option (GoMap Text))
assign none k v = panic
assign (some m) k v = ret (some (set m k v))

assign_all : Option (GoMap Text) → List (Text × Text) → Go (Option (GoMap Text))
assign_all m [] = ret m
assign_all none ((k, v) ∷ es) = panic
assign_all (some m) es = ret (some (set_all m es))

-- The entry of a map that is absent is `false`.
is_group_metric : StaticMeta → Text → Bool
is_group_metric meta name = elim (get meta.is_group name) [ none ↦ false | some group ↦ group ]

-- One result that is no group: it counts only if it has exactly one value.
add_value : Option (GoMap Text) → Text → Option (GoMap Text) → Go (Option (GoMap Text))
unfolding assign
add_value info name (some ((k, value) ∷ [])) = assign info name value
add_value info name value = ret info

-- The loop over the results.
add_results : StaticMeta → Option (GoMap Text) → List Result → Go (Option (GoMap Text))
unfolding is_group_metric add_value
add_results meta info [] = ret info
add_results meta info (result ∷ results) =
    if is_group_metric meta result.name
    then add_results meta result.value results
    else (add_value info result.name result.value >>= λ i. add_results meta i results)

-- The loop over the numbers of pods.
add_pods : Option (GoMap Text) → List (Text × ℤ) → Go (Option (GoMap Text))
unfolding assign
add_pods info [] = ret info
add_pods info ((subset, pos zero) ∷ es) = add_pods info es
add_pods info ((subset, number) ∷ es) =
    assign info subset (format_int number) >>= λ i. add_pods i es

-- The metrics that `ConsumeMetric` hands to `Refresh`.
pub metric_info_of : Runtime → StaticMeta → List Result → Go (Option (GoMap Text))
unfolding add_results add_pods
metric_info_of go meta results = do
  info ← add_results meta (some []) results
  add_pods info (go.range ℤ meta.n_pod)

-- The first part of `Refresh`: new metrics are written over the recorded ones.
unfoldable pub record_metrics :
    Runtime → GoMap Endpoints → NamespacedName → Option (GoMap Text) → Go (GoMap Endpoints)
unfolding assign_all
record_metrics go metric_info loc args = elim (get metric_info (resource_key loc)) [
  | none ↦ ret (set metric_info (resource_key loc) (record { location = loc; info = args }))
  | some ep ↦ do
    info ← assign_all ep.info (elim args [ none ↦ [] | some m ↦ go.range Text m ])
    ret (set metric_info (resource_key loc) (record { location = ep.location; info = info }))
]

pub get_material : Framework → GoMap Endpoints → NamespacedName → Option (GoMap Text)
get_material fw metric_info loc = elim (get metric_info (resource_key loc)) [
  | none ↦ none
  | some ep ↦ some (fw.copy_map ep.info)
]
