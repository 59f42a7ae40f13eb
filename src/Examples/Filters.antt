-- ===== src/Examples/Filters.antt =====
-- The theorems on the valid descriptors and the Envoy filters of a SmartLimiter at concrete inputs.
use limiter.Prelude.{
  List, [], ◌∷◌, ◌++◌, map, none, some, ◌≡◌, ◌≢◌, refl, ret, panic, keep_if, All, Returns,
}
use limiter.Text.{Text, text, ◌==◌}
use limiter.GoMap.{get}
use limiter.GoMap.Range.{in_order}
use limiter.GoMap.Groups.{values_on}
use limiter.Api.{SmartLimitDescriptor, SmartLimiterSpec}
use limiter.Envoy.{ConfigObjectPatch, RateLimitAction}
use limiter.Action.{generate_local_rate_limit_descriptor_entries, generate_route_rate_limit_action}
use limiter.Action.Agreement.{entry_of_action}
use limiter.RoutePatch.Groups.{on_route, all_configs}
use limiter.RoutePatch.Patches.{patches_on, wanted_patches}
use limiter.LocalLimit.Filing.{descriptor_entries}
use limiter.LocalLimit.PerRoute.{wanted_limits}
use limiter.Filters.{
  local_part, descriptors_to_envoy_filter, valid_descriptors, subsets_of, subset_selector,
  generate_envoy_configs,
}
use limiter.Filters.Selection.{Selects, valid_descriptors-Selects, valid_descriptors-plain}
use limiter.Filters.Patches.{
  envoy_filter_complete, is_filter, is_route, global_wanted, local_wanted,
}
use limiter.Filters.Subsets.{HasOwnNames, Settled, subsets-Outcome, get-subset_selector}
use limiter.Filters.Nulls.{null_set_panics}
use limiter.Filters.Panics.{IsWellFormed, generate_envoy_configs-Returns}
use limiter.Examples.{
  framework, encode, reviews, minute, ten_a_minute, single, shared, descriptors, spec, v1, cluster,
}

envoy_filter_complete_example :
    (ps : List ConfigObjectPatch) × (descriptors_to_envoy_filter framework in_order
        (single ∷ shared ∷ [])
        []
        reviews
        []
      ≡ ret (some (record { labels = []; config_patches = map some ps })))
    × (keep_if is_filter ps
        ≡ global_wanted framework encode (λ m. refl) in_order (single ∷ shared ∷ []) []
          ++ local_wanted framework encode (λ m. refl) in_order (single ∷ shared ∷ []))
    × ((k : Text)
        → patches_on k (keep_if is_route ps)
          ≡ wanted_patches encode
              (on_route k (all_configs framework reviews (single ∷ shared ∷ [])))
            ++ wanted_limits framework encode
                (λ m. refl)
                (local_part (single ∷ shared ∷ []))
                reviews
                k
                (values_on k (descriptor_entries (local_part (single ∷ shared ∷ [])))))
envoy_filter_complete_example =
    envoy_filter_complete framework encode (λ m. refl) in_order (single ∷ shared ∷ []) [] reviews []
      (
        (ten_a_minute (text "single"), minute, refl, refl, ([], refl)),
        ((ten_a_minute (text "global"), minute, refl, refl, ([], refl)), tt),
      )

pub spec-IsWellFormed : IsWellFormed spec
spec-IsWellFormed = (
  (
    descriptors,
    single ∷ shared ∷ [],
    refl,
    refl,
    (((minute, refl), ([], refl)), (((minute, refl), ([], refl)), tt)),
  ),
  tt,
)

generate_envoy_configs-Returns_example :
    Returns (generate_envoy_configs framework in_order spec none reviews cluster)
generate_envoy_configs-Returns_example =
    generate_envoy_configs-Returns framework in_order spec none reviews cluster spec-IsWellFormed

pub generated : Returns (generate_envoy_configs framework in_order spec none reviews cluster)
generated =
    generate_envoy_configs-Returns framework in_order spec none reviews cluster spec-IsWellFormed

pub other_name : text "_base" ≢ text "v1"
unfolding text
other_name e = absurd (cc)

pub own_names : HasOwnNames (subsets_of framework reviews cluster)
unfolding subsets_of
own_names = ((other_name, tt), (tt, tt))

subsets-Outcome_example :
    All
      (λ s.
        Settled framework in_order spec none reviews
          (some ((text "app", text "reviews") ∷ []))
          generated.0.0
          s)
      (subsets_of framework reviews cluster)
subsets-Outcome_example =
    subsets-Outcome framework in_order spec none reviews cluster
      (some ((text "app", text "reviews") ∷ [])) generated.0.0 generated.0.1 refl own_names
      generated.1

valid_descriptors-Selects_example :
    (ds : List SmartLimitDescriptor) × (valid_descriptors framework none
        (map some (single ∷ shared ∷ []))
      ≡ ret ds)
    × Selects framework none (single ∷ shared ∷ []) ds
valid_descriptors-Selects_example = valid_descriptors-Selects framework none (single ∷ shared ∷ [])

valid :
    (ds : List SmartLimitDescriptor) × (valid_descriptors framework none
        (map some (single ∷ shared ∷ []))
      ≡ ret ds)
    × Selects framework none (single ∷ shared ∷ []) ds
valid = valid_descriptors-Selects framework none (single ∷ shared ∷ [])

valid_descriptors-plain_example :
    All
      (λ d.
        (action : RateLimitAction) × (generate_route_rate_limit_action framework d reviews
          ≡ ret (some action))
        × (generate_local_rate_limit_descriptor_entries framework d reviews
            ≡ entry_of_action action ∷ []))
      valid.0
valid_descriptors-plain_example =
    valid_descriptors-plain framework none reviews (single ∷ shared ∷ []) valid.0
      (([], refl), (([], refl), tt)) valid.1

get-subset_selector_example :
    get
      (subset_selector framework in_order (some ((text "app", text "reviews") ∷ [])) v1)
      (text "version")
    ≡ elim (get v1.labels (text "version")) [
      | none ↦ get (framework.copy_map (some ((text "app", text "reviews") ∷ []))) (text "version")
      | some v ↦ some v
    ]
get-subset_selector_example =
    get-subset_selector framework in_order (some ((text "app", text "reviews") ∷ [])) v1
      (text "version") (unfold get in refl, tt)

-- A set that is null.
abbrev null_spec : SmartLimiterSpec
null_spec = record { sets = some ((text "_base", none) ∷ []); rls = [] }

null_set_panics_example :
    generate_envoy_configs framework in_order null_spec none reviews cluster ≡ panic
unfolding subsets_of get text ◌==◌
null_set_panics_example =
    null_set_panics framework in_order null_spec none reviews ((text "_base", none) ∷ [])
      (record { name = text "_base"; labels = [] }) none refl refl tt cluster
      (some ((text "app", text "reviews") ∷ [])) (v1 ∷ []) [] refl refl
