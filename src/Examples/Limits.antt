-- ===== src/Examples/Limits.antt =====
-- The theorems on routes, actions, buckets and quotas at concrete inputs, with a few runs.
use limiter.Prelude.{
  pos, List, [], ◌∷◌, ◌++◌, map, true, none, some, ◌≡◌, refl, arith, ◌↔◌, ◌⊎◌, inl, inr, ret, panic,
  length, keep_if, All,
}
use limiter.Text.{Text, text}
use limiter.Text.Search.{contains}
use limiter.Text.Decimal.{atoi, format_int, format_nat}
use limiter.GoMap.Range.{in_order}
use limiter.GoMap.Groups.{values_on}
use limiter.Api.{elements, Action}
use limiter.Model.{Descriptor}
use limiter.Envoy.{ConfigObjectPatch, RateLimitAction}
use limiter.Envoy
use limiter.Route.{gen_vhost_route_name, generate_route_configs}
use limiter.Route.Names.{is_vhost_route, names-generate_route_configs}
use limiter.Action.{
  generate_descriptor_value, generate_local_rate_limit_descriptor_entries,
  generate_route_rate_limit_action,
}
use limiter.Action.Agreement.{
  entry_of_action, entries-action, generate-route_action, contains-generate_descriptor_value,
}
use limiter.RoutePatch.{generate_http_router_patch}
use limiter.RoutePatch.Groups.{on_route, all_configs}
use limiter.RoutePatch.Patches.{one_patch_each, patches_on, wanted_patches, IsRoute}
use limiter.LocalLimit.{generate_token_bucket, generate_local_rate_limit_per_filter_patch}
use limiter.LocalLimit.Buckets.{bucket_of_quota, generate_token_bucket-panic, IsComplete-HasBucket}
use limiter.LocalLimit.Filing.{descriptor_entries}
use limiter.LocalLimit.PerRoute.{one_limit_each, wanted_limits}
use limiter.GlobalLimit.{
  calculate_quota_per_unit, generate_global_rate_limit_descriptor, invalid_time,
}
use limiter.GlobalLimit.Quota.{
  IsUnit, quota_and_interval, error_hides_rest, items_complete, AnswerPrefix,
}
use limiter.Examples.{
  framework, encode, reviews, minute, ten_a_minute, outbound_target, single, shared, no_interval,
  every_week,
}

names-generate_route_configs_example :
    map gen_vhost_route_name (generate_route_configs (some outbound_target))
    ≡ keep_if is_vhost_route (elements outbound_target.route)
names-generate_route_configs_example = names-generate_route_configs outbound_target (λ e. cc)

abbrev single_action : RateLimitAction
single_action = Envoy.generic_key (generate_descriptor_value framework single reviews)

acts : generate_route_rate_limit_action framework single reviews ≡ ret (some single_action)
acts = generate-route_action framework single reviews ([], refl)

entries-action_example :
    generate_local_rate_limit_descriptor_entries framework single reviews
    ≡ elim (some (single_action)) [
      | none ↦ record { key = single.custom_key; value = single.custom_value } ∷ []
      | some action ↦ entry_of_action action ∷ []
    ]
entries-action_example = entries-action framework single reviews (some single_action) acts

contains-generate_descriptor_value_example :
    contains
      (generate_descriptor_value framework single reviews)
      (reviews.name ++ (text "." ++ reviews.namespace))
    ≡ true
contains-generate_descriptor_value_example =
    contains-generate_descriptor_value framework single reviews

one_patch_each_example :
    (ps : List ConfigObjectPatch) × (generate_http_router_patch framework in_order
        (single ∷ shared ∷ [])
        reviews
      ≡ ret (some ps))
    × All IsRoute ps
    × ((k : Text)
        → patches_on k ps
          ≡ wanted_patches encode
              (on_route k (all_configs framework reviews (single ∷ shared ∷ []))))
one_patch_each_example =
    one_patch_each framework encode (λ m. refl) in_order (single ∷ shared ∷ []) reviews
      (([], refl), (([], refl), tt))

one_limit_each_example :
    (ps : List ConfigObjectPatch) × (generate_local_rate_limit_per_filter_patch framework in_order
        (single ∷ [])
        reviews
      ≡ ret ps)
    × All IsRoute ps
    × ((k : Text)
        → patches_on k ps
          ≡ wanted_limits framework encode
              (λ m. refl)
              (single ∷ [])
              reviews
              k
              (values_on k (descriptor_entries (single ∷ []))))
one_limit_each_example =
    one_limit_each framework encode (λ m. refl) (single ∷ []) reviews in_order
      (
        IsComplete-HasBucket single (ten_a_minute (text "single"), minute, refl, refl, ([], refl)),
        tt,
      )

bucket_of_quota_example :
    generate_token_bucket single
    ≡ ret (record { max_tokens = 10; fill_interval = minute; tokens_per_fill = 10 })
bucket_of_quota_example =
    bucket_of_quota single (ten_a_minute (text "single")) minute 10 refl refl
      (unfold format_int format_nat text in refl) (omega arith)

generate_token_bucket-panic_example : (generate_token_bucket no_interval ≡ panic) ↔ (
    (no_interval.action ≡ none)
    ⊎ ((a : Action) × (no_interval.action ≡ some a) × (a.fill_interval ≡ none)))
generate_token_bucket-panic_example = generate_token_bucket-panic no_interval

quota_and_interval_example :
    (calculate_quota_per_unit shared ≡ ret (pos 10, text "MINUTE", none))
    ↔ ((atoi (text "10") ≡ (pos 10, none)) × IsUnit (text "MINUTE") (pos 60))
quota_and_interval_example =
    quota_and_interval shared (ten_a_minute (text "global")) minute (pos 10) (text "MINUTE") refl
      refl

ten : atoi (text "10") ≡ (pos 10, none)
unfolding atoi text
ten = refl

shared_quota : calculate_quota_per_unit shared ≡ ret (pos 10, text "MINUTE", none)
shared_quota =
    (quota_and_interval shared (ten_a_minute (text "global")) minute (pos 10) (text "MINUTE") refl
        refl).1
      (ten, inr (inl (refl, refl)))

every_week_quota : calculate_quota_per_unit every_week ≡ ret (pos 10, [], some invalid_time)
unfolding calculate_quota_per_unit atoi text
every_week_quota = refl

error_hides_rest_example :
    generate_global_rate_limit_descriptor framework (shared ∷ every_week ∷ shared ∷ []) reviews
    ≡ generate_global_rate_limit_descriptor framework (shared ∷ []) reviews
error_hides_rest_example =
    error_hides_rest framework reviews (shared ∷ []) (shared ∷ []) every_week (pos 10) []
      invalid_time every_week_quota

items_complete_example :
    (items : List Descriptor) × (generate_global_rate_limit_descriptor framework
        (shared ∷ [])
        reviews
      ≡ ret items)
    × (length items ≡ length (shared ∷ []))
    × AnswerPrefix framework reviews (shared ∷ []) items
items_complete_example =
    items_complete framework reviews (shared ∷ []) ((refl, ([], refl)), tt)
      ((pos 10, text "MINUTE", shared_quota), tt)
