-- ===== src/GlobalLimit/Quota.antt =====
-- The quota per unit, and what the rate limit server is told.
use limiter.Prelude.{
  length, suc, subst, ℤ, pos, List, [], ◌∷◌, ◌++◌, Option, none, some, to_u32, Go, ret, panic, ◌≡◌,
  refl, ap, arith, ◌↔◌, ◌⊎◌, All, Returns, Returns-bind, Returns-case, >>=-eq-ret,
}
use limiter.Text.{Text, text}
use limiter.Text.Decimal.{atoi, NumError}
use limiter.Api.{SmartLimitDescriptor, Action, Duration, NamespacedName}
use limiter.Model.{Descriptor}
use limiter.Envoy.{RateLimitAction}
use limiter.Framework.{Framework}
use limiter.Action.{generate_route_rate_limit_action}
use limiter.Action.Agreement.{entry_of_action, IsPlain, entry-action, action-IsPlain}
use limiter.LocalLimit.Buckets.{IsComplete}
use limiter.GlobalLimit.{
  QuotaError, calculate_quota_per_unit, quota_of_action, unit_of_seconds, global_item, add_item,
  generate_global_rate_limit_descriptor,
}

-- The intervals that the rate limit server knows.
abbrev pub IsUnit : Text → ℤ → Type 0
IsUnit unit seconds =
    ((unit ≡ text "SECOND") × (seconds ≡ pos 1))
    ⊎ ((unit ≡ text "MINUTE") × (seconds ≡ pos 60))
    ⊎ ((unit ≡ text "HOUR") × (seconds ≡ pos 3600))
    ⊎ ((unit ≡ text "DAY") × (seconds ≡ pos 86400))

unit_of_seconds-IsUnit :
    (seconds : ℤ) (unit : Text) → (unit_of_seconds seconds ≡ some unit) ↔ IsUnit unit seconds
unfolding unit_of_seconds
unit_of_seconds-IsUnit seconds unit = ground arith

-- For a descriptor that has an action with an interval the calculation succeeds exactly if the
-- quota is an integer and the interval is a second, a minute, an hour or a day; it returns that
-- integer and the unit of that length.
pub quota_and_interval :
    (d : SmartLimitDescriptor) (action : Action) (interval : Duration) (quota : ℤ) (unit : Text)
    → d.action ≡ some action
    → action.fill_interval ≡ some interval
    → (calculate_quota_per_unit d ≡ ret (quota, unit, none))
      ↔ ((atoi action.quota ≡ (quota, none)) × IsUnit unit interval.seconds)
unfolding calculate_quota_per_unit
quota_and_interval d action interval quota unit ha hi =
    ground (arith, unit_of_seconds-IsUnit interval.seconds unit)

module _ (fw : Framework) (loc : NamespacedName) where
  -- A descriptor whose quota cannot be calculated hides itself and all that follow it, valid or not.
  pub error_hides_rest :
      (before after : List SmartLimitDescriptor) (d : SmartLimitDescriptor) (quota : ℤ)
      (unit : Text) (e : QuotaError)
      → calculate_quota_per_unit d ≡ ret (quota, unit, some e)
      → generate_global_rate_limit_descriptor fw (before ++ d ∷ after) loc
        ≡ generate_global_rate_limit_descriptor fw before loc
  unfolding generate_global_rate_limit_descriptor
  error_hides_rest [] after d quota unit e h = rw h
  error_hides_rest (x ∷ before) after d quota unit e h =
      ap (add_item fw x loc (calculate_quota_per_unit x))
        (error_hides_rest before after d quota unit e h)

  -- The item of a descriptor: its key and value are the entry that the route's action adds to a
  -- request, and its limit is the calculated one.
  abbrev pub Answers : SmartLimitDescriptor → Descriptor → Type 0
  Answers d item =
      ((action : RateLimitAction) × (generate_route_rate_limit_action fw d loc ≡ ret (some action))
        × (entry_of_action action ≡ record { key = item.key; value = item.value }))
      × ((quota : ℤ) × (unit : Text) × (calculate_quota_per_unit d ≡ ret (quota, unit, none))
          × (item.rate_limit ≡ some (record { requests_per_unit = to_u32 quota; unit = unit })))

  -- The items answer, one by one, to the first descriptors.
  abbrev pub AnswerPrefix : List SmartLimitDescriptor → List Descriptor → Type 0
  AnswerPrefix ds [] = Unit
  AnswerPrefix [] (item ∷ items) = ⊥
  AnswerPrefix (d ∷ ds) (item ∷ items) = Answers d item × AnswerPrefix ds items

  entry-global_item :
      (d : SmartLimitDescriptor) (quota : ℤ) (unit : Text)
      → IsPlain d
      → (action : RateLimitAction) × (generate_route_rate_limit_action fw d loc ≡ ret (some action))
        × (entry_of_action action ≡ record {
          key = (global_item fw d loc quota unit).key;
          value = (global_item fw d loc quota unit).value;
        })
  unfolding global_item
  entry-global_item d quota unit plain =
      let (action, e, made) = action-IsPlain fw d loc plain in
      (action, made, entry-action fw d loc action e)

  add_item-AnswerPrefix :
      (d : SmartLimitDescriptor) (ds : List SmartLimitDescriptor)
      (r : Go (ℤ × Text × Option QuotaError)) (rest : Go (List Descriptor))
      (items : List Descriptor)
      → IsPlain d
      → calculate_quota_per_unit d ≡ r
      → ((later : List Descriptor) → rest ≡ ret later → AnswerPrefix ds later)
      → add_item fw d loc r rest ≡ ret items
      → AnswerPrefix (d ∷ ds) items
  unfolding add_item
  add_item-AnswerPrefix d ds panic rest items plain c ih h = absurd (cc)
  add_item-AnswerPrefix d ds (ret (quota, unit, some e)) rest items plain c ih h =
      subst (AnswerPrefix (d ∷ ds)) {x = []} (ground arith) tt
  add_item-AnswerPrefix d ds (ret (quota, unit, none)) rest items plain c ih h =
      let (later, e, e') = >>=-eq-ret rest _ h in
      subst (AnswerPrefix (d ∷ ds)) {x = global_item fw d loc quota unit ∷ later} (ground arith) (
        (entry-global_item d quota unit plain, (quota, unit, c, unfold global_item in refl)),
        ih later e,
      )

  -- What the rate limit server is told of descriptors without custom keys and nil matchers: items
  -- for the first descriptors of the list, in order. The key and the value of each are the entry
  -- that the route's action for the same descriptor adds to a request, and its limit is the quota
  -- per unit of that descriptor.
  pub items-AnswerPrefix :
      (ds : List SmartLimitDescriptor) (items : List Descriptor)
      → All IsPlain ds
      → generate_global_rate_limit_descriptor fw ds loc ≡ ret items
      → AnswerPrefix ds items
  unfolding generate_global_rate_limit_descriptor
  items-AnswerPrefix [] items plain h = subst (AnswerPrefix []) {x = []} (ground arith) tt
  items-AnswerPrefix (d ∷ ds) items plain h =
      add_item-AnswerPrefix d ds (calculate_quota_per_unit d)
        (generate_global_rate_limit_descriptor fw ds loc) items plain.0 refl
        (λ later. items-AnswerPrefix ds later plain.1) h

  abbrev pub HasQuota : SmartLimitDescriptor → Type 0
  HasQuota d = (quota : ℤ) × (unit : Text) × (calculate_quota_per_unit d ≡ ret (quota, unit, none))

  items_total :
      (ds : List SmartLimitDescriptor)
      → All HasQuota ds
      → (items : List Descriptor) × (generate_global_rate_limit_descriptor fw ds loc ≡ ret items)
        × (length items ≡ length ds)
  unfolding generate_global_rate_limit_descriptor
  items_total [] h = ([], refl, refl)
  items_total (d ∷ ds) h =
      let (quota, unit, e) = h.0 in
      let (items, e', l) = items_total ds h.1 in
      (global_item fw d loc quota unit ∷ items, rw (e, e', add_item), ap suc l)

  -- If no descriptor has a custom key or a nil matcher and the quota per unit of each can be
  -- calculated, the rate limit server is told of each of them, in order: with the entry that the
  -- route's action adds to a request for its key and value, and with its quota and unit.
  pub items_complete :
      (ds : List SmartLimitDescriptor)
      → All IsPlain ds
      → All HasQuota ds
      → (items : List Descriptor) × (generate_global_rate_limit_descriptor fw ds loc ≡ ret items)
        × (length items ≡ length ds)
        × AnswerPrefix ds items
  items_complete ds plain h =
      let (items, e, l) = items_total ds h in (items, e, l, items-AnswerPrefix ds items plain e)

  quota_of_action-Returns :
      (action : Action) (interval : Duration) (r : ℤ × Option NumError)
      → action.fill_interval ≡ some interval
      → Returns (quota_of_action action r)
  unfolding quota_of_action
  quota_of_action-Returns action interval (quota, some e) h = (_, refl)
  quota_of_action-Returns action interval (quota, none) h = rw h (
      Returns-case (unit_of_seconds interval.seconds) (quota, [], some QuotaError.invalid_time) _
        (λ unit. (_, refl)))

  IsComplete-calculates :
      (d : SmartLimitDescriptor) → IsComplete d → Returns (calculate_quota_per_unit d)
  unfolding calculate_quota_per_unit
  IsComplete-calculates d (action, interval, ha, hi, m) =
      rw ha (quota_of_action-Returns action interval (atoi action.quota) hi)

  add_item-Returns :
      (d : SmartLimitDescriptor) (r : Go (ℤ × Text × Option QuotaError))
      (rest : Go (List Descriptor))
      → Returns r
      → Returns rest
      → Returns (add_item fw d loc r rest)
  unfolding add_item
  add_item-Returns d panic rest h k = absurd (cc (h.1))
  add_item-Returns d (ret (quota, unit, some e)) rest h k = ([], refl)
  add_item-Returns d (ret (quota, unit, none)) rest h k =
      Returns-bind rest _ k (λ items _. (_, refl))

  -- The loop does not panic over descriptors that have an action with an interval.
  pub IsComplete-Returns :
      (ds : List SmartLimitDescriptor)
      → All IsComplete ds
      → Returns (generate_global_rate_limit_descriptor fw ds loc)
  unfolding generate_global_rate_limit_descriptor
  IsComplete-Returns [] h = ([], refl)
  IsComplete-Returns (d ∷ ds) h =
      add_item-Returns d (calculate_quota_per_unit d)
        (generate_global_rate_limit_descriptor fw ds loc) (IsComplete-calculates d h.0)
        (IsComplete-Returns ds h.1)
