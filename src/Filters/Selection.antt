-- ===== src/Filters/Selection.antt =====
-- Which descriptors of a set take effect, and what is left of them.
use limiter.Prelude.{
  ℤ, List, [], ◌∷◌, Bool, true, false, Option, none, some, ◌≡◌, refl, All, All-map, inl, inr, ◌⊎◌,
  ◌++◌, map, ap, subst, ret,
}
use limiter.Text.{Text}
use limiter.Text.Decimal.{format_int}
use limiter.GoMap.{GoMap}
use limiter.Api.{SmartLimitDescriptor, Action, Duration, NamespacedName}
use limiter.Framework.{Framework}
use limiter.Envoy.{RateLimitAction}
use limiter.Action.{generate_route_rate_limit_action, generate_local_rate_limit_descriptor_entries}
use limiter.Action.Agreement.{entry_of_action, HasMatchers, IsPlain, entries-action, action-IsPlain}
use limiter.LocalLimit.Buckets.{IsComplete}
use limiter.Filters.{valid_of, valid_descriptors}

-- If there is an action it has an interval, and no matcher is nil.
abbrev HasInterval : SmartLimitDescriptor → Type 0
HasInterval des = elim des.action [
  | none ↦ Unit {0}
  | some action ↦ (interval : Duration) × (action.fill_interval ≡ some interval)
]

abbrev pub HasParts : SmartLimitDescriptor → Type 0
HasParts des = HasInterval des × HasMatchers des

interval_of_action :
    (des : SmartLimitDescriptor) (action : Action)
    → des.action ≡ some action
    → HasInterval des
    → (interval : Duration) × (action.fill_interval ≡ some interval)
interval_of_action des action e h = rw e at h

module _ (fw : Framework) (material : Option (GoMap Text)) where
  -- A descriptor takes effect if its condition is calculated to be true, it has an action, and the
  -- action's quota can be calculated.
  pub record Effective (des : SmartLimitDescriptor) : Type 0 where
    pub action : Action
    pub quota : ℤ
    pub condition_true : fw.calculate_template_bool des.condition material ≡ some true
    pub has_action : des.action ≡ some action
    pub quota_value : fw.calculate_template action.quota material ≡ some quota

  -- What takes effect: the match, the target, the interval and the strategy as they are written, and
  -- the quota as the calculated number. The custom key and value are not carried over.
  abbrev pub resolved : (des : SmartLimitDescriptor) → Effective des → SmartLimitDescriptor
  resolved des e = record {
    condition = [];
    action = some (record {
      quota = format_int e.quota;
      fill_interval = e.action.fill_interval;
      strategy = e.action.strategy;
    });
    match = des.match;
    target = des.target;
    custom_key = [];
    custom_value = [];
  }

  valid_of-Effective :
      (des : SmartLimitDescriptor) (e : Effective des)
      → valid_of fw material des ≡ resolved des e ∷ []
  unfolding valid_of
  valid_of-Effective des e = rw (e.condition_true, e.has_action, e.quota_value, valid_of)

  abbrev Decided : SmartLimitDescriptor → Type 0
  Decided des = Effective des ⊎ (valid_of fw material des ≡ [])

  by_quota :
      (des : SmartLimitDescriptor) (action : Action) (q : Option ℤ)
      → fw.calculate_template_bool des.condition material ≡ some true
      → des.action ≡ some action
      → fw.calculate_template action.quota material ≡ q
      → Decided des
  unfolding valid_of
  by_quota des action none hc ha hq = inr (rw (hc, ha, hq, valid_of))
  by_quota des action (some quota) hc ha hq = inl (record {
    action = action;
    quota = quota;
    condition_true = hc;
    has_action = ha;
    quota_value = hq;
  })

  by_action :
      (des : SmartLimitDescriptor) (a : Option Action)
      → fw.calculate_template_bool des.condition material ≡ some true
      → des.action ≡ a
      → Decided des
  unfolding valid_of
  by_action des none hc ha = inr (rw (hc, ha, valid_of))
  by_action des (some action) hc ha =
      by_quota des action (fw.calculate_template action.quota material) hc ha refl

  by_condition :
      (des : SmartLimitDescriptor) (c : Option Bool)
      → fw.calculate_template_bool des.condition material ≡ c
      → Decided des
  unfolding valid_of
  by_condition des none hc = inr (rw (hc, valid_of))
  by_condition des (some false) hc = inr (rw (hc, valid_of))
  by_condition des (some true) hc = by_action des des.action hc refl

  -- The selected descriptors of a list: those that take effect, resolved, in their order.
  pub data Selects : List SmartLimitDescriptor → List SmartLimitDescriptor → Type 0 where
    done : Selects [] []
    skip :
        {des : SmartLimitDescriptor} {dess ds : List SmartLimitDescriptor}
        → ¬ Effective des
        → Selects dess ds
        → Selects (des ∷ dess) ds
    take :
        {des : SmartLimitDescriptor} {dess ds : List SmartLimitDescriptor}
        → (e : Effective des) → Selects dess ds
        → Selects (des ∷ dess) (resolved des e ∷ ds)

  -- If no descriptor of a set is nil then its valid descriptors are found without a panic: those
  -- that take effect, resolved at the metrics, in the order of the set; every other descriptor is
  -- left out.
  pub valid_descriptors-Selects :
      (dess : List SmartLimitDescriptor)
      → (ds : List SmartLimitDescriptor) × (valid_descriptors fw material (map some dess) ≡ ret ds)
        × Selects dess ds
  unfolding valid_descriptors
  valid_descriptors-Selects [] = ([], refl, done)
  valid_descriptors-Selects (des ∷ dess) =
      let (ds, made, selects) = valid_descriptors-Selects dess in
      elim (by_condition des (fw.calculate_template_bool des.condition material) refl) [
        | inl e ↦ (
          resolved des e ∷ ds,
          rw made (ap (λ l. ret (l ++ ds)) (valid_of-Effective des e)),
          take e selects,
        )
        | inr nothing ↦ (
          ds,
          rw made (ap (λ l. ret (l ++ ds)) nothing),
          skip (λ e. absurd (cc (nothing, valid_of-Effective des e))) selects,
        )
      ]

  -- What is selected of descriptors that are there.
  selected :
      (dess ds : List SmartLimitDescriptor)
      → valid_descriptors fw material (map some dess) ≡ ret ds
      → Selects dess ds
  selected dess ds e =
      let (xs, made, selects) = valid_descriptors-Selects dess in
      let same : xs ≡ ds = cc in subst (Selects dess) same selects

  Selects-IsPlain :
      {dess ds : List SmartLimitDescriptor}
      → Selects dess ds
      → All HasMatchers dess
      → All IsPlain ds
  Selects-IsPlain done h = tt
  Selects-IsPlain (skip n s) h = Selects-IsPlain s h.1
  Selects-IsPlain (take e s) h = ((refl, h.0), Selects-IsPlain s h.1)

  answered :
      (loc : NamespacedName) (d : SmartLimitDescriptor)
      → IsPlain d
      → (action : RateLimitAction) × (generate_route_rate_limit_action fw d loc ≡ ret (some action))
        × (generate_local_rate_limit_descriptor_entries fw d loc ≡ entry_of_action action ∷ [])
  answered loc d h =
      let (action, e, made) = action-IsPlain fw d loc h in
      (action, made, entries-action fw d loc (some action) made)

  -- If no descriptor and no matcher is nil then no valid descriptor has a custom key and value,
  -- also when the descriptor that the user wrote does: so each has a rate limit action on its
  -- routes, for the entry that its limit is on.
  pub valid_descriptors-plain :
      (loc : NamespacedName) (dess ds : List SmartLimitDescriptor)
      → All HasMatchers dess
      → valid_descriptors fw material (map some dess) ≡ ret ds
      → All
          (λ d.
            (action : RateLimitAction) × (generate_route_rate_limit_action fw d loc
              ≡ ret (some action))
            × (generate_local_rate_limit_descriptor_entries fw d loc ≡ entry_of_action action ∷ []))
          ds
  valid_descriptors-plain loc dess ds h e =
      All-map _ (answered loc) ds (Selects-IsPlain (selected dess ds e) h)

  pub Selects-IsComplete :
      {dess ds : List SmartLimitDescriptor}
      → Selects dess ds
      → All HasParts dess
      → All IsComplete ds
  Selects-IsComplete done h = tt
  Selects-IsComplete (skip n s) h = Selects-IsComplete s h.1
  Selects-IsComplete (take {des} e s) h =
      let (interval, hi) = interval_of_action des e.action e.has_action h.0.0 in
      ((_, interval, refl, hi, h.0.1), Selects-IsComplete s h.1)
