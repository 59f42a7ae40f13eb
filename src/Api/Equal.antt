-- ===== src/Api/Equal.antt =====
-- `reflect.DeepEqual` on two specs: pointers are followed, maps are compared by their lookups, and
-- a nil pointer, slice or map is equal to nil only.
use limiter.Prelude.{
  ◌≡◌, refl, ℤ, pos, negsuc, List, [], ◌∷◌, Bool, true, false, ◌&&◌, Option, none, some, eqb,
  length, arith, All, All-map,
}
use limiter.Text.{◌==◌, eq_refl, eq_iff}
use limiter.GoMap.{GoMap, get, IsDistinct}
use limiter.Api.{
  Slice, Duration, HeaderMatcher, Action, Target, SmartLimitDescriptor, SmartLimitDescriptors,
  SmartLimiterSpec,
}

equal_lists : {A : Type 0} → (A → A → Bool) → List A → List A → Bool
equal_lists eq [] [] = true
equal_lists eq (x ∷ xs) (y ∷ ys) = eq x y && equal_lists eq xs ys
equal_lists eq [] (y ∷ ys) = false
equal_lists eq (x ∷ xs) [] = false

equal_options : {A : Type 0} → (A → A → Bool) → Option A → Option A → Bool
equal_options eq none none = true
equal_options eq (some x) (some y) = eq x y
equal_options eq none (some y) = false
equal_options eq (some x) none = false

equal_slices : {A : Type 0} → (A → A → Bool) → Slice A → Slice A → Bool
unfolding equal_options equal_lists
equal_slices eq = equal_options (equal_lists eq)

equal_entries : {A : Type 0} → (A → A → Bool) → GoMap A → GoMap A → Bool
equal_entries eq [] b = true
equal_entries eq ((k, v) ∷ a) b =
    let rest = equal_entries eq a b in elim (get b k) [ none ↦ false | some w ↦ eq v w && rest ]

equal_maps : {A : Type 0} → (A → A → Bool) → GoMap A → GoMap A → Bool
unfolding equal_entries
equal_maps eq a b = eqb (length a) (length b) && equal_entries eq a b

equal_int : ℤ → ℤ → Bool
equal_int (pos m) (pos n) = eqb m n
equal_int (negsuc m) (negsuc n) = eqb m n
equal_int (pos m) (negsuc n) = false
equal_int (negsuc m) (pos n) = false

equal_bool : Bool → Bool → Bool
equal_bool true b = b
equal_bool false true = false
equal_bool false false = true

equal_duration : Duration → Duration → Bool
unfolding equal_int
equal_duration a b = equal_int a.seconds b.seconds && equal_int a.nanos b.nanos

equal_matcher : HeaderMatcher → HeaderMatcher → Bool
unfolding equal_bool
equal_matcher a b =
    (a.name == b.name)
    && (a.regex_match == b.regex_match)
    && (a.exact_match == b.exact_match)
    && (a.prefix_match == b.prefix_match)
    && (a.suffix_match == b.suffix_match)
    && equal_bool a.present_match b.present_match
    && equal_bool a.invert_match b.invert_match
    && equal_bool a.is_exact_match_empty b.is_exact_match_empty

equal_action : Action → Action → Bool
unfolding equal_options equal_duration
equal_action a b =
    (a.quota == b.quota)
    && equal_options equal_duration a.fill_interval b.fill_interval
    && (a.strategy == b.strategy)

equal_target : Target → Target → Bool
unfolding equal_slices equal_int
equal_target a b =
    (a.direction == b.direction)
    && equal_int a.port b.port
    && equal_slices (◌==◌) a.route b.route
    && equal_slices (◌==◌) a.host b.host

equal_descriptor : SmartLimitDescriptor → SmartLimitDescriptor → Bool
unfolding equal_slices equal_options equal_matcher equal_action equal_target
equal_descriptor a b =
    (a.condition == b.condition)
    && equal_options equal_action a.action b.action
    && equal_slices (equal_options equal_matcher) a.match b.match
    && equal_options equal_target a.target b.target
    && (a.custom_key == b.custom_key)
    && (a.custom_value == b.custom_value)

equal_descriptors : SmartLimitDescriptors → SmartLimitDescriptors → Bool
unfolding equal_slices equal_options equal_descriptor
equal_descriptors a b = equal_slices (equal_options equal_descriptor) a.descriptor b.descriptor

unfoldable pub equal_spec : SmartLimiterSpec → SmartLimiterSpec → Bool
unfolding equal_options equal_maps equal_descriptors
equal_spec a b =
    equal_options (equal_maps (equal_options equal_descriptors)) a.sets b.sets && (a.rls == b.rls)

module _ {A : Type 0} (eq : A → A → Bool) (eq-same : (x : A) → eq x x ≡ true) where
  equal_lists-same : (xs : List A) → equal_lists eq xs xs ≡ true
  unfolding equal_lists
  equal_lists-same [] = refl
  equal_lists-same (x ∷ xs) = rw (eq-same x) (equal_lists-same xs)

  equal_options-same : (o : Option A) → equal_options eq o o ≡ true
  unfolding equal_options
  equal_options-same none = refl
  equal_options-same (some x) = eq-same x

module _ {A : Type 0} (eq : A → A → Bool) (eq-same : (x : A) → eq x x ≡ true) where
  equal_slices-same : (s : Slice A) → equal_slices eq s s ≡ true
  unfolding equal_slices
  equal_slices-same s = equal_options-same (equal_lists eq) (equal_lists-same eq eq-same) s

equal_int-same : (i : ℤ) → equal_int i i ≡ true
unfolding equal_int
equal_int-same (pos n) = ground arith
equal_int-same (negsuc n) = ground arith

equal_bool-same : (b : Bool) → equal_bool b b ≡ true
unfolding equal_bool
equal_bool-same true = refl
equal_bool-same false = refl

equal_duration-same : (d : Duration) → equal_duration d d ≡ true
unfolding equal_duration
equal_duration-same d = rw (equal_int-same d.seconds) (equal_int-same d.nanos)

equal_matcher-same : (m : HeaderMatcher) → equal_matcher m m ≡ true
unfolding equal_matcher
equal_matcher-same m =
    rw
      (
        eq_refl m.name,
        eq_refl m.regex_match,
        eq_refl m.exact_match,
        eq_refl m.prefix_match,
        eq_refl m.suffix_match,
        equal_bool-same m.present_match,
        equal_bool-same m.invert_match,
      )
      (equal_bool-same m.is_exact_match_empty)

equal_action-same : (a : Action) → equal_action a a ≡ true
unfolding equal_action
equal_action-same a =
    rw (eq_refl a.quota, equal_options-same equal_duration equal_duration-same a.fill_interval)
      (eq_refl a.strategy)

equal_target-same : (t : Target) → equal_target t t ≡ true
unfolding equal_target
equal_target-same t =
    rw (eq_refl t.direction, equal_int-same t.port, equal_slices-same (◌==◌) eq_refl t.route)
      (equal_slices-same (◌==◌) eq_refl t.host)

equal_descriptor-same : (d : SmartLimitDescriptor) → equal_descriptor d d ≡ true
unfolding equal_descriptor
equal_descriptor-same d =
    rw
      (
        eq_refl d.condition,
        equal_options-same equal_action equal_action-same d.action,
        equal_slices-same (equal_options equal_matcher)
            (equal_options-same equal_matcher equal_matcher-same) d.match,
        equal_options-same equal_target equal_target-same d.target,
        eq_refl d.custom_key,
      )
      (eq_refl d.custom_value)

equal_descriptors-same : (d : SmartLimitDescriptors) → equal_descriptors d d ≡ true
unfolding equal_descriptors
equal_descriptors-same d =
    equal_slices-same (equal_options equal_descriptor)
      (equal_options-same equal_descriptor equal_descriptor-same) d.descriptor

module _ {A : Type 0} where
  -- In a map that has every key once each entry is found under its key.
  own_entries : (m : GoMap A) → IsDistinct m → All (λ e. get m e.0 ≡ some e.1) m
  unfolding get
  own_entries [] d = tt
  own_entries ((k, v) ∷ m) d = (
    rw (eq_refl k) refl,
    All-map (λ e. get ((k, v) ∷ m) e.0 ≡ some e.1) (λ e h. ground (arith, eq_iff k e.0)) m
        (own_entries m d.1),
  )

  equal_entries-found :
      (eq : A → A → Bool)
      → ((x : A) → eq x x ≡ true)
      → (a b : GoMap A) → All (λ e. get b e.0 ≡ some e.1) a
      → equal_entries eq a b ≡ true
  unfolding equal_entries
  equal_entries-found eq same [] b h = refl
  equal_entries-found eq same ((k, v) ∷ a) b h =
      rw (h.0, equal_entries) (rw (same v) (equal_entries-found eq same a b h.1))

  equal_maps-same :
      (eq : A → A → Bool)
      → ((x : A) → eq x x ≡ true)
      → (m : GoMap A) → IsDistinct m
      → equal_maps eq m m ≡ true
  unfolding equal_maps
  equal_maps-same eq same m d = ground (arith, equal_entries-found eq same m m (own_entries m d))

-- The sets have every key once.
abbrev pub HasSets : SmartLimiterSpec → Type 0
HasSets spec = elim spec.sets [ none ↦ Unit {0} | some sets ↦ IsDistinct sets ]

equal_sets-same :
    (o : Option (GoMap (Option SmartLimitDescriptors)))
    → (elim o as (λ x. Type 0) [ none ↦ Unit {0} | some sets ↦ IsDistinct sets ])
    → equal_options (equal_maps (equal_options equal_descriptors)) o o ≡ true
unfolding equal_options
equal_sets-same none h = refl
equal_sets-same (some sets) h =
    equal_maps-same (equal_options equal_descriptors)
      (equal_options-same equal_descriptors equal_descriptors-same) sets h

pub equal_spec-same : (spec : SmartLimiterSpec) → HasSets spec → equal_spec spec spec ≡ true
unfolding equal_spec
equal_spec-same spec h = rw (equal_sets-same spec.sets h) (eq_refl spec.rls)
