-- ===== src/GlobalLimit/Named.antt =====
-- The service in what the rate limit server is told.
use limiter.Prelude.{
  ◌≡◌, subst, ℤ, List, [], ◌∷◌, ◌++◌, true, Option, none, some, Go, ret, panic, >>=-eq-ret, All,
  arith,
}
use limiter.Text.{Text, text}
use limiter.Text.Search.{contains}
use limiter.Api.{SmartLimitDescriptor, NamespacedName}
use limiter.Model.{Descriptor}
use limiter.Framework.{Framework}
use limiter.Action.Agreement.{contains-generate_descriptor_value}
use limiter.GlobalLimit.{
  QuotaError, calculate_quota_per_unit, global_item, add_item,
  generate_global_rate_limit_descriptor,
}

abbrev pub IsNamed : NamespacedName → Descriptor → Type 0
IsNamed loc item = contains item.value (loc.name ++ (text "." ++ loc.namespace)) ≡ true

module _ (fw : Framework) (loc : NamespacedName) where
  add_item-IsNamed :
      (d : SmartLimitDescriptor) (r : Go (ℤ × Text × Option QuotaError))
      (rest : Go (List Descriptor)) (items : List Descriptor)
      → ((later : List Descriptor) → rest ≡ ret later → All (IsNamed loc) later)
      → add_item fw d loc r rest ≡ ret items
      → All (IsNamed loc) items
  unfolding add_item global_item
  add_item-IsNamed d panic rest items ih h = absurd (cc)
  add_item-IsNamed d (ret (quota, unit, some e)) rest items ih h =
      subst (All (IsNamed loc)) {x = []} (ground arith) tt
  add_item-IsNamed d (ret (quota, unit, none)) rest items ih h =
      let (later, e, e') = >>=-eq-ret rest _ h in
      subst (All (IsNamed loc)) {x = global_item fw d loc quota unit ∷ later} (ground arith)
        (contains-generate_descriptor_value fw d loc, ih later e)

  pub generate_global_rate_limit_descriptor-IsNamed :
      (ds : List SmartLimitDescriptor) (items : List Descriptor)
      → generate_global_rate_limit_descriptor fw ds loc ≡ ret items
      → All (IsNamed loc) items
  unfolding generate_global_rate_limit_descriptor
  generate_global_rate_limit_descriptor-IsNamed [] items h =
      subst (All (IsNamed loc)) {x = []} (ground arith) tt
  generate_global_rate_limit_descriptor-IsNamed (d ∷ ds) items h =
      add_item-IsNamed d (calculate_quota_per_unit d)
        (generate_global_rate_limit_descriptor fw ds loc) items
        (generate_global_rate_limit_descriptor-IsNamed ds) h
