-- ===== src/Action/Agreement.antt =====
-- The entry that a route's action adds to a request, and the entry that the local filter limits.
use limiter.Prelude.{
  Bool-cases, inl, inr, List, [], ◌∷◌, ◌++◌, true, false, none, some, if◌then◌else◌, is_empty, map,
  ◌≡◌, refl, ap, ◌∙◌, sym, subst, arith, append_assoc, Option, ret, ◌>>=◌, present, present-map,
}
use limiter.Text.{Text, text}
use limiter.Text.Search.{contains, contains-append}
use limiter.Text.Decimal.{format_nat}
use limiter.Text.Checksum.{checksum}
use limiter.Api.{elements, HeaderMatcher, SmartLimitDescriptor, NamespacedName}
use limiter.Envoy.{RateLimitAction, Entry, HeaderMatchSpecifier}
use limiter.Envoy
use limiter.Framework.{Framework}
use limiter.Action.{
  is_custom, route_header, route_headers, generate_descriptor_value,
  generate_route_rate_limit_action, generate_local_rate_limit_descriptor_entries,
}

-- The entry that Envoy adds to a request for an action that applies, as its documentation has it:
-- `generic_key`, or `header_match` if the headers match, with the action's descriptor value.
abbrev pub entry_of_action : RateLimitAction → Entry
entry_of_action (Envoy.generic_key v) = record { key = text "generic_key"; value = v }
entry_of_action (Envoy.header_value_match v headers) = record {
  key = text "header_match";
  value = v;
}

-- No matcher is nil.
abbrev pub HasMatchers : SmartLimitDescriptor → Type 0
HasMatchers d = (ms : List HeaderMatcher) × (elements d.match ≡ map some ms)

-- Without a custom key and value, and with all its matchers.
abbrev pub IsPlain : SmartLimitDescriptor → Type 0
IsPlain d = (is_custom d ≡ false) × HasMatchers d

route_headers-map :
    (ms : List HeaderMatcher) → route_headers (map some ms) ≡ ret (map route_header ms)
unfolding route_headers
route_headers-map [] = refl
route_headers-map (m ∷ ms) = rw (route_headers-map ms) refl

module _ (fw : Framework) (d : SmartLimitDescriptor) (loc : NamespacedName) where
  abbrev entries : List Entry
  entries = generate_local_rate_limit_descriptor_entries fw d loc

  -- If the route action of a descriptor is made without a panic then a descriptor with a custom key
  -- and value has none, and the local filter limits that key and value. Any other descriptor has one,
  -- and what it adds to a request is what the local filter limits.
  pub entries-action :
      (r : Option RateLimitAction)
      → generate_route_rate_limit_action fw d loc ≡ ret r
      → generate_local_rate_limit_descriptor_entries fw d loc ≡ elim r [
        | none ↦ record { key = d.custom_key; value = d.custom_value } ∷ []
        | some action ↦ entry_of_action action ∷ []
      ]
  unfolding generate_local_rate_limit_descriptor_entries generate_route_rate_limit_action
  entries-action r h = elim (Bool-cases (is_custom d)) [
    | inl c ↦
        let same : none ≡ r = ground (arith, rw c at h) in
        subst
          (λ x. generate_local_rate_limit_descriptor_entries fw d loc ≡ elim x [
            | none ↦ record { key = d.custom_key; value = d.custom_value } ∷ []
            | some action ↦ entry_of_action action ∷ []
          ])
          same (rw c refl)
    | inr c ↦ ground (arith, c, h)
  ]

  -- The value of a descriptor contains the name of its service, a dot and the namespace.
  pub contains-generate_descriptor_value :
      contains (generate_descriptor_value fw d loc) (loc.name ++ (text "." ++ loc.namespace)) ≡ true
  unfolding generate_descriptor_value
  contains-generate_descriptor_value =
      ap (λ t. contains (text "Service[" ++ t) service) (sym regroup)
      ∙ contains-append (text "Service[") service after
    where
      service : Text
      service = loc.name ++ (text "." ++ loc.namespace)

      after : Text
      after =
          text "]-User[none]-Id["
          ++ (format_nat (checksum (fw.descriptor_string d ++ fw.loc_string loc)) ++ text "]")

      regroup : service ++ after ≡ loc.name ++ (text "." ++ (loc.namespace ++ after))
      regroup =
          append_assoc loc.name _ after
          ∙ ap (λ t. loc.name ++ t) (append_assoc (text ".") loc.namespace after)

  -- The action of a descriptor, read off its fields.
  abbrev pub route_action : Option RateLimitAction
  route_action =
      if is_custom d
      then none
      else if is_empty (elements d.match)
      then some (Envoy.generic_key (generate_descriptor_value fw d loc))
      else some (
          Envoy.header_value_match (generate_descriptor_value fw d loc)
            (map route_header (present (elements d.match))))

  pub generate-route_action :
      HasMatchers d → generate_route_rate_limit_action fw d loc ≡ ret route_action
  unfolding generate_route_rate_limit_action
  generate-route_action (ms, e) = elim (Bool-cases (is_custom d)) [
    | inl c ↦ rw c refl
    | inr c ↦ elim (Bool-cases (is_empty (elements d.match))) [
      | inl f ↦ rw (c, f) refl
      | inr f ↦
          rw (c, f)
            (ap
                (λ x. x >>= λ headers.
                  ret
                    (some (Envoy.header_value_match (generate_descriptor_value fw d loc) headers)))
                (ap route_headers e ∙ route_headers-map ms)
              ∙ ap
                  (λ x. ret (
                    some (
                      Envoy.header_value_match (generate_descriptor_value fw d loc)
                        (map route_header x))))
                  (sym (ap present e ∙ present-map ms)))
    ]
  ]

  -- The entry of an action, by the descriptor it was made from.
  pub entry-action :
      (action : RateLimitAction)
      → route_action ≡ some action
      → entry_of_action action ≡ record {
        key = if is_empty (elements d.match) then text "generic_key" else text "header_match";
        value = generate_descriptor_value fw d loc;
      }
  entry-action action h = ground arith

  -- Only a custom key and value leave a descriptor without an action.
  action-is_custom : is_custom d ≡ false → (action : RateLimitAction) × (route_action ≡ some action)
  action-is_custom h = elim (Bool-cases (is_empty (elements d.match))) [
    | inl e ↦ (Envoy.generic_key (generate_descriptor_value fw d loc), rw (h, e))
    | inr e ↦ (
      Envoy.header_value_match (generate_descriptor_value fw d loc)
          (map route_header (present (elements d.match))),
      rw (h, e),
    )
  ]

  pub action-IsPlain :
      IsPlain d
      → (action : RateLimitAction) × (route_action ≡ some action)
        × (generate_route_rate_limit_action fw d loc ≡ ret (some action))
  action-IsPlain (h, m) =
      let (action, e) = action-is_custom h in
      (action, e, generate-route_action m ∙ ap (λ x. ret x) e)
