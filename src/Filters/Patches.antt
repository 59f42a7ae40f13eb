-- ===== src/Filters/Patches.antt =====
-- What the Envoy filter of a set holds.
use limiter.Prelude.{
  List, [], ◌∷◌, ◌++◌, Bool, true, false, Option, none, some, if◌then◌else◌, is_empty, map, keep_if,
  keep_if-append, ◌≡◌, refl, ap, ◌∙◌, sym, All, All-map, ret,
}
use mathlib.Core.List.{map-append}
use mathlib.Core.Path.{ap₂}
use limiter.Text.{Text, ◌==◌}
use limiter.GoMap.{GoMap, Runtime}
use limiter.GoMap.Groups.{values_on}
use limiter.Api.{SmartLimitDescriptor, NamespacedName}
use limiter.Envoy.{Message, Fields, ConfigObjectPatch, EnvoyFilter, ApplyTo}
use limiter.Envoy
use limiter.Framework.{Framework}
use limiter.Action.Agreement.{HasMatchers}
use limiter.RoutePatch.Groups.{all_configs, on_route}
use limiter.RoutePatch.Patches.{route_of_patch, patches_on, IsRoute, wanted_patches, one_patch_each}
use limiter.LocalLimit.{generate_http_filter_local_rate_limit_patch}
use limiter.LocalLimit.Made.{local_filter_made}
use limiter.LocalLimit.Buckets.{IsComplete, IsComplete-HasBucket}
use limiter.LocalLimit.Filing.{descriptor_entries, HasBucket}
use limiter.LocalLimit.PerRoute.{wanted_limits, wanted_limits-nil, one_limit_each}
use limiter.GlobalLimit.{
  generate_envoy_http_filter_global_rate_limit_patch, get_rate_limiter_server_cluster,
}
use limiter.GlobalLimit.Made.{global_filter_made}
use limiter.Filters.{
  global_part, local_part, global_patches, local_patches, descriptors_to_envoy_filter,
}
use limiter.Filters.Panics.{local_part-IsComplete}

abbrev pub is_route : ConfigObjectPatch → Bool
is_route p = elim p.apply_to [ Envoy.http_route ↦ true | Envoy.http_filter ↦ false ]

abbrev pub is_filter : ConfigObjectPatch → Bool
is_filter p = elim p.apply_to [ Envoy.http_route ↦ false | Envoy.http_filter ↦ true ]

abbrev pub if_made : Option ConfigObjectPatch → List ConfigObjectPatch
if_made none = []
if_made (some p) = p ∷ []

routes-kept : (ps : List ConfigObjectPatch) → All IsRoute ps → keep_if is_route ps ≡ ps
routes-kept [] h = refl
routes-kept (p ∷ ps) h = rw (h.0, routes-kept ps h.1)

routes-dropped : (ps : List ConfigObjectPatch) → All IsRoute ps → keep_if is_filter ps ≡ []
routes-dropped [] h = refl
routes-dropped (p ∷ ps) h = rw (h.0, routes-dropped ps h.1)

filter-kept :
    (p : ConfigObjectPatch) (ps : List ConfigObjectPatch)
    → p.apply_to ≡ Envoy.http_filter
    → keep_if is_filter (p ∷ ps) ≡ p ∷ keep_if is_filter ps
filter-kept p ps h = rw h

filter-dropped :
    (p : ConfigObjectPatch) (ps : List ConfigObjectPatch)
    → p.apply_to ≡ Envoy.http_filter
    → keep_if is_route (p ∷ ps) ≡ keep_if is_route ps
filter-dropped p ps h = rw h

module _ (fw : Framework) (encode : Message → Fields)
    (converts : (m : Message) → fw.message_to_struct m ≡ some (encode m)) (go : Runtime) where
  -- The patches that a part of the filter adds: for the whole listener, and for a route.
  abbrev Adds :
      List ConfigObjectPatch → List ConfigObjectPatch → (Text → List ConfigObjectPatch) → Type 0
  Adds ps filters on =
      (keep_if is_filter ps ≡ filters) × ((k : Text) → patches_on k (keep_if is_route ps) ≡ on k)

  Adds-append :
      (ps qs : List ConfigObjectPatch) (fs gs : List ConfigObjectPatch)
      (on on' : Text → List ConfigObjectPatch)
      → Adds ps fs on
      → Adds qs gs on'
      → Adds (ps ++ qs) (fs ++ gs) (λ k. on k ++ on' k)
  Adds-append ps qs fs gs on on' h h' = (
    keep_if-append is_filter ps qs ∙ ap₂ (◌++◌) h.0 h'.0,
    λ k.
        ap (patches_on k) (keep_if-append is_route ps qs)
        ∙ keep_if-append (λ p. route_of_patch p == k) (keep_if is_route ps) (keep_if is_route qs)
        ∙ ap₂ (◌++◌) (h.1 k) (h'.1 k),
  )

  abbrev pub global_wanted : List SmartLimitDescriptor → Text → List ConfigObjectPatch
  global_wanted ds rls =
      if is_empty (global_part ds)
      then []
      else if_made (
          generate_envoy_http_filter_global_rate_limit_patch fw
            (get_rate_limiter_server_cluster rls))

  abbrev pub local_wanted : List SmartLimitDescriptor → List ConfigObjectPatch
  local_wanted ds =
      if is_empty (local_part ds)
      then []
      else if_made (generate_http_filter_local_rate_limit_patch fw)

  global_patches-Adds :
      (globals : List SmartLimitDescriptor) (rls : Text)
      → (ps : List ConfigObjectPatch) × (global_patches fw go globals rls ≡ map some ps)
        × Adds ps
            (if is_empty globals
              then []
              else if_made (
                  generate_envoy_http_filter_global_rate_limit_patch fw
                    (get_rate_limiter_server_cluster rls)))
            (λ k. [])
  unfolding global_patches
  global_patches-Adds [] rls = ([], refl, (refl, λ k. refl))
  global_patches-Adds (d ∷ ds) rls =
      let (p, ep, ip) =
        global_filter_made fw encode converts (get_rate_limiter_server_cluster rls) in
      (
        p ∷ [],
        rw ep,
        (
          filter-kept p [] ip ∙ ap if_made (sym ep),
          λ k. ap (patches_on k) (filter-dropped p [] ip),
        ),
      )

  local_patches-Adds :
      (locals : List SmartLimitDescriptor) (loc : NamespacedName)
      → All IsComplete locals
      → (ps : List ConfigObjectPatch) × (local_patches fw go locals loc ≡ ret (map some ps))
        × Adds ps
            (if is_empty locals
              then []
              else if_made (generate_http_filter_local_rate_limit_patch fw))
            (λ k.
              wanted_limits fw encode converts locals loc k
                (values_on k (descriptor_entries locals)))
  unfolding local_patches
  local_patches-Adds [] loc h =
      ([], refl, (refl, λ k. sym (wanted_limits-nil fw encode converts [] loc k)))
  local_patches-Adds (d ∷ ds) loc h =
      let (ps, e, r, on) =
        one_limit_each fw encode converts (d ∷ ds) loc go
          (All-map HasBucket IsComplete-HasBucket (d ∷ ds) h) in
      let (p, ep, ip) = local_filter_made fw encode converts in
      (
        p ∷ ps,
        rw (e, ep),
        (
          filter-kept p ps ip ∙ ap (λ l. p ∷ l) (routes-dropped ps r) ∙ ap if_made (sym ep),
          λ k. ap (patches_on k) (filter-dropped p ps ip ∙ routes-kept ps r) ∙ on k,
        ),
      )

  -- If every message converts and every descriptor has an action with an interval and no nil
  -- matcher, the Envoy filter is made, for the given workloads. It inserts the filter of the rate
  -- limit server exactly if some descriptor has the global strategy, and the local filter exactly
  -- if some descriptor has another. For a route it has one patch with the actions of all
  -- descriptors that name it, if any has an action, and one with the local limits of those that are
  -- not global, if there are any; nothing else.
  pub envoy_filter_complete :
      (ds : List SmartLimitDescriptor) (labels : GoMap Text) (loc : NamespacedName) (rls : Text)
      → All IsComplete ds
      → (ps : List ConfigObjectPatch) × (descriptors_to_envoy_filter fw go ds labels loc rls
          ≡ ret (some (record { labels = labels; config_patches = map some ps })))
        × (keep_if is_filter ps ≡ global_wanted ds rls ++ local_wanted ds)
        × ((k : Text)
            → patches_on k (keep_if is_route ps)
              ≡ wanted_patches encode (on_route k (all_configs fw loc ds))
                ++ wanted_limits fw encode converts
                    (local_part ds)
                    loc
                    k
                    (values_on k (descriptor_entries (local_part ds))))
  unfolding descriptors_to_envoy_filter
  envoy_filter_complete ds labels loc rls h =
      let (rs, er, ir, onr) =
        one_patch_each fw encode converts go ds loc (All-map HasMatchers (λ d c. c.4) ds h) in
      let (gs, eg, ag) = global_patches-Adds (global_part ds) rls in
      let (ls, el, al) = local_patches-Adds (local_part ds) loc (local_part-IsComplete ds h) in
      let (af, ao) =
        Adds-append rs (gs ++ ls) [] _ _ _
          (routes-dropped rs ir, λ k. rw (routes-kept rs ir) (onr k))
          (Adds-append gs ls _ _ _ _ ag al) in
      (
        rs ++ (gs ++ ls),
        rw (er, el, eg, descriptors_to_envoy_filter)
            (ap (λ l. ret (some (record { labels = labels; config_patches = l })))
              (sym (
                map-append some rs (gs ++ ls)
                ∙ ap (λ l. map some rs ++ l) (map-append some gs ls)))),
        af,
        ao,
      )
