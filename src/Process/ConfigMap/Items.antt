-- ===== src/Process/ConfigMap/Items.antt =====
-- What the rate limit server is told after a refresh.
use limiter.Prelude.{
  ◌≡◌, refl, ap, ◌∙◌, inl, inr, List, [], ◌∷◌, ◌++◌, true, not, none, some, arith, Bool-cases, map,
  ret, keep_if, keep_if-append, keep_if-all, keep_if-none, All-keep_if, All, All-map, append-nil,
}
use mathlib.Core.Path.{ap₂}
use limiter.Text.{Text, eq_iff, eq_refl}
use limiter.GoMap.{GoMap, get}
use limiter.Api.{NamespacedName, found}
use limiter.Model
use limiter.Model.{Descriptor}
use limiter.GlobalLimit.{get_config_map_namespace_name}
use limiter.Server.{Server, Platform, ConfigMap, IsStore}
use limiter.Process.ConfigMap.Panics.{kept-map}
use limiter.Process.ConfigMap.{
  same_map, mentions, rate_limit_config, construct_config_map, update_of, replaced, store,
  refresh_config_map,
}

-- A map that is deeply equal to one with a single entry is that map.
same_map_single :
    (a : GoMap Text) (key value : Text)
    → same_map a ((key, value) ∷ []) ≡ true
    → a ≡ (key, value) ∷ []
unfolding get same_map
same_map_single [] key value h = absurd (cc)
same_map_single ((k, v) ∷ []) key value h = ground (arith, eq_iff key k, eq_iff v value)
same_map_single ((k, v) ∷ e ∷ a) key value h = ground arith

same_map_refl : (key value : Text) → same_map ((key, value) ∷ []) ((key, value) ∷ []) ≡ true
unfolding get same_map
same_map_refl key value = ground (arith, eq_refl key, eq_refl value)

module _ (loc : NamespacedName) (items desc : List Descriptor) where
  not_mentioned : keep_if (mentions loc) (keep_if (λ item. not (mentions loc item)) items) ≡ []
  not_mentioned =
      keep_if-none (mentions loc) _
        (All-map _ (λ item e. ground arith) _ (All-keep_if (λ item. not (mentions loc item)) items))

  replaced-own :
      All (λ item. mentions loc item ≡ true) desc
      → keep_if (mentions loc) (replaced loc items desc) ≡ desc
  replaced-own h =
      keep_if-append (mentions loc) (keep_if (λ item. not (mentions loc item)) items) desc
      ∙ ap₂ (◌++◌) not_mentioned (keep_if-all (mentions loc) desc h)

  replaced-others :
      All (λ item. mentions loc item ≡ true) desc
      → keep_if (λ item. not (mentions loc item)) (replaced loc items desc)
        ≡ keep_if (λ item. not (mentions loc item)) items
  replaced-others h =
      keep_if-append (λ item. not (mentions loc item))
        (keep_if (λ item. not (mentions loc item)) items) desc
      ∙ ap₂ (◌++◌)
          (keep_if-all (λ item. not (mentions loc item)) _
            (All-keep_if (λ item. not (mentions loc item)) items))
          (keep_if-none (λ item. not (mentions loc item)) desc
            (All-map _ (λ item e. rw e refl) desc h))
      ∙ append-nil _

module _ (srv : Server) (p : Platform) where
  -- The items of the configuration that the rate limit server reads, of which none is nil.
  abbrev pub Holds : srv.State → List Descriptor → Type 0
  Holds s items =
      (cm : ConfigMap) × (config : Text) × (domain : Text) × (srv.get_config_map s
          get_config_map_namespace_name
        ≡ found cm)
      × (get cm.data_of Model.config_map_config ≡ some config)
      × (p.yaml_unmarshal config
          ≡ some (some (record { domain = domain; descriptors = map some items })))

  -- The config map is the one that is made of some items.
  abbrev Stores : srv.State → List Descriptor → Type 0
  Stores s items =
      (cm : ConfigMap) × (srv.get_config_map s get_config_map_namespace_name ≡ found cm)
      × (cm.data_of ≡ (construct_config_map p items).data_of)

  store-Stores :
      (st : IsStore srv) (s : srv.State) (cm : ConfigMap) (items : List Descriptor)
      → srv.get_config_map s get_config_map_namespace_name ≡ found cm
      → (srv.update_config_map s (update_of p cm items)).1 ≡ none
      → Stores (store srv p s cm items) items
  unfolding store construct_config_map
  store-Stores st s cm items g w =
      elim (Bool-cases (same_map cm.data_of (construct_config_map p items).data_of)) [
        | inl same ↦ rw same (
          cm,
          g,
          same_map_single cm.data_of Model.config_map_config
              (p.yaml_marshal (rate_limit_config items)) same,
        )
        | inr other ↦
            let c : ConfigMap = update_of p cm items in
            rw other (
              st.config_map_seen s (srv.update_config_map s c).0 c get_config_map_namespace_name
                refl (ap (λ e. ((srv.update_config_map s c).0, e)) w))
      ]

  store-again :
      (s : srv.State) (cm : ConfigMap) (items : List Descriptor)
      → cm.data_of ≡ (construct_config_map p items).data_of
      → store srv p s cm items ≡ s
  unfolding store construct_config_map
  store-again s cm items e =
      rw (e, same_map_refl Model.config_map_config (p.yaml_marshal (rate_limit_config items))) refl

  refresh-store :
      (s : srv.State) (items desc : List Descriptor) (loc : NamespacedName) (cm : ConfigMap)
      (config domain : Text)
      → srv.get_config_map s get_config_map_namespace_name ≡ found cm
      → get cm.data_of Model.config_map_config ≡ some config
      → p.yaml_unmarshal config
        ≡ some (some (record { domain = domain; descriptors = map some items }))
      → refresh_config_map srv p s desc loc ≡ ret (store srv p s cm (replaced loc items desc))
  unfolding refresh_config_map
  refresh-store s items desc loc cm config domain g d y =
      rw (g, refresh_config_map) (rw d (rw y (rw (kept-map loc items) refl)))

  module _ (st : IsStore srv)
      (yaml : (items : List Descriptor)
        → p.yaml_unmarshal (p.yaml_marshal (rate_limit_config items))
          ≡ some (some (rate_limit_config items))) where
    Stores-Holds : (s : srv.State) (items : List Descriptor) → Stores s items → Holds s items
    unfolding construct_config_map get
    Stores-Holds s items (cm, g, e) = (
      cm,
      p.yaml_marshal (rate_limit_config items),
      Model.domain,
      g,
      rw e (ground (arith, eq_refl Model.config_map_config)),
      yaml items,
    )

    module _ (s : srv.State) (items desc : List Descriptor) (loc : NamespacedName)
        (holds : Holds s items)
        (accepted : (cm : ConfigMap)
          → srv.get_config_map s get_config_map_namespace_name ≡ found cm
          → (srv.update_config_map s (update_of p cm (replaced loc items desc))).1 ≡ none)
        (own : All (λ item. mentions loc item ≡ true) desc) where
      refresh-Stores :
          (s' : srv.State) × (refresh_config_map srv p s desc loc ≡ ret s')
          × Stores s' (replaced loc items desc)
      refresh-Stores =
          let (cm, config, domain, g, d, y) = holds in
          (
            store srv p s cm (replaced loc items desc),
            refresh-store s items desc loc cm config domain g d y,
            store-Stores st s cm (replaced loc items desc) g (accepted cm g),
          )

      -- If the rate limit server has a configuration without nil items, the update of the stored
      -- config map to the new items, with its own version, does not fail, the new items mention the
      -- service and YAML reads back what was written, then the refresh does not panic. After it the
      -- items of the configuration that mention the service are the new ones, and those that do not
      -- are the ones that it had.
      pub own_items_replaced :
          (s' : srv.State) × (items' : List Descriptor) × (refresh_config_map srv p s desc loc
            ≡ ret s')
          × Holds s' items'
          × (keep_if (mentions loc) items' ≡ desc)
          × (keep_if (λ item. not (mentions loc item)) items'
              ≡ keep_if (λ item. not (mentions loc item)) items)
      own_items_replaced =
          let (s', done, stores) = refresh-Stores in
          (
            s',
            replaced loc items desc,
            done,
            Stores-Holds s' (replaced loc items desc) stores,
            replaced-own loc items desc own,
            replaced-others loc items desc own,
          )

      stored_again :
          (s' : srv.State) (again : List Descriptor)
          → Stores s' again
          → replaced loc again desc ≡ again
          → refresh_config_map srv p s' desc loc ≡ ret s'
      unfolding construct_config_map get
      stored_again s' again (cm, g, e) same =
          refresh-store s' again desc loc cm (p.yaml_marshal (rate_limit_config again)) Model.domain
            g (rw e (ground (arith, eq_refl Model.config_map_config))) (yaml again)
          ∙ ap (λ x. ret x) (ap (store srv p s' cm) same ∙ store-again s' cm again e)

      -- If the rate limit server has a configuration without nil items, the update of the stored
      -- config map to the new items, with its own version, does not fail, the new items mention the
      -- service and YAML reads back what was written, then a second refresh with the same items
      -- leaves the server as the first one left it.
      pub refresh_config_map-idempotent :
          (s' : srv.State) × (refresh_config_map srv p s desc loc ≡ ret s')
          × (refresh_config_map srv p s' desc loc ≡ ret s')
      refresh_config_map-idempotent =
          let (s', done, stores) = refresh-Stores in
          (
            s',
            done,
            stored_again s' (replaced loc items desc) stores
                (ap (λ l. l ++ desc) (replaced-others loc items desc own)),
          )
