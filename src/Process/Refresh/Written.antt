-- ===== src/Process/Refresh/Written.antt =====
-- The writes of a refresh one after the other, and what each leaves of the others.
use limiter.Prelude.{
  ◌≡◌, refl, ap, sym, ◌∙◌, List, [], ◌∷◌, Bool, true, false, not, Option, none, some, if◌then◌else◌,
  All, All-map, keep_if, ret,
}
use mathlib.Core.List.Permᴰ
use limiter.Text.{Text}
use limiter.GoMap.{GoMap, get, Runtime, IsDistinct}
use limiter.GoMap.Range.{get-perm, All-perm}
use limiter.GoMap.Entries.{All-get}
use limiter.Api.{SmartLimitDescriptor, SmartLimiterStatus, NamespacedName, found}
use limiter.Model.{Descriptor}
use limiter.Envoy.{EnvoyFilter}
use limiter.Framework.{Framework}
use limiter.Environment.{Environment, is_global_enabled}
use limiter.GlobalLimit.{get_config_map_namespace_name}
use limiter.Server.{Server, Platform, SmartLimiter, ConfigMap, IsStore, IsMetadata, IsHealthy}
use limiter.Filters.{Subset, Cluster, Configs, descriptors_to_envoy_filter, subset_selector}
use limiter.Filters.Subsets.{Outcome, reported}
use limiter.Process.ConfigMap.{
  mentions, rate_limit_config, construct_config_map, update_of, replaced, refresh_config_map,
}
use limiter.Process.ConfigMap.Kinds.{refresh_config_map-keeps}
use limiter.Process.ConfigMap.Items.{Holds, own_items_replaced}
use limiter.Process.Refresh.{status_failed, refresh_filters, write_configs}
use limiter.Process.Refresh.Loop.{InPlace, InPlace-same, refresh_filters-InPlace}
use limiter.Process.Refresh.Healthy.{
  IsDistinct-HasOwnKeys, healthy-NoErrors, refresh_filters-keeps, maps-LeftAlone,
}

module _ (fw : Framework) (go : Runtime) (srv : Server) (p : Platform) (env : Environment)
    (host_subsets : Text → Option (List Subset)) (i : SmartLimiter) where
  abbrev pub loc_of : NamespacedName
  loc_of = record { name = i.name; namespace = i.namespace }

  abbrev pub cluster_at : srv.State → Cluster
  cluster_at s = record { host_subsets = host_subsets; get_service = srv.get_service s }

  -- With no descriptor that takes effect no filter is asked for; else the filter of these
  -- descriptors, for the workloads of the subset, and they are in the status.
  abbrev pub Done :
      srv.State
      → SmartLimiterStatus
      → Option (GoMap Text)
      → Subset
      → List SmartLimitDescriptor
      → Type 0
  Done s status sel sub [] = InPlace fw go srv p i s (sub.name, none)
  Done s status sel sub (d ∷ ds) =
      (ef : Option EnvoyFilter) × (descriptors_to_envoy_filter fw go (d ∷ ds)
          (subset_selector fw go sel sub) loc_of i.spec.rls
        ≡ ret ef)
      × InPlace fw go srv p i s (sub.name, ef)
      × (get status.ratelimit_status sub.name ≡ some (reported (d ∷ ds)))

  -- The items of the rate limit server that are about the service are the generated ones, and the
  -- others are as before; with global limits switched off no config map has changed.
  abbrev pub GlobalDone : Bool → srv.State → srv.State → List Descriptor → List Descriptor → Type 0
  GlobalDone true s s' items desc =
      (items' : List Descriptor) × Holds srv p s' items'
      × (keep_if (mentions loc_of) items' ≡ desc)
      × (keep_if (λ item. not (mentions loc_of item)) items'
          ≡ keep_if (λ item. not (mentions loc_of item)) items)
  GlobalDone false s s' items desc =
      (loc' : NamespacedName) → srv.get_config_map s' loc' ≡ srv.get_config_map s loc'

  module _ (st : IsStore srv) (meta : IsMetadata p) (ok : IsHealthy srv p)
      (yaml : (items : List Descriptor)
        → p.yaml_unmarshal (p.yaml_marshal (rate_limit_config items))
          ≡ some (some (rate_limit_config items)))
      (s : srv.State) (c : Configs) (material : Option (GoMap Text)) where
    -- The three states that the writes go through: after the filters, after the config map and after
    -- the status.
    abbrev pub after_filters : srv.State
    after_filters = refresh_filters fw go srv p s i (go.range (Option EnvoyFilter) c.envoy_filters)

    abbrev pub IsAfterConfigMap : Bool → srv.State → Type 0
    IsAfterConfigMap enabled s2 =
        (if enabled
          then refresh_config_map srv p after_filters c.global_descriptors loc_of
          else ret after_filters)
        ≡ ret s2

    abbrev pub new_status : SmartLimiterStatus
    new_status = record { ratelimit_status = c.descriptors; metric_status = material }

    abbrev pub after_status : srv.State → srv.State
    after_status s2 = (srv.update_status s2 (record i { status = new_status })).0

    Holds-same :
        (t t' : srv.State) (items : List Descriptor)
        → srv.get_config_map t' get_config_map_namespace_name
          ≡ srv.get_config_map t get_config_map_namespace_name
        → Holds srv p t items
        → Holds srv p t' items
    Holds-same t t' items same (cm, config, domain, g, d, y) = (cm, config, domain, same ∙ g, d, y)

    config_map_keeps :
        {A : Type 0} (read : srv.State → A)
        → ((t : srv.State) (cm : ConfigMap) → read (srv.update_config_map t cm).0 ≡ read t)
        → (enabled : Bool) (s2 : srv.State) → IsAfterConfigMap enabled s2
        → read s2 ≡ read after_filters
    config_map_keeps read alone true s2 h =
        refresh_config_map-keeps srv p after_filters read (alone after_filters) c.global_descriptors
          loc_of s2 h
    config_map_keeps read alone false s2 h =
        let same : after_filters ≡ s2 = cc in ap read (sym same)

    filters_kept :
        (enabled : Bool) (s2 : srv.State) (loc : NamespacedName)
        → IsAfterConfigMap enabled s2
        → srv.get_envoy_filter (after_status s2) loc ≡ srv.get_envoy_filter after_filters loc
    filters_kept enabled s2 loc h =
        (st.status_kinds s2 (record i { status = new_status }) loc).0
        ∙ config_map_keeps (λ t. srv.get_envoy_filter t loc) (λ t cm. st.config_map_kinds t cm loc)
            enabled s2 h

    limiter_kept :
        (enabled : Bool) (s2 : srv.State)
        → IsAfterConfigMap enabled s2
        → srv.get_smart_limiter s2 loc_of ≡ srv.get_smart_limiter s loc_of
    limiter_kept enabled s2 h =
        config_map_keeps (λ t. srv.get_smart_limiter t loc_of)
          (λ t cm. ok.config_map_limiters t cm loc_of) enabled s2 h
        ∙ refresh_filters-keeps fw go srv p i (λ t. srv.get_smart_limiter t loc_of)
            (ok.filter_limiters loc_of) st s (go.range (Option EnvoyFilter) c.envoy_filters)

    pub every_filter_placed :
        (enabled : Bool) (s2 : srv.State)
        → IsAfterConfigMap enabled s2
        → IsDistinct c.envoy_filters
        → All (InPlace fw go srv p i (after_status s2)) c.envoy_filters
    every_filter_placed enabled s2 after d =
        let es = go.range (Option EnvoyFilter) c.envoy_filters in
        let perm = go.range_perm (Option EnvoyFilter) c.envoy_filters in
        let (same, d') = get-perm (Permᴰ.symm perm) d in
        All-perm _ perm (
          All-map _
            (λ e h.
              InPlace-same fw go srv p i after_filters (after_status s2) e
                (filters_kept enabled s2 _ after) h)
            es
            (refresh_filters-InPlace fw go srv p i st meta s es
              (IsDistinct-HasOwnKeys fw go srv p i es d')
              (healthy-NoErrors fw go srv p i ok meta s es)))

    -- On a healthy server the update of the config map is accepted.
    update_accepted :
        (t : srv.State) (items : List Descriptor) (cm : ConfigMap)
        → srv.get_config_map t get_config_map_namespace_name ≡ found cm
        → (srv.update_config_map t (update_of p cm items)).1 ≡ none
    unfolding construct_config_map
    update_accepted t items cm g = ok.config_maps t (update_of p cm items) cm g refl

    pub global_done :
        (enabled : Bool) (items : List Descriptor)
        → Holds srv p s items
        → All (λ item. mentions loc_of item ≡ true) c.global_descriptors
        → (s2 : srv.State) × IsAfterConfigMap enabled s2
          × GlobalDone enabled s (after_status s2) items c.global_descriptors
    global_done true items h own =
        let es = go.range (Option EnvoyFilter) c.envoy_filters in
        let loc = get_config_map_namespace_name in
        let kept =
          refresh_filters-keeps fw go srv p i (λ t. srv.get_config_map t loc)
            (maps-LeftAlone srv st loc) st s es in
        let (s2, items', after, h', mine, others) =
          own_items_replaced srv p st yaml after_filters items c.global_descriptors loc_of
            (Holds-same s after_filters items kept h)
            (λ cm g.
              update_accepted after_filters (replaced loc_of items c.global_descriptors) cm g)
            own in
        (
          s2,
          after,
          (
            items',
            Holds-same s2 (after_status s2) items'
                (st.status_kinds s2 (record i { status = new_status }) loc).1 h',
            mine,
            others,
          ),
        )
    global_done false items h own = (
      after_filters,
      refl,
      λ loc'.
          (st.status_kinds after_filters (record i { status = new_status }) loc').1
          ∙ refresh_filters-keeps fw go srv p i (λ t. srv.get_config_map t loc')
              (maps-LeftAlone srv st loc') st s (go.range (Option EnvoyFilter) c.envoy_filters),
    )

    -- The status is written too, if the resource is the one that is stored.
    status_accepted :
        (s2 : srv.State)
        → srv.get_smart_limiter s loc_of ≡ found i
        → IsAfterConfigMap (is_global_enabled env) s2
        → srv.update_status s2 (record i { status = new_status }) ≡ (after_status s2, none)
    status_accepted s2 here after =
        ap (λ e. (after_status s2, e))
          (ok.statuses s2 (record i { status = new_status }) i
            (limiter_kept (is_global_enabled env) s2 after ∙ here) refl)

    pub written :
        (s2 : srv.State)
        → srv.get_smart_limiter s loc_of ≡ found i
        → IsAfterConfigMap (is_global_enabled env) s2
        → write_configs fw go srv p env host_subsets s i loc_of material c
          ≡ ret (after_status s2, none)
    unfolding write_configs
    written s2 here after = rw after (
        ap (λ r. ret (r.0, elim r.1 [ none ↦ none | some e ↦ some (status_failed e) ]))
          (status_accepted s2 here after))

    pub subset_served :
        (s2 : srv.State) (sel : Option (GoMap Text)) (sub : Subset) (ds : List SmartLimitDescriptor)
        → All (InPlace fw go srv p i (after_status s2)) c.envoy_filters
        → Outcome fw go i.spec material loc_of sel c sub ds
        → Done (after_status s2) new_status sel sub ds
    subset_served s2 sel sub [] h e = All-get _ c.envoy_filters sub.name none h e
    subset_served s2 sel sub (d ∷ ds) h (ef, made, e, reported) =
        (ef, made, All-get _ c.envoy_filters sub.name ef h e, reported)

    pub status_done :
        (s2 : srv.State)
        → srv.get_smart_limiter s loc_of ≡ found i
        → IsAfterConfigMap (is_global_enabled env) s2
        → (i' : SmartLimiter) × (srv.get_smart_limiter (after_status s2) loc_of ≡ found i')
          × (i'.status ≡ new_status)
    status_done s2 here after =
        st.status_seen s2 (after_status s2) (record i { status = new_status })
          (status_accepted s2 here after)
