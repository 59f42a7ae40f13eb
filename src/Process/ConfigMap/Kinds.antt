-- ===== src/Process/ConfigMap/Kinds.antt =====
-- The other objects while the config map is refreshed.
use limiter.Prelude.{
  ◌≡◌, refl, subst, ◌++◌, ret, deref, >>=-eq-ret, List, Bool-cases, Option-cases, inl, inr,
}
use limiter.GoMap.{get}
use limiter.Api.{NamespacedName, Fetched, found, failed}
use limiter.Model
use limiter.Model.{Descriptor}
use limiter.GlobalLimit.{get_config_map_namespace_name}
use limiter.Server.{Server, Platform, ConfigMap}
use limiter.Process.ConfigMap.{
  same_map, construct_config_map, update_of, kept, store, refresh_config_map,
}

module _ (srv : Server) (p : Platform) (s : srv.State) where
  module _ (P : srv.State → Type 0)
      (written : (cm : ConfigMap) (items : List Descriptor)
        → P (srv.update_config_map s (update_of p cm items)).0)
      (before : P s) where
    store-holds : (cm : ConfigMap) (items : List Descriptor) → P (store srv p s cm items)
    unfolding store
    store-holds cm items =
        elim (Bool-cases (same_map cm.data_of (construct_config_map p items).data_of)) [
          | inl same ↦ rw same before
          | inr other ↦ rw other (written cm items)
        ]

    -- What holds before the refresh and after the write of the config map holds after the refresh.
    pub refresh_config_map-holds :
        (desc : List Descriptor) (service_loc : NamespacedName) (s' : srv.State)
        → refresh_config_map srv p s desc service_loc ≡ ret s'
        → P s'
    unfolding refresh_config_map
    refresh_config_map-holds desc service_loc s' h =
        by_read (srv.get_config_map s get_config_map_namespace_name) refl
      where
        unchanged : refresh_config_map srv p s desc service_loc ≡ ret s → P s'
        unchanged e = let same : s ≡ s' = cc in subst P same before

        by_read :
            (r : Fetched ConfigMap) → srv.get_config_map s get_config_map_namespace_name ≡ r → P s'
        by_read (failed e) g = unchanged (rw (g, refresh_config_map) refl)
        by_read (found cm) g = elim (Option-cases (get cm.data_of Model.config_map_config)) [
          | inl e ↦ unchanged (rw (g, refresh_config_map) (rw e refl))
          | inr (config, e) ↦ elim (Option-cases (p.yaml_unmarshal config)) [
            | inl f ↦ unchanged (rw (g, refresh_config_map) (rw e (rw f refl)))
            | inr (pointer, f) ↦
                (let h0 = rw (g, refresh_config_map) at h in
                  let h1 = rw e at h0 in
                  let h2 = rw f at h1 in
                  let (rc, here, h3) = >>=-eq-ret (deref pointer) _ h2 in
                  let (others, k, h4) = >>=-eq-ret (kept service_loc rc.descriptors) _ h3 in
                  let same : store srv p s cm (others ++ desc) ≡ s' = cc in
                  subst P same (store-holds cm (others ++ desc)))
          ]
        ]

  -- What the write of a config map leaves alone is left alone by the refresh.
  pub refresh_config_map-keeps :
      {A : Type 0} (read : srv.State → A)
      → ((c : ConfigMap) → read (srv.update_config_map s c).0 ≡ read s)
      → (desc : List Descriptor) (service_loc : NamespacedName) (s' : srv.State)
      → refresh_config_map srv p s desc service_loc ≡ ret s'
      → read s' ≡ read s
  refresh_config_map-keeps read alone desc service_loc s' h =
      refresh_config_map-holds (λ t. read t ≡ read s) (λ cm items. alone (update_of p cm items))
        refl desc service_loc s' h
