-- ===== src/Process/ConfigMap/Panics.antt =====
-- Panics in `refreshConfigMap`.
use limiter.Prelude.{
  ◌≡◌, refl, ◌↔◌, Go, panic, ◌>>=◌, deref, >>=-ret-panic, HasNil, if◌then◌else◌, List, [], ◌∷◌,
  ◌++◌, Option, some, none, map, not, keep_if, ret, Returns, Bool-cases, Option-cases, inl, inr,
}
use limiter.Text.{Text}
use limiter.GoMap.{get}
use limiter.Api.{NamespacedName, Fetched, found, failed}
use limiter.Model
use limiter.Model.{Descriptor, RateLimitConfig}
use limiter.GlobalLimit.{get_config_map_namespace_name}
use limiter.Server.{Server, Platform, ConfigMap}
use limiter.Process.ConfigMap.{mentions, kept, replaced, store, refresh_config_map}

-- If no item is nil then those are kept that do not mention the service.
pub kept-map :
    (loc : NamespacedName) (items : List Descriptor)
    → kept loc (map some items) ≡ ret (keep_if (λ item. not (mentions loc item)) items)
unfolding kept
kept-map loc [] = refl
kept-map loc (item ∷ items) = elim (Bool-cases (mentions loc item)) [
  | inl e ↦ rw (kept-map loc items, e) refl
  | inr e ↦ rw (kept-map loc items, e) refl
]

kept-HasNil :
    (loc : NamespacedName) (items : List (Option Descriptor))
    → kept loc items ≡ panic
    → HasNil items
unfolding kept
kept-HasNil loc [] h = absurd (cc)
kept-HasNil loc (none ∷ items) h = tt
kept-HasNil loc (some item ∷ items) h =
    kept-HasNil loc items
      (>>=-ret-panic (kept loc items) (λ xs. if mentions loc item then xs else item ∷ xs) h)

HasNil-kept :
    (loc : NamespacedName) (items : List (Option Descriptor))
    → HasNil items
    → kept loc items ≡ panic
unfolding kept
HasNil-kept loc [] h = absurd h
HasNil-kept loc (none ∷ items) h = refl
HasNil-kept loc (some item ∷ items) h = rw (HasNil-kept loc items h) refl

-- The document is null, or an item of it is.
abbrev pub IsNull : Option RateLimitConfig → Type 0
IsNull none = Unit
IsNull (some rc) = HasNil rc.descriptors

module _ (srv : Server) (p : Platform) where
  -- If the configuration of the rate limit server is read at all, it is not null, and none of its
  -- items is.
  abbrev pub IsReadable : srv.State → Type 0
  IsReadable s =
      (cm : ConfigMap) (config : Text) (read : Option RateLimitConfig)
      → srv.get_config_map s get_config_map_namespace_name ≡ found cm
      → get cm.data_of Model.config_map_config ≡ some config
      → p.yaml_unmarshal config ≡ some read
      → (domain : Text) × (items : List Descriptor) × (read
          ≡ some (record { domain = domain; descriptors = map some items }))

  pub refresh_config_map-Returns :
      (s : srv.State) (desc : List Descriptor) (loc : NamespacedName)
      → IsReadable s
      → Returns (refresh_config_map srv p s desc loc)
  unfolding refresh_config_map
  refresh_config_map-Returns s desc loc h =
      by_read (srv.get_config_map s get_config_map_namespace_name) refl
    where
      by_read :
          (r : Fetched ConfigMap)
          → srv.get_config_map s get_config_map_namespace_name ≡ r
          → Returns (refresh_config_map srv p s desc loc)
      by_read (failed e) g = (s, rw (g, refresh_config_map) refl)
      by_read (found cm) g = elim (Option-cases (get cm.data_of Model.config_map_config)) [
        | inl e ↦ (s, rw (g, refresh_config_map) (rw e refl))
        | inr (config, e) ↦ elim (Option-cases (p.yaml_unmarshal config)) [
          | inl f ↦ (s, rw (g, refresh_config_map) (rw e (rw f refl)))
          | inr (read, f) ↦
              (let (domain, items, whole) = h cm config read g e f in
                (
                  store srv p s cm (replaced loc items desc),
                  rw (g, refresh_config_map)
                      (rw e (rw f (rw whole (rw (kept-map loc items) refl)))),
                ))
        ]
      ]

  -- The configuration that is read is broken.
  abbrev pub ReadsNull : srv.State → Type 0
  ReadsNull s =
      (cm : ConfigMap) × (config : Text) × (read : Option RateLimitConfig) × (srv.get_config_map s
          get_config_map_namespace_name
        ≡ found cm)
      × (get cm.data_of Model.config_map_config ≡ some config)
      × (p.yaml_unmarshal config ≡ some read)
      × IsNull read

  module _ (s : srv.State) (desc : List Descriptor) (loc : NamespacedName) where
    after_read : (cm : ConfigMap) (read : Option RateLimitConfig) → Go srv.State
    after_read cm read = do
      rc ← deref read
      others ← kept loc rc.descriptors
      ret (store srv p s cm (others ++ desc))

    after_read-IsNull :
        (cm : ConfigMap) (read : Option RateLimitConfig) → after_read cm read ≡ panic → IsNull read
    unfolding after_read
    after_read-IsNull cm none h = tt
    after_read-IsNull cm (some rc) h =
        kept-HasNil loc rc.descriptors
          (>>=-ret-panic (kept loc rc.descriptors) (λ xs. store srv p s cm (xs ++ desc)) h)

    IsNull-after_read :
        (cm : ConfigMap) (read : Option RateLimitConfig) → IsNull read → after_read cm read ≡ panic
    unfolding after_read
    IsNull-after_read cm none h = refl
    IsNull-after_read cm (some rc) h = rw (HasNil-kept loc rc.descriptors h) refl

    reads_null : refresh_config_map srv p s desc loc ≡ panic → ReadsNull s
    unfolding refresh_config_map after_read
    reads_null h = by_read (srv.get_config_map s get_config_map_namespace_name) refl
      where
        by_read :
            (r : Fetched ConfigMap)
            → srv.get_config_map s get_config_map_namespace_name ≡ r
            → ReadsNull s
        by_read (failed e) g = let h0 = rw (g, refresh_config_map) at h in absurd (cc)
        by_read (found cm) g =
            let h0 = rw (g, refresh_config_map) at h in
            elim (Option-cases (get cm.data_of Model.config_map_config)) [
              | inl e ↦ (let h1 = rw e at h0 in absurd (cc))
              | inr (config, e) ↦
                  (let h1 = rw e at h0 in
                    elim (Option-cases (p.yaml_unmarshal config)) [
                      | inl f ↦ (let h2 = rw f at h1 in absurd (cc))
                      | inr (read, f) ↦
                          (cm, config, read, g, e, f, after_read-IsNull cm read (rw f at h1))
                    ])
            ]

    panics : ReadsNull s → refresh_config_map srv p s desc loc ≡ panic
    unfolding refresh_config_map after_read
    panics (cm, config, read, g, e, f, null) =
        rw (g, refresh_config_map) (rw e (rw f (IsNull-after_read cm read null)))

    -- The refresh of the config map panics exactly if a configuration is stored whose YAML is a null
    -- document or has a null item.
    pub refresh_config_map-panic : (refresh_config_map srv p s desc loc ≡ panic) ↔ ReadsNull s
    refresh_config_map-panic = (reads_null, panics)
