-- ===== src/Examples/Store.antt =====
-- A server that keeps what it is given: a concrete `Server` with the laws of a store.
use limiter.Prelude.{
  ◌≡◌, ◌≢◌, refl, sym, ap, ◌∙◌, [], ◌∷◌, Bool, true, false, ◌&&◌, Option, none, some, if◌then◌else◌,
  arith, Bool-cases, inl, inr,
}
use limiter.Text.{Text, text, ◌==◌, eq_iff, eq_refl}
use limiter.GoMap.{get, set}
use limiter.GoMap.Laws.{get-set_self}
use limiter.Api.{NamespacedName, ReadError, is_not_found, other_error, Fetched, found, failed}
use limiter.Envoy.{no_fields}
use limiter.Server.{
  Server, Platform, SmartLimiter, EnvoyFilterResource, ConfigMap, place, IsStore, IsMetadata,
  IsHealthy,
}
use limiter.Process.ConfigMap.Panics.{IsReadable}
use limiter.Examples.Yaml.{marshal, unmarshal, unmarshal-map}

pub record Objects : Type 0 where
  pub limiters : NamespacedName → Fetched SmartLimiter
  pub filters : NamespacedName → Option EnvoyFilterResource
  pub config_maps : NamespacedName → Fetched ConfigMap

same_place : NamespacedName → NamespacedName → Bool
same_place a b = a.name == b.name && a.namespace == b.namespace

same_place_self : (a : NamespacedName) → same_place a a ≡ true
unfolding same_place
same_place_self a = ground (arith, eq_refl a.name, eq_refl a.namespace)

same_place-apart : (a b : NamespacedName) → b ≢ a → same_place a b ≡ false
unfolding same_place
same_place-apart a b n = elim (Bool-cases (same_place a b)) [
  | inl e ↦ absurd (n (ground (arith, eq_iff a.name b.name, eq_iff a.namespace b.namespace)))
  | inr e ↦ e
]

-- `table` with another answer at a place.
unfoldable pub put_at :
    {A : Type 0} → (NamespacedName → A) → NamespacedName → A → NamespacedName → A
unfolding same_place
put_at table a x b = if same_place a b then x else table b

put_at_self :
    {A : Type 0} (table : NamespacedName → A) (a : NamespacedName) (x : A) → put_at table a x a ≡ x
unfolding put_at
put_at_self table a x = rw (same_place_self a) refl

put_at-apart :
    {A : Type 0} (table : NamespacedName → A) (a b : NamespacedName) (x : A)
    → b ≢ a
    → put_at table a x b ≡ table b
unfolding put_at
put_at-apart table a b x n = rw (same_place-apart a b n) refl

pub put_at-holds :
    {A : Type 0} (Q : A → Type 0) (table : NamespacedName → A) (a b : NamespacedName) (x : A)
    → Q x
    → Q (table b)
    → Q (put_at table a x b)
unfolding put_at
put_at-holds Q table a b x new old = elim (Bool-cases (same_place a b)) [
  | inl e ↦ rw e new
  | inr e ↦ rw e old
]

-- What the server answers about a filter that it has or has not.
abbrev answered : Option EnvoyFilterResource → Fetched EnvoyFilterResource
answered o = elim o [ none ↦ failed is_not_found | some filter ↦ found filter ]

abbrev put_filter : Objects → EnvoyFilterResource → Objects × Option ReadError
put_filter s o = (record s { filters = put_at s.filters (place o) (some o) }, none)

abbrev pub server : Server
server = record {
  State = Objects;
  get_smart_limiter = λ s. s.limiters;
  get_service = λ s loc. found (some ((text "app", text "reviews") ∷ []));
  get_envoy_filter = λ s loc. answered (s.filters loc);
  get_config_map = λ s. s.config_maps;
  create_envoy_filter = put_filter;
  update_envoy_filter = put_filter;
  delete_envoy_filter = λ s o. (record s { filters = put_at s.filters (place o) none }, none);
  update_config_map = λ s c. (
    record s {
      config_maps =
          put_at s.config_maps (record { name = c.name; namespace = c.namespace }) (found c);
    },
    none,
  );
  update_status = λ s i. (
    record s {
      limiters = put_at s.limiters (record { name = i.name; namespace = i.namespace }) (found i);
    },
    none,
  );
}

pub server-IsStore : IsStore server
server-IsStore = record {
  create_seen = λ s s' o e. (
    o,
    ap (λ t. answered (t.filters (place o))) (sym (ap (λ x. x.0) e))
        ∙ ap answered (put_at_self s.filters (place o) (some o)),
    refl,
    refl,
  );
  update_seen = λ s s' o e. (
    o,
    ap (λ t. answered (t.filters (place o))) (sym (ap (λ x. x.0) e))
        ∙ ap answered (put_at_self s.filters (place o) (some o)),
    refl,
    refl,
  );
  delete_seen = λ s s' o e.
      ap (λ t. answered (t.filters (place o))) (sym (ap (λ x. x.0) e))
      ∙ ap answered (put_at_self s.filters (place o) none);
  delete_missing = λ s s' o e. absurd (cc);
  create_apart = λ s o loc n. ap answered (put_at-apart s.filters (place o) loc (some o) n);
  update_apart = λ s o loc n. ap answered (put_at-apart s.filters (place o) loc (some o) n);
  delete_apart = λ s o loc n. ap answered (put_at-apart s.filters (place o) loc none n);
  config_map_seen = λ s s' c loc p e. (
    c,
    ap (λ t. t.config_maps loc) (sym (ap (λ x. x.0) e))
        ∙ rw p (
            put_at_self s.config_maps (record { name = c.name; namespace = c.namespace })
              (found c)),
    refl,
  );
  status_seen = λ s s' i e. (
    i,
    ap (λ t. t.limiters (record { name = i.name; namespace = i.namespace })) (sym (ap (λ x. x.0) e))
        ∙ put_at_self s.limiters (record { name = i.name; namespace = i.namespace }) (found i),
    refl,
  );
  create_kinds = λ s o loc. refl;
  update_kinds = λ s o loc. refl;
  delete_kinds = λ s o loc. refl;
  config_map_kinds = λ s c loc. refl;
  status_kinds = λ s i loc. (refl, refl);
}

abbrev rev_label : Text
rev_label = text "istio.io/rev"

abbrev pub platform : Platform
platform = record {
  set_controller_reference =
      λ i o. some (record o { owner = some (record { name = i.name; namespace = i.namespace }) });
  istio_rev_from_label = λ labels. elim (get labels rev_label) [ none ↦ [] | some rev ↦ rev ];
  patch_istio_rev_label = λ labels rev. set labels rev_label rev;
  json_marshal = λ spec. elim spec [ none ↦ some (text "null") | some _ ↦ some (text "{}") ];
  proto_to_map = λ filter. some no_fields;
  yaml_marshal = marshal;
  yaml_unmarshal = unmarshal;
}

reference_seen :
    (i : SmartLimiter) (o o' : EnvoyFilterResource)
    → platform.set_controller_reference i o ≡ some o'
    → (place o' ≡ place o) × (o'.spec ≡ o.spec) × (o'.labels ≡ o.labels)
reference_seen i o o' e =
    let owned : EnvoyFilterResource = record o {
      owner = some (record { name = i.name; namespace = i.namespace });
    } in
    let same : owned ≡ o' = ground arith in
    (sym (ap place same), sym (ap (λ x. x.spec) same), sym (ap (λ x. x.labels) same))

pub platform-IsMetadata : IsMetadata platform
platform-IsMetadata = record {
  reference_keeps = λ i o o' e. reference_seen i o o' e;
  no_rev = unfold get in refl;
  patched_rev = λ labels rev h.
      ap (λ x. elim x [ none ↦ [] | some rev ↦ rev ]) (get-set_self labels rev_label rev);
}

answered-reads : (o : Option EnvoyFilterResource) → answered o ≢ failed other_error
answered-reads none e = absurd (cc)
answered-reads (some filter) e = absurd (cc)

pub server-IsHealthy : IsHealthy server platform
server-IsHealthy = record {
  references = λ i o free ns e. absurd (cc);
  reads = λ s loc. answered-reads (s.filters loc);
  creates = λ s o h. refl;
  updates = λ s o existing h same. refl;
  deletes = λ s o existing h. refl;
  config_maps = λ s c existing g v. refl;
  statuses = λ s i existing g v. refl;
  filter_limiters = λ loc s o. (refl, refl, refl);
  config_map_limiters = λ s c loc. refl;
}

pub server-IsReadable : (s : Objects) → IsReadable server platform s
server-IsReadable s cm config read g d y = unmarshal-map config read y
