-- ===== src/Server.antt =====
-- The API server as the controllers see it through their client: a state of its own, reads, and
-- writes that may fail; with the functions of Kubernetes, of the framework's model and of the JSON
-- and YAML libraries that controllers/process.go calls. None of their code is in this repository, so
-- that all of it is a parameter.
use limiter.Prelude.{◌≡◌, ◌≢◌, [], Option, none, some}
use limiter.Text.{Text}
use limiter.GoMap.{GoMap}
use limiter.Api.{
  SmartLimiterSpec, SmartLimiterStatus, NamespacedName, ReadError, is_not_found, other_error,
  Fetched, found, failed,
}
use limiter.Model.{RateLimitConfig}
use limiter.Envoy.{EnvoyFilter, Fields}

-- api/v1alpha2/smartlimiter_types.go, with the metadata that is read
pub record SmartLimiter : Type 0 where
  pub name : Text
  pub namespace : Text
  pub labels : GoMap Text
  pub resource_version : Text
  pub spec : SmartLimiterSpec
  pub status : SmartLimiterStatus

-- `v1alpha3.EnvoyFilter`; `spec` is nil for a filter that is not wanted.
pub record EnvoyFilterResource : Type 0 where
  pub name : Text
  pub namespace : Text
  pub labels : GoMap Text
  pub owner : Option NamespacedName
  pub resource_version : Text
  pub spec : Option Fields

-- `v1.ConfigMap`
pub record ConfigMap : Type 0 where
  pub name : Text
  pub namespace : Text
  pub labels : GoMap Text
  pub resource_version : Text
  pub data_of : GoMap Text

pub record Server : Type 1 where
  pub State : Type 0
  pub get_smart_limiter : State → NamespacedName → Fetched SmartLimiter
  pub get_service : State → NamespacedName → Fetched (Option (GoMap Text))
  pub get_envoy_filter : State → NamespacedName → Fetched EnvoyFilterResource
  pub get_config_map : State → NamespacedName → Fetched ConfigMap
  -- The state after a write, and its error.
  pub create_envoy_filter : State → EnvoyFilterResource → State × Option ReadError
  pub update_envoy_filter : State → EnvoyFilterResource → State × Option ReadError
  pub delete_envoy_filter : State → EnvoyFilterResource → State × Option ReadError
  pub update_config_map : State → ConfigMap → State × Option ReadError
  pub update_status : State → SmartLimiter → State × Option ReadError

pub record Platform : Type 0 where
  -- `controllerutil.SetControllerReference`, with `none` for an error
  pub set_controller_reference : SmartLimiter → EnvoyFilterResource → Option EnvoyFilterResource
  -- `IstioRevFromLabel`
  pub istio_rev_from_label : GoMap Text → Text
  -- `PatchIstioRevLabel`
  pub patch_istio_rev_label : GoMap Text → Text → GoMap Text
  -- `json.Marshal` of a spec, with `none` for an error
  pub json_marshal : Option Fields → Option Text
  -- `util.ProtoToMap`, with `none` for an error
  pub proto_to_map : EnvoyFilter → Option Fields
  -- `yaml.Marshal` and `yaml.Unmarshal` into a pointer, with `none` for an error; a null document
  -- makes the pointer nil
  pub yaml_marshal : RateLimitConfig → Text
  pub yaml_unmarshal : Text → Option (Option RateLimitConfig)

-- Where a resource is stored.
abbrev pub place : EnvoyFilterResource → NamespacedName
place o = record { name = o.name; namespace = o.namespace }

-- What the controllers rely on: a write that succeeds is seen by the next read, and a write that
-- fails for another reason than that the object is missing says so.
pub record IsStore (srv : Server) : Type 0 where
  pub create_seen :
      (s s' : srv.State) (o : EnvoyFilterResource)
      → srv.create_envoy_filter s o ≡ (s', none)
      → (o' : EnvoyFilterResource) × (srv.get_envoy_filter s' (place o) ≡ found o')
        × (o'.spec ≡ o.spec)
        × (o'.labels ≡ o.labels)
  pub update_seen :
      (s s' : srv.State) (o : EnvoyFilterResource)
      → srv.update_envoy_filter s o ≡ (s', none)
      → (o' : EnvoyFilterResource) × (srv.get_envoy_filter s' (place o) ≡ found o')
        × (o'.spec ≡ o.spec)
        × (o'.labels ≡ o.labels)
  pub delete_seen :
      (s s' : srv.State) (o : EnvoyFilterResource)
      → srv.delete_envoy_filter s o ≡ (s', none)
      → srv.get_envoy_filter s' (place o) ≡ failed is_not_found
  pub delete_missing :
      (s s' : srv.State) (o : EnvoyFilterResource)
      → srv.delete_envoy_filter s o ≡ (s', some is_not_found)
      → srv.get_envoy_filter s' (place o) ≡ failed is_not_found
  -- A write is of one object, also when it fails.
  pub create_apart :
      (s : srv.State) (o : EnvoyFilterResource) (loc : NamespacedName)
      → loc ≢ place o
      → srv.get_envoy_filter (srv.create_envoy_filter s o).0 loc ≡ srv.get_envoy_filter s loc
  pub update_apart :
      (s : srv.State) (o : EnvoyFilterResource) (loc : NamespacedName)
      → loc ≢ place o
      → srv.get_envoy_filter (srv.update_envoy_filter s o).0 loc ≡ srv.get_envoy_filter s loc
  pub delete_apart :
      (s : srv.State) (o : EnvoyFilterResource) (loc : NamespacedName)
      → loc ≢ place o
      → srv.get_envoy_filter (srv.delete_envoy_filter s o).0 loc ≡ srv.get_envoy_filter s loc
  pub config_map_seen :
      (s s' : srv.State) (c : ConfigMap) (loc : NamespacedName)
      → loc ≡ record { name = c.name; namespace = c.namespace }
      → srv.update_config_map s c ≡ (s', none)
      → (c' : ConfigMap) × (srv.get_config_map s' loc ≡ found c') × (c'.data_of ≡ c.data_of)
  pub status_seen :
      (s s' : srv.State) (i : SmartLimiter)
      → srv.update_status s i ≡ (s', none)
      → (i' : SmartLimiter) × (srv.get_smart_limiter s'
            (record { name = i.name; namespace = i.namespace })
          ≡ found i')
        × (i'.status ≡ i.status)
  -- The writes of one kind leave the objects of the other kinds alone.
  pub create_kinds :
      (s : srv.State) (o : EnvoyFilterResource) (loc : NamespacedName)
      → srv.get_config_map (srv.create_envoy_filter s o).0 loc ≡ srv.get_config_map s loc
  pub update_kinds :
      (s : srv.State) (o : EnvoyFilterResource) (loc : NamespacedName)
      → srv.get_config_map (srv.update_envoy_filter s o).0 loc ≡ srv.get_config_map s loc
  pub delete_kinds :
      (s : srv.State) (o : EnvoyFilterResource) (loc : NamespacedName)
      → srv.get_config_map (srv.delete_envoy_filter s o).0 loc ≡ srv.get_config_map s loc
  pub config_map_kinds :
      (s : srv.State) (c : ConfigMap) (loc : NamespacedName)
      → srv.get_envoy_filter (srv.update_config_map s c).0 loc ≡ srv.get_envoy_filter s loc
  pub status_kinds :
      (s : srv.State) (i : SmartLimiter) (loc : NamespacedName)
      → (srv.get_envoy_filter (srv.update_status s i).0 loc ≡ srv.get_envoy_filter s loc)
        × (srv.get_config_map (srv.update_status s i).0 loc ≡ srv.get_config_map s loc)

-- The controller reference and the revision label are metadata; a revision is written on labels that
-- have none.
pub record IsMetadata (p : Platform) : Type 0 where
  pub reference_keeps :
      (i : SmartLimiter) (o o' : EnvoyFilterResource)
      → p.set_controller_reference i o ≡ some o'
      → (place o' ≡ place o) × (o'.spec ≡ o.spec) × (o'.labels ≡ o.labels)
  pub no_rev : p.istio_rev_from_label [] ≡ []
  pub patched_rev :
      (labels : GoMap Text) (rev : Text)
      → p.istio_rev_from_label labels ≡ []
      → p.istio_rev_from_label (p.patch_istio_rev_label labels rev) ≡ rev

-- The writes of filters leave what is read here alone.
abbrev pub LeftAlone : (srv : Server) → {A : Type 0} → (srv.State → A) → Type 0
LeftAlone srv read =
    (s : srv.State) (o : EnvoyFilterResource)
    → (read (srv.create_envoy_filter s o).0 ≡ read s)
      × (read (srv.update_envoy_filter s o).0 ≡ read s)
      × (read (srv.delete_envoy_filter s o).0 ≡ read s)

-- A server that answers every request it accepts: a read finds the object or that it is missing, a
-- filter is created if it is missing, and an object that is there is updated if the update has the
-- version that is stored. A SmartLimiter can be made the controller of an object that has none, in
-- its own namespace. SmartLimiters are not changed by writes of other objects.
pub record IsHealthy (srv : Server) (p : Platform) : Type 0 where
  pub references :
      (i : SmartLimiter) (o : EnvoyFilterResource)
      → o.owner ≡ none
      → o.namespace ≡ i.namespace
      → p.set_controller_reference i o ≢ none
  pub reads :
      (s : srv.State) (loc : NamespacedName) → srv.get_envoy_filter s loc ≢ failed other_error
  pub creates :
      (s : srv.State) (o : EnvoyFilterResource)
      → srv.get_envoy_filter s (place o) ≡ failed is_not_found
      → (srv.create_envoy_filter s o).1 ≡ none
  pub updates :
      (s : srv.State) (o existing : EnvoyFilterResource)
      → srv.get_envoy_filter s (place o) ≡ found existing
      → o.resource_version ≡ existing.resource_version
      → (srv.update_envoy_filter s o).1 ≡ none
  pub deletes :
      (s : srv.State) (o existing : EnvoyFilterResource)
      → srv.get_envoy_filter s (place o) ≡ found existing
      → (srv.delete_envoy_filter s o).1 ≡ none
  pub config_maps :
      (s : srv.State) (c existing : ConfigMap)
      → srv.get_config_map s (record { name = c.name; namespace = c.namespace }) ≡ found existing
      → c.resource_version ≡ existing.resource_version
      → (srv.update_config_map s c).1 ≡ none
  pub statuses :
      (s : srv.State) (i existing : SmartLimiter)
      → srv.get_smart_limiter s (record { name = i.name; namespace = i.namespace }) ≡ found existing
      → i.resource_version ≡ existing.resource_version
      → (srv.update_status s i).1 ≡ none
  pub filter_limiters : (loc : NamespacedName) → LeftAlone srv (λ s. srv.get_smart_limiter s loc)
  pub config_map_limiters :
      (s : srv.State) (c : ConfigMap) (loc : NamespacedName)
      → srv.get_smart_limiter (srv.update_config_map s c).0 loc ≡ srv.get_smart_limiter s loc
