-- ===== src/Process/EnvoyFilters.antt =====
-- controllers/process.go, `refreshEnvoyFilter`: create, update or delete one Envoy filter.
pub mod Settled
pub mod Apart
pub mod Idempotent
pub mod Healthy
use limiter.Prelude.{[], Bool, true, false, Option, none, some, if◌then◌else◌}
use limiter.Text.{Text, ◌==◌}
use limiter.Api.{NamespacedName, ReadError, is_not_found, other_error, Fetched, found, failed}
use limiter.Server.{Server, Platform, SmartLimiter, EnvoyFilterResource}

pub data RefreshError : Type 0 where
  reference_error : RefreshError
  read_failed create_failed update_failed delete_failed : ReadError → RefreshError

-- The bytes of a spec; an error is logged and leaves them empty.
pub spec_text : Platform → EnvoyFilterResource → Text
spec_text p o = elim (p.json_marshal o.spec) [ none ↦ [] | some bytes ↦ bytes ]

module _ (srv : Server) (p : Platform) where
  -- What a write returns.
  abbrev answer :
      (ReadError → RefreshError) → srv.State × Option ReadError → srv.State × Option RefreshError
  answer wrap (s, none) = (s, none)
  answer wrap (s, some e) = (s, some (wrap e))

  -- Here the delete of an object that is gone already is no error.
  abbrev delete_answer : srv.State × Option ReadError → srv.State × Option RefreshError
  delete_answer (s, none) = (s, none)
  delete_answer (s, some is_not_found) = (s, none)
  delete_answer (s, some other_error) = (s, some (delete_failed other_error))

  create_wanted : srv.State → EnvoyFilterResource → srv.State × Option RefreshError
  create_wanted s obj = elim obj.spec [
    | none ↦ (s, none)
    | some spec ↦ answer create_failed (srv.create_envoy_filter s obj)
  ]

  settle : srv.State → EnvoyFilterResource → EnvoyFilterResource → srv.State × Option RefreshError
  unfolding spec_text
  settle s existing obj = elim obj.spec [
    | none ↦ delete_answer (srv.delete_envoy_filter s obj)
    | some spec ↦
        if spec_text p existing == spec_text p obj
        then (s, none)
        else answer update_failed (
            srv.update_envoy_filter s (record obj { resource_version = existing.resource_version }))
  ]

  -- What is done about the answer of the first read.
  with_existing :
      srv.State
      → Text
      → EnvoyFilterResource
      → Fetched EnvoyFilterResource
      → srv.State × Option RefreshError
  unfolding create_wanted settle
  with_existing s istio_rev obj (failed is_not_found) = create_wanted s obj
  with_existing s istio_rev obj (failed other_error) = (s, some (read_failed other_error))
  with_existing s istio_rev obj (found existing) =
      if p.istio_rev_from_label existing.labels == istio_rev
      then settle s existing obj
      else (s, none)

  unfoldable pub refresh_envoy_filter :
      srv.State → SmartLimiter → EnvoyFilterResource → srv.State × Option RefreshError
  unfolding with_existing
  refresh_envoy_filter s instance_of obj = elim (p.set_controller_reference instance_of obj) [
    | none ↦ (s, some reference_error)
    | some owned ↦
        let istio_rev = p.istio_rev_from_label instance_of.labels in
        let labelled : EnvoyFilterResource = record owned {
          labels = p.patch_istio_rev_label owned.labels istio_rev;
        } in
        with_existing s istio_rev labelled
          (srv.get_envoy_filter s (record { name = owned.name; namespace = instance_of.namespace }))
  ]
