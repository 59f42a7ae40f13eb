-- ===== src/Process/EnvoyFilters/Apart.antt =====
-- The filters that a refresh is not about.
use limiter.Prelude.{
  ◌≡◌, ◌≢◌, refl, ap, ◌∙◌, inl, inr, Option, none, some, Bool-cases, Option-cases,
}
use limiter.Text.{Text, ◌==◌}
use limiter.Api.{NamespacedName, ReadError, is_not_found, other_error, Fetched, found, failed}
use limiter.Server.{Server, Platform, SmartLimiter, EnvoyFilterResource, place, IsStore, IsMetadata}
use limiter.Process.EnvoyFilters.{
  RefreshError, spec_text, answer, delete_answer, create_wanted, settle, with_existing,
  refresh_envoy_filter, create_failed, update_failed,
}

module _ (srv : Server) (p : Platform) (st : IsStore srv) where
  pub answer-state :
      (wrap : ReadError → RefreshError) (r : srv.State × Option ReadError)
      → (answer srv p wrap r).0 ≡ r.0
  answer-state wrap (s, none) = refl
  answer-state wrap (s, some e) = refl

  pub delete_answer-state : (r : srv.State × Option ReadError) → (delete_answer srv p r).0 ≡ r.0
  delete_answer-state (s, none) = refl
  delete_answer-state (s, some is_not_found) = refl
  delete_answer-state (s, some other_error) = refl

  Same : srv.State → srv.State → NamespacedName → Type 0
  Same s s' loc = srv.get_envoy_filter s' loc ≡ srv.get_envoy_filter s loc

  module _ (s : srv.State) (l : EnvoyFilterResource) (loc : NamespacedName)
      (n : loc ≢ place l) where
    create_wanted-apart : Same s (create_wanted srv p s l).0 loc
    unfolding Same create_wanted
    create_wanted-apart = elim (Option-cases l.spec) [
      | inl e ↦ rw (e, create_wanted) refl
      | inr (spec, e) ↦
          rw (e, create_wanted)
            (ap (λ t. srv.get_envoy_filter t loc)
                (answer-state create_failed (srv.create_envoy_filter s l))
              ∙ st.create_apart s l loc n)
    ]

    settle-apart : (existing : EnvoyFilterResource) → Same s (settle srv p s existing l).0 loc
    unfolding Same settle
    settle-apart existing = elim (Option-cases l.spec) [
      | inl e ↦
          rw (e, settle)
            (ap (λ t. srv.get_envoy_filter t loc)
                (delete_answer-state (srv.delete_envoy_filter s l))
              ∙ st.delete_apart s l loc n)
      | inr (spec, e) ↦ elim (Bool-cases (spec_text p existing == spec_text p l)) [
        | inl same ↦ rw (e, settle) (rw same refl)
        | inr other ↦
            rw (e, settle)
              (rw other (
                ap (λ t. srv.get_envoy_filter t loc)
                  (answer-state update_failed (
                    srv.update_envoy_filter s
                      (record l { resource_version = existing.resource_version })))
                ∙ st.update_apart s (record l { resource_version = existing.resource_version }) loc
                    n))
      ]
    ]

    with_existing-apart :
        (rev : Text) (r : Fetched EnvoyFilterResource)
        → Same s (with_existing srv p s rev l r).0 loc
    unfolding Same with_existing
    with_existing-apart rev (failed is_not_found) = create_wanted-apart
    with_existing-apart rev (failed other_error) = refl
    with_existing-apart rev (found existing) =
        elim (Bool-cases (p.istio_rev_from_label existing.labels == rev)) [
          | inl e ↦ rw e (settle-apart existing)
          | inr e ↦ rw e refl
        ]

  -- A refresh of one filter leaves every other filter as it is.
  pub refresh_envoy_filter-apart :
      (meta : IsMetadata p) (s : srv.State) (i : SmartLimiter) (obj : EnvoyFilterResource)
      (loc : NamespacedName)
      → loc ≢ place obj
      → srv.get_envoy_filter (refresh_envoy_filter srv p s i obj).0 loc ≡ srv.get_envoy_filter s loc
  unfolding refresh_envoy_filter Same
  refresh_envoy_filter-apart meta s i obj loc n =
      elim (Option-cases (p.set_controller_reference i obj)) [
        | inl e ↦ rw (e, refresh_envoy_filter) refl
        | inr (o, e) ↦
            let rev = p.istio_rev_from_label i.labels in
            let l : EnvoyFilterResource = record o {
              labels = p.patch_istio_rev_label o.labels rev;
            } in
            rw (e, refresh_envoy_filter)
              (with_existing-apart s l loc (λ same. n (same ∙ (meta.reference_keeps i obj o e).0))
                rev (srv.get_envoy_filter s (record { name = o.name; namespace = i.namespace })))
      ]
