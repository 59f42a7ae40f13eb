-- ===== src/Process/EnvoyFilters/Healthy.antt =====
-- `refreshEnvoyFilter` on a server that answers, and the other objects during it.
use limiter.Prelude.{◌≡◌, refl, ap, ◌∙◌, inl, inr, Option, none, some, Bool-cases, Option-cases}
use limiter.Text.{Text, ◌==◌}
use limiter.Api.{ReadError, is_not_found, other_error, Fetched, found, failed}
use limiter.Server.{
  Server, Platform, SmartLimiter, EnvoyFilterResource, place, LeftAlone, IsStore, IsMetadata,
  IsHealthy,
}
use limiter.Process.EnvoyFilters.{
  RefreshError, spec_text, answer, delete_answer, create_wanted, settle, with_existing,
  refresh_envoy_filter, create_failed, update_failed,
}
use limiter.Process.EnvoyFilters.Apart.{answer-state, delete_answer-state}

module _ (srv : Server) (p : Platform) where
  answer-error :
      (wrap : ReadError → RefreshError) (r : srv.State × Option ReadError)
      → r.1 ≡ none
      → (answer srv p wrap r).1 ≡ none
  answer-error wrap (s, none) h = refl
  answer-error wrap (s, some e) h = absurd (cc)

  delete_answer-error :
      (r : srv.State × Option ReadError) → r.1 ≡ none → (delete_answer srv p r).1 ≡ none
  delete_answer-error (s, none) h = refl
  delete_answer-error (s, some e) h = absurd (cc)

  module _ (ok : IsHealthy srv p) (s : srv.State) (l : EnvoyFilterResource) where
    create_wanted-error :
        srv.get_envoy_filter s (place l) ≡ failed is_not_found → (create_wanted srv p s l).1 ≡ none
    unfolding create_wanted
    create_wanted-error h = elim (Option-cases l.spec) [
      | inl e ↦ rw (e, create_wanted) refl
      | inr (spec, e) ↦
          rw (e, create_wanted)
            (answer-error create_failed (srv.create_envoy_filter s l) (ok.creates s l h))
    ]

    settle-error :
        (existing : EnvoyFilterResource)
        → srv.get_envoy_filter s (place l) ≡ found existing
        → (settle srv p s existing l).1 ≡ none
    unfolding settle
    settle-error existing h = elim (Option-cases l.spec) [
      | inl e ↦
          rw (e, settle)
            (delete_answer-error (srv.delete_envoy_filter s l) (ok.deletes s l existing h))
      | inr (spec, e) ↦ elim (Bool-cases (spec_text p existing == spec_text p l)) [
        | inl same ↦ rw (e, settle) (rw same refl)
        | inr other ↦
            let written : EnvoyFilterResource = record l {
              resource_version = existing.resource_version;
            } in
            rw (e, settle)
              (rw other (
                answer-error update_failed (srv.update_envoy_filter s written)
                  (ok.updates s written existing h refl)))
      ]
    ]

    with_existing-error :
        (rev : Text) (r : Fetched EnvoyFilterResource)
        → srv.get_envoy_filter s (place l) ≡ r
        → (with_existing srv p s rev l r).1 ≡ none
    unfolding with_existing
    with_existing-error rev (failed is_not_found) h = create_wanted-error h
    with_existing-error rev (failed other_error) h = absurd (ok.reads s (place l) h)
    with_existing-error rev (found existing) h =
        elim (Bool-cases (p.istio_rev_from_label existing.labels == rev)) [
          | inl e ↦ rw e (settle-error existing h)
          | inr e ↦ rw e refl
        ]

  -- On a healthy server the refresh of a filter in its SmartLimiter's namespace has no error.
  pub refresh_envoy_filter-error :
      IsHealthy srv p
      → IsMetadata p
      → (s : srv.State) (i : SmartLimiter) (obj : EnvoyFilterResource) → obj.owner ≡ none
      → obj.namespace ≡ i.namespace
      → (refresh_envoy_filter srv p s i obj).1 ≡ none
  unfolding refresh_envoy_filter
  refresh_envoy_filter-error ok meta s i obj free ns =
      elim (Option-cases (p.set_controller_reference i obj)) [
        | inl e ↦ absurd (ok.references i obj free ns e)
        | inr (o, e) ↦
            let l : EnvoyFilterResource = record o {
              labels = p.patch_istio_rev_label o.labels (p.istio_rev_from_label i.labels);
            } in
            let here : place l ≡ record { name = o.name; namespace = i.namespace } =
              let (same_place, same_spec, same_labels) = meta.reference_keeps i obj o e in
              ap (λ n. record { name = o.name; namespace = n })
                (ap (λ x. x.namespace) same_place ∙ ns) in
            rw (e, refresh_envoy_filter)
              (with_existing-error ok s l (p.istio_rev_from_label i.labels)
                (srv.get_envoy_filter s (record { name = o.name; namespace = i.namespace }))
                (ap (srv.get_envoy_filter s) here))
      ]

  module _ {A : Type 0} (read : srv.State → A) (alone : LeftAlone srv read) (st : IsStore srv)
      (s : srv.State) where
    abbrev SameRead : srv.State → Type 0
    SameRead s' = read s' ≡ read s

    create_wanted-SameRead : (l : EnvoyFilterResource) → SameRead (create_wanted srv p s l).0
    unfolding create_wanted
    create_wanted-SameRead l = elim (Option-cases l.spec) [
      | inl e ↦ rw (e, create_wanted) refl
      | inr (spec, e) ↦
          rw (e, create_wanted)
            (ap read (answer-state srv p st create_failed (srv.create_envoy_filter s l))
              ∙ (alone s l).0)
    ]

    settle-SameRead : (existing l : EnvoyFilterResource) → SameRead (settle srv p s existing l).0
    unfolding settle
    settle-SameRead existing l = elim (Option-cases l.spec) [
      | inl e ↦
          rw (e, settle)
            (ap read (delete_answer-state srv p st (srv.delete_envoy_filter s l)) ∙ (alone s l).2)
      | inr (spec, e) ↦ elim (Bool-cases (spec_text p existing == spec_text p l)) [
        | inl same ↦ rw (e, settle) (rw same refl)
        | inr other ↦
            let written : EnvoyFilterResource = record l {
              resource_version = existing.resource_version;
            } in
            rw (e, settle)
              (rw other (
                ap read (answer-state srv p st update_failed (srv.update_envoy_filter s written))
                ∙ (alone s written).1))
      ]
    ]

    with_existing-SameRead :
        (rev : Text) (l : EnvoyFilterResource) (r : Fetched EnvoyFilterResource)
        → SameRead (with_existing srv p s rev l r).0
    unfolding with_existing
    with_existing-SameRead rev l (failed is_not_found) = create_wanted-SameRead l
    with_existing-SameRead rev l (failed other_error) = refl
    with_existing-SameRead rev l (found existing) =
        elim (Bool-cases (p.istio_rev_from_label existing.labels == rev)) [
          | inl e ↦ rw e (settle-SameRead existing l)
          | inr e ↦ rw e refl
        ]

    -- A refresh of a filter leaves alone what the writes of filters do.
    pub refresh_envoy_filter-keeps :
        (i : SmartLimiter) (obj : EnvoyFilterResource)
        → SameRead (refresh_envoy_filter srv p s i obj).0
    unfolding refresh_envoy_filter
    refresh_envoy_filter-keeps i obj = elim (Option-cases (p.set_controller_reference i obj)) [
      | inl e ↦ rw (e, refresh_envoy_filter) refl
      | inr (o, e) ↦
          let rev = p.istio_rev_from_label i.labels in
          let l : EnvoyFilterResource = record o {
            labels = p.patch_istio_rev_label o.labels rev;
          } in
          rw (e, refresh_envoy_filter)
            (with_existing-SameRead rev l
              (srv.get_envoy_filter s (record { name = o.name; namespace = i.namespace })))
    ]
