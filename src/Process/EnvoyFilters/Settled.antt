-- ===== src/Process/EnvoyFilters/Settled.antt =====
-- What the cluster holds after `refreshEnvoyFilter`.
use limiter.Prelude.{
  [], ◌≡◌, ◌≢◌, refl, sym, ap, subst, ◌⊎◌, inl, inr, Option, none, some, arith, Bool-cases,
  Option-cases,
}
use limiter.Text.{Text, ◌==◌, eq_iff}
use limiter.Api.{NamespacedName, ReadError, is_not_found, other_error, Fetched, found, failed}
use limiter.Envoy.{Fields}
use limiter.Server.{Server, Platform, SmartLimiter, EnvoyFilterResource, place, IsStore, IsMetadata}
use limiter.Process.EnvoyFilters.{
  RefreshError, spec_text, answer, delete_answer, create_wanted, settle, with_existing,
  refresh_envoy_filter, create_failed, update_failed,
}

pub spec_text-spec :
    (p : Platform) (o o' : EnvoyFilterResource) → o.spec ≡ o'.spec → spec_text p o ≡ spec_text p o'
unfolding spec_text
spec_text-spec p o o' h = rw h refl

module _ (srv : Server) (p : Platform) where
  -- The cluster holds a filter of this revision with the wanted specification (the same JSON), or
  -- none if none is wanted.
  abbrev pub Settled : srv.State → NamespacedName → Text → Text → Option Fields → Type 0
  Settled s loc rev bytes none = srv.get_envoy_filter s loc ≡ failed is_not_found
  Settled s loc rev bytes (some spec) =
      (o : EnvoyFilterResource) × (srv.get_envoy_filter s loc ≡ found o)
      × (spec_text p o ≡ bytes)
      × (p.istio_rev_from_label o.labels ≡ rev)

  -- The filter of that name belongs to another revision of Istio.
  abbrev pub IsForeign : srv.State → NamespacedName → Text → Type 0
  IsForeign s loc rev =
      (o : EnvoyFilterResource) × (srv.get_envoy_filter s loc ≡ found o)
      × (p.istio_rev_from_label o.labels ≢ rev)

  answer-none :
      (wrap : ReadError → RefreshError) (r : srv.State × Option ReadError) (s : srv.State)
      → answer srv p wrap r ≡ (s, none)
      → r ≡ (s, none)
  answer-none wrap (s', none) s h = ground arith
  answer-none wrap (s', some e) s h = ground arith

  module _ (st : IsStore srv) where
    create_wanted-Settled :
        (s s' : srv.State) (rev : Text) (l : EnvoyFilterResource)
        → p.istio_rev_from_label l.labels ≡ rev
        → srv.get_envoy_filter s (place l) ≡ failed is_not_found
        → create_wanted srv p s l ≡ (s', none)
        → Settled s' (place l) rev (spec_text p l) l.spec
    unfolding create_wanted
    create_wanted-Settled s s' rev l r g h = elim (Option-cases l.spec) [
      | inl e ↦
          let same : s ≡ s' = ap (λ x. x.0) (rw (e, create_wanted) at h) in
          subst (Settled s' (place l) rev (spec_text p l)) (sym e)
            (subst (λ t. srv.get_envoy_filter t (place l) ≡ failed is_not_found) same g)
      | inr (spec, e) ↦
          let written =
            answer-none create_failed (srv.create_envoy_filter s l) s'
              (rw (e, create_wanted) at h) in
          let (o, seen, same_spec, same_labels) = st.create_seen s s' l written in
          subst (Settled s' (place l) rev (spec_text p l)) (sym e)
            (o, seen, spec_text-spec p o l same_spec, rw same_labels r)
    ]

    delete_answer-none :
        (s s' : srv.State) (l : EnvoyFilterResource) (r : srv.State × Option ReadError)
        → srv.delete_envoy_filter s l ≡ r
        → delete_answer srv p r ≡ (s', none)
        → srv.get_envoy_filter s' (place l) ≡ failed is_not_found
    delete_answer-none s s' l (t, none) w h =
        subst (λ x. srv.get_envoy_filter x (place l) ≡ failed is_not_found) (ap (λ x. x.0) h)
          (st.delete_seen s t l w)
    delete_answer-none s s' l (t, some is_not_found) w h =
        subst (λ x. srv.get_envoy_filter x (place l) ≡ failed is_not_found) (ap (λ x. x.0) h)
          (st.delete_missing s t l w)
    delete_answer-none s s' l (t, some other_error) w h = absurd (cc)

    settle-Settled :
        (s s' : srv.State) (rev : Text) (existing l : EnvoyFilterResource)
        → p.istio_rev_from_label l.labels ≡ rev
        → p.istio_rev_from_label existing.labels ≡ rev
        → srv.get_envoy_filter s (place l) ≡ found existing
        → settle srv p s existing l ≡ (s', none)
        → Settled s' (place l) rev (spec_text p l) l.spec
    unfolding settle
    settle-Settled s s' rev existing l r re g h = elim (Option-cases l.spec) [
      | inl e ↦
          subst (Settled s' (place l) rev (spec_text p l)) (sym e)
            (delete_answer-none s s' l (srv.delete_envoy_filter s l) refl (rw (e, settle) at h))
      | inr (spec, e) ↦ elim (Bool-cases (spec_text p existing == spec_text p l)) [
        | inl same ↦
            let here : s ≡ s' = ap (λ x. x.0) (rw (e, same, settle) at h) in
            subst (Settled s' (place l) rev (spec_text p l)) (sym e) (
              existing,
              subst (λ t. srv.get_envoy_filter t (place l) ≡ found existing) here g,
              (eq_iff (spec_text p existing) (spec_text p l)).0 same,
              re,
            )
        | inr other ↦
            let written =
              answer-none update_failed
                (srv.update_envoy_filter s
                  (record l { resource_version = existing.resource_version }))
                s' (rw (e, other, settle) at h) in
            let (o, seen, same_spec, same_labels) = st.update_seen s s' _ written in
            subst (Settled s' (place l) rev (spec_text p l)) (sym e)
              (o, seen, spec_text-spec p o l same_spec, rw same_labels r)
      ]
    ]

    with_existing-Settled :
        (s s' : srv.State) (rev : Text) (l : EnvoyFilterResource) (r : Fetched EnvoyFilterResource)
        → p.istio_rev_from_label l.labels ≡ rev
        → srv.get_envoy_filter s (place l) ≡ r
        → with_existing srv p s rev l r ≡ (s', none)
        → ((s ≡ s') × IsForeign s (place l) rev) ⊎ Settled s' (place l) rev (spec_text p l) l.spec
    unfolding with_existing
    with_existing-Settled s s' rev l (failed is_not_found) r g h =
        inr (create_wanted-Settled s s' rev l r g h)
    with_existing-Settled s s' rev l (failed other_error) r g h = absurd (cc)
    with_existing-Settled s s' rev l (found existing) r g h =
        elim (Bool-cases (p.istio_rev_from_label existing.labels == rev)) [
          | inl same ↦ inr (
              settle-Settled s s' rev existing l r
                ((eq_iff (p.istio_rev_from_label existing.labels) rev).0 same) g
                (rw (same, with_existing) at h))
          | inr other ↦ inl (
            ap (λ x. x.0) (rw (other, with_existing) at h),
            (existing, g, λ e. ground (arith, eq_iff (p.istio_rev_from_label existing.labels) rev)),
          )
        ]

    pub moved :
        (s s' : srv.State) (loc loc' : NamespacedName) (rev bytes bytes' : Text)
        (want want' : Option Fields)
        → loc ≡ loc'
        → bytes ≡ bytes'
        → want ≡ want'
        → ((s ≡ s') × IsForeign s loc rev) ⊎ Settled s' loc rev bytes want
        → ((s ≡ s') × IsForeign s loc' rev) ⊎ Settled s' loc' rev bytes' want'
    moved s s' loc loc' rev bytes bytes' want want' e f g h = rw⁻¹ (e, f, g) h

    module _ (meta : IsMetadata p) (i : SmartLimiter) (obj : EnvoyFilterResource) where
      -- What is asked of the cluster.
      abbrev pub Refreshed : srv.State → Type 0
      Refreshed s =
          Settled s (place obj) (p.istio_rev_from_label i.labels) (spec_text p obj) obj.spec

      -- If the refresh of an Envoy filter without a revision label, in its SmartLimiter's namespace,
      -- reports no error, then
      -- either the filter of that name belongs to another revision and nothing was written, or the
      -- cluster now holds what is asked for: a filter of this revision with the wanted
      -- specification, or no filter if none is wanted.
      pub refresh_envoy_filter-Settled :
          (s s' : srv.State)
          → obj.namespace ≡ i.namespace
          → p.istio_rev_from_label obj.labels ≡ []
          → refresh_envoy_filter srv p s i obj ≡ (s', none)
          → ((s ≡ s') × IsForeign s (place obj) (p.istio_rev_from_label i.labels)) ⊎ Refreshed s'
      unfolding refresh_envoy_filter
      refresh_envoy_filter-Settled s s' ns nl h =
          elim (Option-cases (p.set_controller_reference i obj)) [
            | inl e ↦ absurd (cc (rw (e, refresh_envoy_filter) at h))
            | inr (o, e) ↦
                let rev = p.istio_rev_from_label i.labels in
                let (same_place, same_spec, same_labels) = meta.reference_keeps i obj o e in
                let l : EnvoyFilterResource = record o {
                  labels = p.patch_istio_rev_label o.labels rev;
                } in
                let at_place : record { name = o.name; namespace = i.namespace } ≡ place o = cc in
                let outcome =
                  with_existing-Settled s s' rev l (srv.get_envoy_filter s (place l))
                    (meta.patched_rev o.labels rev (rw same_labels nl)) refl
                    (subst
                      (λ x. with_existing srv p s rev l (srv.get_envoy_filter s x) ≡ (s', none))
                      at_place (rw (e, refresh_envoy_filter) at h)) in
                moved s s' (place o) (place obj) rev (spec_text p l) (spec_text p obj) l.spec
                  obj.spec same_place (spec_text-spec p l obj same_spec) same_spec outcome
          ]
