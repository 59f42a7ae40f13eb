-- ===== src/Process/EnvoyFilters/Idempotent.antt =====
-- Refreshes of one Envoy filter that are repeated.
use limiter.Prelude.{
  [], ◌≡◌, refl, sym, subst, ◌⊎◌, inl, inr, true, false, Option, none, some, arith, Option-cases,
}
use limiter.Text.{Text, ◌==◌, eq_iff, eq_refl}
use limiter.Envoy.{Fields}
use limiter.Server.{Server, Platform, SmartLimiter, EnvoyFilterResource, place, IsStore, IsMetadata}
use limiter.Process.EnvoyFilters.{
  spec_text, create_wanted, settle, with_existing, refresh_envoy_filter,
}
use limiter.Process.EnvoyFilters.Settled.{
  Settled, IsForeign, moved, spec_text-spec, refresh_envoy_filter-Settled,
}

module _ (srv : Server) (p : Platform) where
  nothing_wanted :
      (s : srv.State) (l : EnvoyFilterResource)
      → l.spec ≡ none
      → create_wanted srv p s l ≡ (s, none)
  unfolding create_wanted
  nothing_wanted s l e = rw (e, create_wanted) refl

  settle_same :
      (s : srv.State) (existing l : EnvoyFilterResource) (spec : Fields)
      → l.spec ≡ some spec
      → spec_text p existing ≡ spec_text p l
      → settle srv p s existing l ≡ (s, none)
  unfolding settle
  settle_same s existing l spec e same =
      let e' : (spec_text p existing == spec_text p l) ≡ true =
        (eq_iff (spec_text p existing) (spec_text p l)).1 same in
      rw (e, settle) (rw e' refl)

  -- The first read of a refresh at a state where nothing is left to do.
  again_if_done :
      (s : srv.State) (rev : Text) (l : EnvoyFilterResource) (want : Option Fields)
      → l.spec ≡ want
      → Settled srv p s (place l) rev (spec_text p l) want
      → with_existing srv p s rev l (srv.get_envoy_filter s (place l)) ≡ (s, none)
  unfolding with_existing
  again_if_done s rev l none e h = rw h (nothing_wanted s l e)
  again_if_done s rev l (some spec) e (o, g, same_text, same_rev) =
      rw (g, same_rev, eq_refl rev) (settle_same s o l spec e same_text)

  foreign_again :
      (s : srv.State) (rev : Text) (l : EnvoyFilterResource)
      → IsForeign srv p s (place l) rev
      → with_existing srv p s rev l (srv.get_envoy_filter s (place l)) ≡ (s, none)
  unfolding with_existing
  foreign_again s rev l (o, g, other) =
      let e : (p.istio_rev_from_label o.labels == rev) ≡ false =
        ground (arith, eq_iff (p.istio_rev_from_label o.labels) rev) in
      rw (g, e) refl

  nothing_left :
      (s s' : srv.State) (rev : Text) (l : EnvoyFilterResource)
      → ((s ≡ s') × IsForeign srv p s (place l) rev)
        ⊎ Settled srv p s' (place l) rev (spec_text p l) l.spec
      → with_existing srv p s' rev l (srv.get_envoy_filter s' (place l)) ≡ (s', none)
  nothing_left s s' rev l (inl (same, f)) =
      foreign_again s' rev l (subst (λ t. IsForeign srv p t (place l) rev) same f)
  nothing_left s s' rev l (inr settled) = again_if_done s' rev l l.spec refl settled

  -- A refresh of an Envoy filter without a revision label that reported no error, done again at the
  -- state that it left, changes nothing and reports no error.
  pub refresh_envoy_filter-idempotent :
      (st : IsStore srv) (meta : IsMetadata p) (i : SmartLimiter) (obj : EnvoyFilterResource)
      (s s' : srv.State)
      → obj.namespace ≡ i.namespace
      → p.istio_rev_from_label obj.labels ≡ []
      → refresh_envoy_filter srv p s i obj ≡ (s', none)
      → refresh_envoy_filter srv p s' i obj ≡ (s', none)
  unfolding refresh_envoy_filter
  refresh_envoy_filter-idempotent st meta i obj s s' ns nl h =
      elim (Option-cases (p.set_controller_reference i obj)) [
        | inl e ↦ absurd (cc (rw (e, refresh_envoy_filter) at h))
        | inr (o, e) ↦
            let rev = p.istio_rev_from_label i.labels in
            let (same_place, same_spec, same_labels) = meta.reference_keeps i obj o e in
            let l : EnvoyFilterResource = record o {
              labels = p.patch_istio_rev_label o.labels rev;
            } in
            let at_place : place o ≡ record { name = o.name; namespace = i.namespace } = cc in
            rw (e, refresh_envoy_filter)
              (subst (λ x. with_existing srv p s' rev l (srv.get_envoy_filter s' x) ≡ (s', none))
                at_place
                (nothing_left s s' rev l (
                  moved srv p st s s' (place obj) (place l) rev (spec_text p obj) (spec_text p l)
                    obj.spec l.spec (sym same_place) (spec_text-spec p obj l (sym same_spec))
                    (sym same_spec)
                    (refresh_envoy_filter-Settled srv p st meta i obj s s' ns nl h))))
      ]
