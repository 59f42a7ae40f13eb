-- ===== src/Reconciler/Interest.antt =====
-- Who is in the interest map.
use limiter.Prelude.{ret, ◌≡◌, refl, sym, subst, ap, ◌∙◌, true, false, none, Bool-cases, inl, inr}
use limiter.GoMap.{set}
use limiter.Api.{NamespacedName, found}
use limiter.Api.Equal.{equal_spec, equal_spec-same, HasSets}
use limiter.Environment.{Environment}
use limiter.Server.{Server, Platform, SmartLimiter}
use limiter.Process.Metrics.{resource_key}
use limiter.Reconciler.{Reconciler, accept_resource, reconcile}

module _ (srv : Server) (p : Platform) (env : Environment) where
  accepted :
      (r : Reconciler) (loc : NamespacedName) (i : SmartLimiter)
      → env.rev_in_scope (p.istio_rev_from_label i.labels) ≡ true
      → equal_spec i.spec r.last_update_policy ≡ false
      → accept_resource srv p env r loc i
        ≡ record r { last_update_policy = i.spec; interest = set r.interest (resource_key loc) tt }
  unfolding accept_resource
  accepted r loc i scope new = rw scope (rw new refl)

  ignored :
      (r : Reconciler) (loc : NamespacedName) (i : SmartLimiter)
      → equal_spec i.spec r.last_update_policy ≡ true
      → accept_resource srv p env r loc i ≡ r
  unfolding accept_resource
  ignored r loc i known = elim (Bool-cases (env.rev_in_scope (p.istio_rev_from_label i.labels))) [
    | inl e ↦ rw e (rw known refl)
    | inr e ↦ rw e refl
  ]

  pub reconcile-accepted :
      (s : srv.State) (r : Reconciler) (loc : NamespacedName) (i : SmartLimiter)
      → srv.get_smart_limiter s loc ≡ found i
      → env.rev_in_scope (p.istio_rev_from_label i.labels) ≡ true
      → equal_spec i.spec r.last_update_policy ≡ false
      → reconcile srv p env s r loc
        ≡ ret (
          s,
          record r { last_update_policy = i.spec; interest = set r.interest (resource_key loc) tt },
          none,
        )
  unfolding reconcile
  reconcile-accepted s r loc i g scope new =
      rw (g, reconcile) (ap (λ x. ret (s, x, none)) (accepted r loc i scope new))

  -- Of two SmartLimiters with the same spec, whose sets have each key once, and of which the first
  -- is in scope and was accepted, the reconciliation of the second after the first changes nothing,
  -- whatever its name is: it is not put into the interest map.
  pub equal_spec_ignored :
      (s : srv.State) (r r' : Reconciler) (loc loc' : NamespacedName) (first second : SmartLimiter)
      → srv.get_smart_limiter s loc ≡ found first
      → srv.get_smart_limiter s loc' ≡ found second
      → env.rev_in_scope (p.istio_rev_from_label first.labels) ≡ true
      → first.spec ≡ second.spec
      → HasSets first.spec
      → equal_spec first.spec r.last_update_policy ≡ false
      → reconcile srv p env s r loc ≡ ret (s, r', none)
      → reconcile srv p env s r' loc' ≡ ret (s, r', none)
  unfolding reconcile accept_resource
  equal_spec_ignored s r r' loc loc' first second g g' scope same sets new h =
      let accept : accept_resource srv p env r loc first ≡ r' = cc (rw (g, reconcile) at h) in
      let last : r'.last_update_policy ≡ first.spec =
        sym (ap (λ x. x.last_update_policy) accept)
        ∙ ap (λ x. x.last_update_policy) (accepted r loc first scope new) in
      let known : equal_spec second.spec r'.last_update_policy ≡ true =
        ap (λ x. equal_spec second.spec x) (last ∙ same)
        ∙ equal_spec-same second.spec (subst HasSets same sets) in
      rw (g', reconcile) (ap (λ x. ret (s, x, none)) (ignored r' loc' second known))
