-- ===== src/Reconciler/Tables.antt =====
-- The two tables of the reconciler during a reconciliation.
use limiter.Prelude.{
  ◌≡◌, refl, inl, inr, All, Bool-cases, [], Option, if◌then◌else◌, ret, >>=-eq-ret, subst,
}
use limiter.Text.{Text}
use limiter.GoMap.{delete}
use limiter.Process.ConfigMap.{refresh_config_map}
use limiter.GoMap.Entries.{All-set, All-delete}
use limiter.Api.{NamespacedName, ReadError, is_not_found, other_error, Fetched, found, failed}
use limiter.Api.Equal.{equal_spec}
use limiter.Environment.{Environment, is_global_enabled}
use limiter.Server.{Server, Platform, SmartLimiter}
use limiter.Process.Metrics.{Endpoints, resource_key}
use limiter.Reconciler.{Reconciler, no_policy, forget_resource, accept_resource, reconcile}

module _ (P : Text × Unit {0} → Type 0) (Q : Text × Endpoints → Type 0) where
  -- What holds of every entry of the interest map and of every entry of the metrics.
  abbrev pub Tabled : Reconciler → Type 0
  Tabled r = All P r.interest × All Q r.metric_info

  module _ (srv : Server) (p : Platform) (env : Environment) (loc : NamespacedName)
      (own : P (resource_key loc, tt)) where
    accept_resource-Tabled :
        (r : Reconciler) (i : SmartLimiter) → Tabled r → Tabled (accept_resource srv p env r loc i)
    unfolding accept_resource
    accept_resource-Tabled r i h =
        elim (Bool-cases (env.rev_in_scope (p.istio_rev_from_label i.labels))) [
          | inr e ↦ rw e h
          | inl e ↦ rw e (elim (Bool-cases (equal_spec i.spec r.last_update_policy)) [
            | inl f ↦ rw f h
            | inr f ↦ rw f (All-set P r.interest (resource_key loc) tt own h.0, h.1)
          ])
        ]

    -- A reconciliation puts no key but its own into the interest map, and no metrics.
    pub reconcile-Tabled :
        (s s' : srv.State) (r r' : Reconciler) (e : Option ReadError)
        → reconcile srv p env s r loc ≡ ret (s', r', e)
        → Tabled r
        → Tabled r'
    unfolding reconcile forget_resource
    reconcile-Tabled s s' r r' e made h = by_read (srv.get_smart_limiter s loc) refl
      where
        by_read : (a : Fetched SmartLimiter) → srv.get_smart_limiter s loc ≡ a → Tabled r'
        by_read (failed is_not_found) g =
            let (after, f, last) =
              >>=-eq-ret (forget_resource srv p env s r loc) _ (rw (g, reconcile) at made) in
            let (s1, f', last') =
              >>=-eq-ret
                (if is_global_enabled env then refresh_config_map srv p s [] loc else ret s) _ f in
            let same : record {
              interest = delete r.interest (resource_key loc);
              metric_info = delete r.metric_info (resource_key loc);
              last_update_policy = no_policy;
            }
                ≡ r' =
              cc in
            subst Tabled same (
              All-delete P r.interest (resource_key loc) h.0,
              All-delete Q r.metric_info (resource_key loc) h.1,
            )
        by_read (failed other_error) g =
            let kept = rw (g, reconcile) at made in let same : r ≡ r' = cc in subst Tabled same h
        by_read (found i) g =
            let last = rw (g, reconcile) at made in
            let same : accept_resource srv p env r loc i ≡ r' = cc in
            subst Tabled same (accept_resource-Tabled r i h)
