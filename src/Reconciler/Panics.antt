-- ===== src/Reconciler/Panics.antt =====
-- `Reconcile` at a cluster in which no resource has null parts.
use limiter.Prelude.{◌≡◌, refl, [], none, some, Yields, Yields-bind, Bool-cases, inl, inr}
use limiter.Api.{NamespacedName, is_not_found, other_error, Fetched, found, failed}
use limiter.Environment.{Environment, is_global_enabled}
use limiter.Server.{Server, Platform, SmartLimiter}
use limiter.Process.ConfigMap.{refresh_config_map}
use limiter.Process.ConfigMap.Panics.{refresh_config_map-Returns}
use limiter.Process.ConfigMap.Kinds.{refresh_config_map-holds}
use limiter.Process.Refresh.Guarded.{IsValidated, IsGuarded}
use limiter.Reconciler.{Reconciler, forget_resource, accept_resource, reconcile}

module _ (srv : Server) (p : Platform) (env : Environment) (guard : IsGuarded srv p) (s : srv.State)
    (r : Reconciler) (loc : NamespacedName) (v : IsValidated srv p s) where
  forget_resource-IsValidated :
      Yields (λ x. IsValidated srv p x.0) (forget_resource srv p env s r loc)
  unfolding forget_resource
  forget_resource-IsValidated = elim (Bool-cases (is_global_enabled env)) [
    | inl e ↦
        (let (s', made) = refresh_config_map-Returns srv p s [] loc v.0 in
          rw e (
            Yields-bind {P = IsValidated srv p} (refresh_config_map srv p s [] loc) _
              (
                s',
                made,
                refresh_config_map-holds srv p s (IsValidated srv p)
                    (λ cm items. guard.config_maps s cm items v) v [] loc s' made,
              )
              (λ s2 _ v2. (_, refl, v2))))
    | inr e ↦ rw e (_, refl, v)
  ]

  pub reconcile-IsValidated : Yields (λ x. IsValidated srv p x.0) (reconcile srv p env s r loc)
  unfolding reconcile
  reconcile-IsValidated = by_read (srv.get_smart_limiter s loc) refl
    where
      by_read :
          (a : Fetched SmartLimiter)
          → srv.get_smart_limiter s loc ≡ a
          → Yields (λ x. IsValidated srv p x.0) (reconcile srv p env s r loc)
      by_read (failed is_not_found) g =
          let ((s', r'), made, w) = forget_resource-IsValidated in
          ((s', r', none), rw (g, reconcile) (rw made refl), w)
      by_read (failed other_error) g = ((s, r, some other_error), rw (g, reconcile) refl, v)
      by_read (found i) g =
          ((s, accept_resource srv p env r loc i, none), rw (g, reconcile) refl, v)
