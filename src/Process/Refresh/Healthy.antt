-- ===== src/Process/Refresh/Healthy.antt =====
-- The loop over the filters on a server that answers, and the other objects during it.
use limiter.Prelude.{◌≡◌, ◌≢◌, refl, ◌∙◌, sym, List, [], ◌∷◌, Option, none, All, arith}
use limiter.Text.{Text, eq_iff}
use limiter.GoMap.{GoMap, get, Runtime, IsDistinct}
use limiter.Api.{NamespacedName}
use limiter.Envoy.{EnvoyFilter}
use limiter.Framework.{Framework}
use limiter.Server.{Server, Platform, SmartLimiter, LeftAlone, IsStore, IsMetadata, IsHealthy}
use limiter.Process.EnvoyFilters.{refresh_envoy_filter}
use limiter.Process.EnvoyFilters.Healthy.{refresh_envoy_filter-error, refresh_envoy_filter-keeps}
use limiter.Process.Refresh.{filter_resource, refresh_filters}
use limiter.Process.Refresh.Loop.{NoErrors, HasOwnKeys}

module _ (fw : Framework) (go : Runtime) (srv : Server) (p : Platform) (i : SmartLimiter) where
  absent_apart :
      (k : Text) (es : GoMap (Option EnvoyFilter)) → get es k ≡ none → All (λ e. k ≢ e.0) es
  unfolding get
  absent_apart k [] h = tt
  absent_apart k (e ∷ es) h = (
    λ same. ground (arith, eq_iff e.0 k, sym same),
    absent_apart k es (ground (arith, eq_iff e.0 k)),
  )

  pub IsDistinct-HasOwnKeys :
      (es : GoMap (Option EnvoyFilter)) → IsDistinct es → HasOwnKeys fw go srv p i es
  IsDistinct-HasOwnKeys [] d = tt
  IsDistinct-HasOwnKeys ((k, ef) ∷ es) d = (absent_apart k es d.0, IsDistinct-HasOwnKeys es d.1)

  pub healthy-NoErrors :
      IsHealthy srv p
      → IsMetadata p
      → (s : srv.State) (es : List (Text × Option EnvoyFilter)) → NoErrors fw go srv p i s es
  healthy-NoErrors ok meta s [] = tt
  healthy-NoErrors ok meta s (e ∷ es) =
      let obj = filter_resource fw p i e.0 e.1 in
      (
        refresh_envoy_filter-error srv p ok meta s i obj (unfold filter_resource in refl)
            (unfold filter_resource in refl),
        healthy-NoErrors ok meta (refresh_envoy_filter srv p s i obj).0 es,
      )

  pub refresh_filters-keeps :
      {A : Type 0} (read : srv.State → A)
      → LeftAlone srv read
      → IsStore srv
      → (s : srv.State) (es : List (Text × Option EnvoyFilter))
      → read (refresh_filters fw go srv p s i es) ≡ read s
  unfolding refresh_filters
  refresh_filters-keeps read alone st s [] = refl
  refresh_filters-keeps read alone st s (e ∷ es) =
      refresh_filters-keeps read alone st
        (refresh_envoy_filter srv p s i (filter_resource fw p i e.0 e.1)).0 es
      ∙ refresh_envoy_filter-keeps srv p read alone st s i (filter_resource fw p i e.0 e.1)

-- The config maps are left alone.
pub maps-LeftAlone :
    (srv : Server)
    → IsStore srv
    → (loc : NamespacedName) → LeftAlone srv (λ s. srv.get_config_map s loc)
maps-LeftAlone srv st loc s o =
    (st.create_kinds s o loc, st.update_kinds s o loc, st.delete_kinds s o loc)
