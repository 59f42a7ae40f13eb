-- ===== src/Process/Refresh/Loop.antt =====
-- All filters of a SmartLimiter, one after the other.
use limiter.Prelude.{
  ◌≡◌, ◌≢◌, refl, sym, ap, ◌∙◌, subst, ◌⊎◌, inl, inr, List, [], ◌∷◌, ◌++◌, Option, none, some,
  arith, Bool-cases, All, All-map, length, length-append,
}
use limiter.Text.{Text, text, ◌==◌, eq_iff, append-cancel_left, append-cancel_right}
use limiter.GoMap.{Runtime}
use limiter.Api.{NamespacedName}
use limiter.Envoy.{EnvoyFilter, Fields}
use limiter.Framework.{Framework}
use limiter.Server.{Server, Platform, SmartLimiter, place, IsStore, IsMetadata}
use limiter.Process.EnvoyFilters.{spec_text, refresh_envoy_filter}
use limiter.Process.EnvoyFilters.Settled.{Settled, IsForeign, refresh_envoy_filter-Settled}
use limiter.Process.EnvoyFilters.Apart.{refresh_envoy_filter-apart}
use limiter.Process.Refresh.{filter_name, filter_resource, refresh_filters}

base_shorter : (k : Text) → text ".ratelimit" ≢ text "." ++ (k ++ text ".ratelimit")
unfolding text
base_shorter k e = omega (arith, ap length e, length-append k (text ".ratelimit"))

-- Two subsets of a SmartLimiter have filters of different names.
pub filter_name-injective :
    (fw : Framework) (i : SmartLimiter) (k k' : Text)
    → filter_name fw i k ≡ filter_name fw i k'
    → k ≡ k'
unfolding filter_name
filter_name-injective fw i k k' h = elim (Bool-cases (k == fw.base_set)) [
  | inl e ↦ elim (Bool-cases (k' == fw.base_set)) [
    | inl e' ↦ (eq_iff k fw.base_set).0 e ∙ sym ((eq_iff k' fw.base_set).0 e')
    | inr e' ↦ absurd (base_shorter k' (below (rw (e, e', filter_name) at h)))
  ]
  | inr e ↦ elim (Bool-cases (k' == fw.base_set)) [
    | inl e' ↦ absurd (base_shorter k (sym (below (rw (e, e', filter_name) at h))))
    | inr e' ↦
        append-cancel_right k k' (text ".ratelimit")
          (append-cancel_left (text ".") _ _ (below (rw (e, e', filter_name) at h)))
  ]
]
  where
    below :
        {s t : Text}
        → i.name ++ (text "." ++ (i.namespace ++ s)) ≡ i.name ++ (text "." ++ (i.namespace ++ t))
        → s ≡ t
    below {s} {t} e =
        append-cancel_left i.namespace s t
          (append-cancel_left (text ".") _ _ (append-cancel_left i.name _ _ e))

module _ (fw : Framework) (go : Runtime) (srv : Server) (p : Platform) (i : SmartLimiter) where
  -- The filter of a subset is what is asked for, or it belongs to another revision.
  abbrev pub InPlace : srv.State → Text × Option EnvoyFilter → Type 0
  InPlace s e =
      IsForeign srv p s (place (filter_resource fw p i e.0 e.1)) (p.istio_rev_from_label i.labels)
      ⊎ Settled srv p s (place (filter_resource fw p i e.0 e.1)) (p.istio_rev_from_label i.labels)
          (spec_text p (filter_resource fw p i e.0 e.1)) (filter_resource fw p i e.0 e.1).spec

  -- No refresh of the loop reports an error.
  abbrev pub NoErrors : srv.State → List (Text × Option EnvoyFilter) → Type 0
  NoErrors s [] = Unit
  NoErrors s (e ∷ es) =
      ((refresh_envoy_filter srv p s i (filter_resource fw p i e.0 e.1)).1 ≡ none)
      × NoErrors (refresh_envoy_filter srv p s i (filter_resource fw p i e.0 e.1)).0 es

  -- Every subset stands once.
  abbrev pub HasOwnKeys : List (Text × Option EnvoyFilter) → Type 0
  HasOwnKeys [] = Unit
  HasOwnKeys (e ∷ es) = All (λ e'. e.0 ≢ e'.0) es × HasOwnKeys es

  Settled-same :
      (s s' : srv.State) (loc : NamespacedName) (rev bytes : Text) (want : Option Fields)
      → srv.get_envoy_filter s' loc ≡ srv.get_envoy_filter s loc
      → Settled srv p s loc rev bytes want
      → Settled srv p s' loc rev bytes want
  Settled-same s s' loc rev bytes none same h = same ∙ h
  Settled-same s s' loc rev bytes (some spec) same (o, f, g, r) = (o, same ∙ f, g, r)

  pub InPlace-same :
      (s s' : srv.State) (e : Text × Option EnvoyFilter)
      → srv.get_envoy_filter s' (place (filter_resource fw p i e.0 e.1))
        ≡ srv.get_envoy_filter s (place (filter_resource fw p i e.0 e.1))
      → InPlace s e
      → InPlace s' e
  InPlace-same s s' e same (inl (o, f, g)) = inl (o, same ∙ f, g)
  InPlace-same s s' e same (inr settled) = inr (Settled-same s s' _ _ _ _ same settled)

  module _ (st : IsStore srv) (meta : IsMetadata p) where
    loop-apart :
        (s : srv.State) (es : List (Text × Option EnvoyFilter)) (loc : NamespacedName)
        → All (λ e. loc ≢ place (filter_resource fw p i e.0 e.1)) es
        → srv.get_envoy_filter (refresh_filters fw go srv p s i es) loc ≡ srv.get_envoy_filter s loc
    unfolding refresh_filters
    loop-apart s [] loc n = refl
    loop-apart s (e ∷ es) loc n =
        loop-apart (refresh_envoy_filter srv p s i (filter_resource fw p i e.0 e.1)).0 es loc n.1
        ∙ refresh_envoy_filter-apart srv p st meta s i (filter_resource fw p i e.0 e.1) loc n.0

    apart_keys :
        (e : Text × Option EnvoyFilter) (es : List (Text × Option EnvoyFilter))
        → All (λ e'. e.0 ≢ e'.0) es
        → All
            (λ e'.
              place (filter_resource fw p i e.0 e.1) ≢ place (filter_resource fw p i e'.0 e'.1))
            es
    unfolding filter_resource
    apart_keys e es =
        All-map _ (λ e' n same. n (filter_name-injective fw i e.0 e'.0 (ap (λ loc. loc.name) same)))
          es

    one_done :
        (s : srv.State) (e : Text × Option EnvoyFilter)
        → (refresh_envoy_filter srv p s i (filter_resource fw p i e.0 e.1)).1 ≡ none
        → InPlace (refresh_envoy_filter srv p s i (filter_resource fw p i e.0 e.1)).0 e
    one_done s e n =
        let obj = filter_resource fw p i e.0 e.1 in
        let r = refresh_envoy_filter srv p s i obj in
        elim (refresh_envoy_filter-Settled srv p st meta i obj s r.0
          (unfold filter_resource in refl) (unfold filter_resource in meta.no_rev)
          (ap (λ x. (r.0, x)) n)) [
            | inl (same, f) ↦ inl (
                subst (λ t. IsForeign srv p t (place obj) (p.istio_rev_from_label i.labels)) same f)
            | inr settled ↦ inr settled
          ]

    -- If every subset stands once and no refresh reports an error, then after the loop the filters of
    -- all subsets are in place: for each, the cluster holds a filter of this revision with the
    -- specification that was generated, or no filter if none was, or a filter of another revision.
    pub refresh_filters-InPlace :
        (s : srv.State) (es : List (Text × Option EnvoyFilter))
        → HasOwnKeys es
        → NoErrors s es
        → All (InPlace (refresh_filters fw go srv p s i es)) es
    unfolding refresh_filters
    refresh_filters-InPlace s [] d n = tt
    refresh_filters-InPlace s (e ∷ es) d n =
        let s1 = (refresh_envoy_filter srv p s i (filter_resource fw p i e.0 e.1)).0 in
        (
          InPlace-same s1 (refresh_filters fw go srv p s1 i es) e
              (loop-apart s1 es (place (filter_resource fw p i e.0 e.1)) (apart_keys e es d.0))
              (one_done s e n.0),
          refresh_filters-InPlace s1 es d.1 n.1,
        )
