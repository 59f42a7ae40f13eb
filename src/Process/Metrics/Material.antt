-- ===== src/Process/Metrics/Material.antt =====
-- Which metrics a SmartLimiter is resolved at.
use limiter.Prelude.{
  Bool-cases, false, if◌then◌else◌, ◌≡◌, ◌≢◌, refl, ◌∙◌, ap, subst, sym, List, [], ◌∷◌, Option,
  none, some, ret, >>=-eq-ret, arith, Option-cases, inl, inr,
}
use mathlib.Core.List.Permᴰ
use limiter.Text.{Text, ◌==◌, eq_iff}
use limiter.GoMap.{GoMap, get, set, set_all, Runtime, IsDistinct}
use limiter.GoMap.Laws.{get-set_self, get-set_ne}
use limiter.GoMap.Range.{get-set_all_range, get-perm}
use limiter.Api.{NamespacedName}
use limiter.Process.Metrics.{Endpoints, resource_key, assign_all, record_metrics}

abbrev pub info_at : Option (GoMap Text) → Text → Option Text
info_at info j = elim info [ none ↦ none | some m ↦ get m j ]

-- The recorded value of a metric of a SmartLimiter.
pub metric_at : GoMap Endpoints → NamespacedName → Text → Option Text
metric_at metric_info loc j = elim (get metric_info (resource_key loc)) [
  | none ↦ none
  | some ep ↦ info_at ep.info j
]

-- A new value over an old one.
abbrev pub over : Option Text → Option Text → Option Text
over new old = elim new [ none ↦ old | some v ↦ some v ]

over-none : (o : Option Text) → over o none ≡ o
over-none none = refl
over-none (some v) = refl

metric_at_key :
    (metric_info : GoMap Endpoints) (loc loc' : NamespacedName) (j : Text)
    → resource_key loc ≡ resource_key loc'
    → metric_at metric_info loc j ≡ metric_at metric_info loc' j
unfolding metric_at
metric_at_key metric_info loc loc' j same =
    ap (λ key. elim (get metric_info key) [ none ↦ none | some ep ↦ info_at ep.info j ]) same

keys_apart : (k k' : Text) → (k == k') ≡ false → k ≢ k'
keys_apart k k' e same = ground (arith, eq_iff k k')

metric_at-set :
    (metric_info : GoMap Endpoints) (loc : NamespacedName) (j : Text) (ep : Endpoints)
    → metric_at (set metric_info (resource_key loc) ep) loc j ≡ info_at ep.info j
unfolding metric_at
metric_at-set metric_info loc j ep =
    rw (get-set_self metric_info (resource_key loc) ep, metric_at) refl

metric_at-set_ne :
    (metric_info : GoMap Endpoints) (loc loc' : NamespacedName) (j : Text) (ep : Endpoints)
    → resource_key loc ≢ resource_key loc'
    → metric_at (set metric_info (resource_key loc) ep) loc' j ≡ metric_at metric_info loc' j
unfolding metric_at
metric_at-set_ne metric_info loc loc' j ep n =
    ap (λ o. elim o [ none ↦ none | some e ↦ info_at e.info j ])
      (get-set_ne metric_info (resource_key loc) (resource_key loc') ep n)

module _ (go : Runtime) (args : GoMap Text) (d : IsDistinct args) where
  get-range : (j : Text) → get (go.range Text args) j ≡ get args j
  get-range j = sym ((get-perm (Permᴰ.symm (go.range_perm Text args)) d).0 j)

  no_entries : (j : Text) → go.range Text args ≡ [] → get args j ≡ none
  unfolding get
  no_entries j r = sym (get-range j) ∙ ap (λ es. get es j) r

  assigned :
      (old new : Option (GoMap Text)) (es : List (Text × Text)) (j : Text)
      → go.range Text args ≡ es
      → assign_all old es ≡ ret new
      → info_at new j ≡ over (get args j) (info_at old j)
  unfolding assign_all get
  assigned none new [] j r h =
      subst (λ i. info_at i j ≡ over (get args j) none) {x = none} (ground arith)
        (rw (no_entries j r) refl)
  assigned none new ((k, v) ∷ es) j r h = absurd (cc)
  assigned (some m) new [] j r h =
      subst (λ i. info_at i j ≡ over (get args j) (get m j)) {x = some m} (ground arith)
        (rw (no_entries j r) refl)
  assigned (some m) new (e ∷ es) j r h =
      subst (λ i. info_at i j ≡ over (get args j) (get m j)) {x = some (set_all m (e ∷ es))}
        (ground arith) (rw⁻¹ r (get-set_all_range go m args j d))

  -- What is recorded under the key of the SmartLimiter.
  recorded_self :
      (metric_info metric_info' : GoMap Endpoints) (loc : NamespacedName) (j : Text)
      → record_metrics go metric_info loc (some args) ≡ ret metric_info'
      → metric_at metric_info' loc j ≡ over (get args j) (metric_at metric_info loc j)
  unfolding record_metrics metric_at
  recorded_self metric_info metric_info' loc j h =
      elim (Option-cases (get metric_info (resource_key loc))) [
        | inl e ↦
            let same : set metric_info (resource_key loc)
                  (record { location = loc; info = some args })
                ≡ metric_info' =
              ground (arith, rw (e, record_metrics) at h) in
            subst (λ x. metric_at x loc j ≡ over (get args j) (metric_at metric_info loc j)) same
              (metric_at-set metric_info loc j _ ∙ rw (e, metric_at) (sym (over-none (get args j))))
        | inr (ep, e) ↦
            let (info, a, h') =
              >>=-eq-ret (assign_all ep.info (go.range Text args)) _
                (rw (e, record_metrics) at h) in
            let same : set metric_info (resource_key loc)
                  (record { location = ep.location; info = info })
                ≡ metric_info' =
              ground arith in
            subst (λ x. metric_at x loc j ≡ over (get args j) (metric_at metric_info loc j)) same
              (metric_at-set metric_info loc j _
                ∙ rw (e, metric_at) (assigned ep.info info (go.range Text args) j refl a))
      ]

  recorded_other :
      (metric_info metric_info' : GoMap Endpoints) (loc loc' : NamespacedName) (j : Text)
      → resource_key loc ≢ resource_key loc'
      → record_metrics go metric_info loc (some args) ≡ ret metric_info'
      → metric_at metric_info' loc' j ≡ metric_at metric_info loc' j
  unfolding record_metrics
  recorded_other metric_info metric_info' loc loc' j n h =
      elim (Option-cases (get metric_info (resource_key loc))) [
        | inl e ↦
            let same : set metric_info (resource_key loc)
                  (record { location = loc; info = some args })
                ≡ metric_info' =
              ground (arith, rw (e, record_metrics) at h) in
            subst (λ x. metric_at x loc' j ≡ metric_at metric_info loc' j) same
              (metric_at-set_ne metric_info loc loc' j _ n)
        | inr (ep, e) ↦
            let (info, a, h') =
              >>=-eq-ret (assign_all ep.info (go.range Text args)) _
                (rw (e, record_metrics) at h) in
            let same : set metric_info (resource_key loc)
                  (record { location = ep.location; info = info })
                ≡ metric_info' =
              ground arith in
            subst (λ x. metric_at x loc' j ≡ metric_at metric_info loc' j) same
              (metric_at-set_ne metric_info loc loc' j _ n)
      ]

  -- After metrics are recorded for a SmartLimiter, a metric of any resource is what it was, but under
  -- the key of this SmartLimiter a metric that is among the new ones has its new value.
  pub record_metrics-over :
      (metric_info metric_info' : GoMap Endpoints) (loc loc' : NamespacedName) (j : Text)
      → record_metrics go metric_info loc (some args) ≡ ret metric_info'
      → metric_at metric_info' loc' j ≡ (
          if resource_key loc == resource_key loc'
          then over (get args j) (metric_at metric_info loc' j)
          else metric_at metric_info loc' j)
  record_metrics-over metric_info metric_info' loc loc' j h =
      elim (Bool-cases (resource_key loc == resource_key loc')) [
        | inl e ↦
            (let same : resource_key loc ≡ resource_key loc' =
                (eq_iff (resource_key loc) (resource_key loc')).0 e in
              rw e (
                sym (metric_at_key metric_info' loc loc' j same)
                ∙ recorded_self metric_info metric_info' loc j h
                ∙ ap (over (get args j)) (metric_at_key metric_info loc loc' j same)))
        | inr e ↦ rw e (
            recorded_other metric_info metric_info' loc loc' j
              (λ same. absurd (keys_apart (resource_key loc) (resource_key loc') e same)) h)
      ]
