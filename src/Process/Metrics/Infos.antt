-- ===== src/Process/Metrics/Infos.antt =====
-- Metrics whose maps are never nil.
use limiter.Prelude.{
  ℤ, pos, negsuc, zero, suc, ◌≡◌, refl, List, [], ◌∷◌, Option, none, some, ret, Yields, Yields-bind,
  All, Option-cases, Bool-cases, inl, inr,
}
use limiter.Text.{Text}
use limiter.Text.Decimal.{format_int}
use limiter.GoMap.{GoMap, get, set, set_all, Runtime}
use limiter.GoMap.Entries.{All-set, All-get}
use limiter.Api.{NamespacedName}
use limiter.Process.Metrics.{
  StaticMeta, Result, Endpoints, resource_key, is_group_metric, add_value, add_results, add_pods,
  assign_all, metric_info_of, record_metrics,
}

abbrev pub IsMap : Option (GoMap Text) → Type 0
IsMap o = (m : GoMap Text) × (o ≡ some m)

-- The producer filled in a map.
abbrev pub HasValue : Result → Type 0
HasValue r = IsMap r.value

-- No recorded metrics are the nil map.
abbrev pub HasInfos : GoMap Endpoints → Type 0
HasInfos metric_info = All (λ e. IsMap e.1.info) metric_info

add_value-IsMap :
    (m : GoMap Text) (name : Text) (value : Option (GoMap Text))
    → Yields IsMap (add_value (some m) name value)
unfolding add_value
add_value-IsMap m name none = (some m, refl, (m, refl))
add_value-IsMap m name (some []) = (some m, refl, (m, refl))
add_value-IsMap m name (some ((k, v) ∷ [])) = (some (set m name v), refl, (set m name v, refl))
add_value-IsMap m name (some (e ∷ e' ∷ es)) = (some m, refl, (m, refl))

add_results-IsMap :
    (meta : StaticMeta) (info : Option (GoMap Text)) (results : List Result)
    → IsMap info
    → All HasValue results
    → Yields IsMap (add_results meta info results)
unfolding add_results
add_results-IsMap meta info [] h v = (info, refl, h)
add_results-IsMap meta info (r ∷ results) (m, e) v =
    elim (Bool-cases (is_group_metric meta r.name)) [
      | inl group ↦ rw group (add_results-IsMap meta r.value results v.0 v.1)
      | inr single ↦
          rw (single, e)
            (Yields-bind (add_value (some m) r.name r.value) (λ i. add_results meta i results)
              (add_value-IsMap m r.name r.value)
              (λ i same h. add_results-IsMap meta i results h v.1))
    ]

add_pods-IsMap : (m : GoMap Text) (es : List (Text × ℤ)) → Yields IsMap (add_pods (some m) es)
unfolding add_pods
add_pods-IsMap m [] = (some m, refl, (m, refl))
add_pods-IsMap m ((subset, pos zero) ∷ es) = add_pods-IsMap m es
add_pods-IsMap m ((subset, pos (suc n)) ∷ es) =
    add_pods-IsMap (set m subset (format_int (pos (suc n)))) es
add_pods-IsMap m ((subset, negsuc n) ∷ es) =
    add_pods-IsMap (set m subset (format_int (negsuc n))) es

pub metric_info_of-IsMap :
    (go : Runtime) (meta : StaticMeta) (results : List Result)
    → All HasValue results
    → Yields IsMap (metric_info_of go meta results)
unfolding metric_info_of
metric_info_of-IsMap go meta results v =
    Yields-bind (add_results meta (some []) results) _
      (add_results-IsMap meta (some []) results ([], refl) v)
      (λ info same h. rw h.1 (add_pods-IsMap h.0 (go.range ℤ meta.n_pod)))

assign_all-IsMap :
    (m : GoMap Text) (es : List (Text × Text)) → assign_all (some m) es ≡ ret (some (set_all m es))
unfolding assign_all set_all
assign_all-IsMap m [] = refl
assign_all-IsMap m ((k, v) ∷ es) = refl

pub record_metrics-HasInfos :
    (go : Runtime) (metric_info : GoMap Endpoints) (loc : NamespacedName)
    (args : Option (GoMap Text))
    → IsMap args
    → HasInfos metric_info
    → Yields HasInfos (record_metrics go metric_info loc args)
unfolding record_metrics
record_metrics-HasInfos go metric_info loc args (m, e) h =
    elim (Option-cases (get metric_info (resource_key loc))) [
      | inl f ↦
          rw (f, record_metrics) (_, refl, All-set _ metric_info (resource_key loc) _ (m, e) h)
      | inr (ep, f) ↦
          let (old, g) = All-get _ metric_info (resource_key loc) ep h f in
          rw (f, record_metrics)
            (rw (g, e, assign_all-IsMap old (go.range Text m))
              (_, refl, All-set _ metric_info (resource_key loc) _ (_, refl) h))
    ]
