-- ===== src/Examples/Reconciles.antt =====
-- The theorems on the reconciler at concrete inputs.
use limiter.Prelude.{Returns, [], ◌∷◌, ◌≡◌, refl, ret, true, false, none, some}
use limiter.Text.{text}
use limiter.GoMap.{get, set}
use limiter.Examples.Filters.{spec-IsWellFormed}
use limiter.Api.{NamespacedName}
use limiter.Api.Equal.{equal_spec}
use limiter.Environment.{Environment}
use limiter.Process.Metrics.{resource_key}
use limiter.Reconciler.{Reconciler, no_policy, reconcile}
use limiter.Reconciler.Interest.{reconcile-accepted, equal_spec_ignored}
use limiter.Process.Refresh.{refresh}
use limiter.Process.Refresh.Panics.{refresh-Returns}
use limiter.GoMap.Range.{in_order}
use limiter.Examples.{framework, reviews, spec, cluster}
use limiter.Examples.Store.{server, server-IsStore, server-IsReadable, platform}
use limiter.Examples.Refreshes.{limiter_of_reviews, start}

abbrev pub environment : Environment
environment = record {
  limiter = some (record { disable_global_rate_limit = false; disable_adaptive = false });
  rev_in_scope = λ rev. true;
}

abbrev fresh : Reconciler
fresh = record { interest = []; metric_info = []; last_update_policy = no_policy }

abbrev ratings : NamespacedName
ratings = record { name = text "ratings"; namespace = text "default" }

new_spec : equal_spec spec no_policy ≡ false
unfolding equal_spec
new_spec = refl

abbrev accepted : Reconciler
accepted = record fresh { last_update_policy = spec; interest = (resource_key reviews, tt) ∷ [] }

reviews-accepted :
    reconcile server platform environment start fresh reviews ≡ ret (start, accepted, none)
unfolding set
reviews-accepted =
    reconcile-accepted server platform environment start fresh reviews limiter_of_reviews refl refl
      new_spec

equal_spec_ignored_example :
    reconcile server platform environment start accepted ratings ≡ ret (start, accepted, none)
equal_spec_ignored_example =
    equal_spec_ignored server platform environment start fresh accepted reviews ratings
      limiter_of_reviews limiter_of_reviews refl refl refl refl (unfold get in (refl, tt)) new_spec
      reviews-accepted

refresh-Returns_example : Returns (
    refresh framework in_order server platform environment cluster.host_subsets start []
      limiter_of_reviews)
refresh-Returns_example =
    refresh-Returns framework in_order server platform environment cluster.host_subsets start []
      limiter_of_reviews server-IsStore (server-IsReadable start) spec-IsWellFormed
