-- ===== src/Examples/Complete.antt =====
-- A whole refresh on a server that keeps what it is given.
use limiter.Prelude.{◌≡◌, refl, none, some, ret, [], ◌∷◌}
use limiter.Text.{text}
use limiter.GoMap.Range.{in_order}
use limiter.Filters.{Configs}
use limiter.Process.Refresh.{refresh}
use limiter.Process.Refresh.Complete.{Complete, refresh-Complete}
use limiter.Examples.{framework, cluster}
use limiter.Examples.Filters.{own_names, spec-IsWellFormed}
use limiter.Examples.Yaml.{unmarshal-marshal}
use limiter.Examples.Store.{
  Objects, server, server-IsStore, server-IsHealthy, platform, platform-IsMetadata,
}
use limiter.Examples.Refreshes.{limiter_of_reviews, start, stored, start_config}
use limiter.Examples.Reconciles.{environment}

refresh-Complete_example :
    (s' : Objects) × (c : Configs) × (refresh framework in_order server platform environment
        cluster.host_subsets start [] limiter_of_reviews
      ≡ ret (s', none))
    × Complete framework in_order server platform environment cluster.host_subsets
        limiter_of_reviews server-IsStore platform-IsMetadata server-IsHealthy unmarshal-marshal
        start []
        (some ((text "app", text "reviews") ∷ []))
        stored
        s'
        c
refresh-Complete_example =
    refresh-Complete framework in_order server platform environment cluster.host_subsets
      limiter_of_reviews server-IsStore platform-IsMetadata server-IsHealthy unmarshal-marshal start
      [] _ (some ((text "app", text "reviews") ∷ [])) stored refl spec-IsWellFormed refl refl
      own_names start_config
