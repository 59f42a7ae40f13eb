-- ===== src/Environment.antt =====
-- What the controllers are started with: the module's configuration, and the framework's.
use limiter.Prelude.{Bool, false, not, Option, none, some}
use limiter.Text.{Text}

-- `Limiter` of api/v1alpha2/limiter_module.pb.go, with the fields that the code reads
pub record Limiter : Type 0 where
  pub disable_global_rate_limit : Bool
  pub disable_adaptive : Bool

-- `bootstrap.Environment`: `r.env.Config.Limiter`, nil also if there is no configuration, and the
-- scope of revisions
pub record Environment : Type 0 where
  pub limiter : Option Limiter
  pub rev_in_scope : Text → Bool

-- `r.env.Config != nil && r.env.Config.Limiter != nil && !...GetDisableGlobalRateLimit()`
abbrev pub is_global_enabled : Environment → Bool
is_global_enabled env = elim env.limiter [
  | none ↦ false
  | some limiter ↦ not limiter.disable_global_rate_limit
]

abbrev pub is_adaptive : Environment → Bool
is_adaptive env = elim env.limiter [ none ↦ false | some limiter ↦ not limiter.disable_adaptive ]
