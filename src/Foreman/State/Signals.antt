-- ===== src/Foreman/State/Signals.antt =====
-- The signal handlers that `foremanWorkflow` of daemon/src/temporal/foreman.workflows.ts registers.
-- The reason of a skip is not used there.
use repomap_core.Prelude.{ℕ, String, true, false, Option, some, [], ◌∷◌, ◌++◌, or_else, add_new}
use repomap_core.Foreman.Types.{Usd, ContinueAsNewState, ForemanInput}
use repomap_core.Foreman.State.{ForemanState}

-- `Partial<ForemanInput>`
pub record ConfigUpdate : Type 0 where
  pub workflow_id : Option String
  pub repo_path : Option String
  pub task_queue : Option String
  pub kilo_host : Option String
  pub kilo_port : Option ℕ
  pub dolt_host : Option String
  pub dolt_port : Option ℕ
  pub dolt_database : Option String
  pub poll_interval_ms : Option ℕ
  pub health_check_interval_ms : Option ℕ
  pub max_iterations : Option ℕ
  pub max_wall_clock_ms : Option ℕ
  pub max_concurrent_dispatches : Option ℕ
  pub default_timeout_ms : Option ℕ
  pub default_cost_budget_usd : Option Usd
  pub max_retries_per_bead : Option ℕ
  pub retry_backoff_ms : Option ℕ
  pub health_failure_threshold : Option (Option ℕ)
  pub carried_state : Option (Option ContinueAsNewState)

-- `{ ...config, ...safe }`, where `safe` is the update without its immutable fields
unfoldable pub merge_config : ForemanInput → ConfigUpdate → ForemanInput
merge_config c u = record c {
  task_queue = or_else u.task_queue c.task_queue;
  kilo_host = or_else u.kilo_host c.kilo_host;
  kilo_port = or_else u.kilo_port c.kilo_port;
  dolt_host = or_else u.dolt_host c.dolt_host;
  dolt_port = or_else u.dolt_port c.dolt_port;
  dolt_database = or_else u.dolt_database c.dolt_database;
  poll_interval_ms = or_else u.poll_interval_ms c.poll_interval_ms;
  health_check_interval_ms = or_else u.health_check_interval_ms c.health_check_interval_ms;
  max_iterations = or_else u.max_iterations c.max_iterations;
  max_wall_clock_ms = or_else u.max_wall_clock_ms c.max_wall_clock_ms;
  max_concurrent_dispatches = or_else u.max_concurrent_dispatches c.max_concurrent_dispatches;
  default_timeout_ms = or_else u.default_timeout_ms c.default_timeout_ms;
  default_cost_budget_usd = or_else u.default_cost_budget_usd c.default_cost_budget_usd;
  max_retries_per_bead = or_else u.max_retries_per_bead c.max_retries_per_bead;
  retry_backoff_ms = or_else u.retry_backoff_ms c.retry_backoff_ms;
  health_failure_threshold = or_else u.health_failure_threshold c.health_failure_threshold;
}

pub data Signal : Type 0 where
  pause resume : Signal
  shutdown : String → Signal
  force_dispatch approve_dispatch : String → Signal
  skip_bead : String → String → Signal
  update_config : ConfigUpdate → Signal

unfoldable pub signal_state : Signal → ForemanState → ForemanState
signal_state pause s = record s { pause_requested = true }
signal_state resume s = record s { pause_requested = false }
signal_state (shutdown reason) s = record s {
  shutdown_requested = true;
  shutdown_reason = some reason;
}
signal_state (force_dispatch bead_id) s = record s {
  force_dispatch_queue = s.force_dispatch_queue ++ bead_id ∷ [];
}
signal_state (approve_dispatch bead_id) s = record s {
  force_dispatch_queue = s.force_dispatch_queue ++ bead_id ∷ [];
}
signal_state (skip_bead bead_id reason) s = record s { skip_list = add_new s.skip_list bead_id }
signal_state (update_config u) s = s

unfoldable pub signal_config : Signal → ForemanInput → ForemanInput
unfolding merge_config
signal_config (update_config u) c = merge_config c u
signal_config _ c = c
