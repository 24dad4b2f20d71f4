-- ===== src/Foreman/State.antt =====
-- The state of daemon/src/temporal/foreman.workflows.ts, its life across continue-as-new, the
-- operator's signals, and what the workflow reports of itself. `Date.now()` is the argument `now`.
pub mod Signals
pub mod Carried
mod Tests
use Prim.Native.String
use repomap_core.Prelude.{
  ℕ, ◌+◌, ◌-◌, String, Bool, true, false, Option, none, some, List, [], ◌∷◌, ◌++◌, str_eq, leb,
  if◌then◌else◌, or_else, add_new,
}
use repomap_core.Foreman.Types.{
  Usd, ForemanPhase, polling, HealthCheckResult, BeadCandidate, DispatchOutcome, DispatchPlan,
  AgentTaskInput, RetryLedgerEntry, ContinueAsNewState, ForemanInput, ResultStatus, ForemanResult,
  ForemanStatus,
}

pub record ForemanState : Type 0 where
  pub phase : ForemanPhase
  pub iteration_count : ℕ
  pub pause_requested : Bool
  pub shutdown_requested : Bool
  pub shutdown_reason : Option String
  pub current_bead_id : Option String
  pub current_workflow_id : Option String
  pub skip_list : List String
  pub force_dispatch_queue : List String
  pub total_iterations : ℕ
  pub total_dispatches : ℕ
  pub total_completions : ℕ
  pub total_failures : ℕ
  pub total_escalations : ℕ
  pub last_health_check : Option HealthCheckResult
  pub last_health_check_at : Option ℕ
  pub recent_outcomes : List DispatchOutcome
  pub retry_ledger : List RetryLedgerEntry
  pub foreman_started_at : ℕ
  pub last_continue_as_new_at : Option ℕ
  pub start_timestamp : ℕ

-- `carried?.field ?? default`
abbrev pub carry {ℓ} : {A : Type ℓ} → Option ContinueAsNewState → (ContinueAsNewState → A) → A → A
carry none f a = a
carry (some c) f a = f c

unfoldable pub initialize_state : ForemanInput → ℕ → ForemanState
initialize_state input start_timestamp =
    let c = input.carried_state in
    record {
      phase = polling;
      iteration_count = 0;
      pause_requested = carry c (λ s. s.pause_requested) false;
      shutdown_requested = carry c (λ s. s.shutdown_requested) false;
      shutdown_reason = none;
      current_bead_id = none;
      current_workflow_id = none;
      skip_list = [];
      force_dispatch_queue = [];
      total_iterations = carry c (λ s. s.total_iterations) 0;
      total_dispatches = carry c (λ s. s.total_dispatches) 0;
      total_completions = carry c (λ s. s.total_completions) 0;
      total_failures = carry c (λ s. s.total_failures) 0;
      total_escalations = carry c (λ s. s.total_escalations) 0;
      last_health_check = carry c (λ s. s.last_health_check) none;
      last_health_check_at = carry c (λ s. s.last_health_check_at) none;
      recent_outcomes = carry c (λ s. s.recent_outcomes) [];
      retry_ledger = carry c (λ s. s.retry_ledger) [];
      foreman_started_at = carry c (λ s. s.foreman_started_at) start_timestamp;
      last_continue_as_new_at = carry c (λ s. s.last_continue_as_new_at) none;
      start_timestamp = start_timestamp;
    }

unfoldable pub serialize_state : ForemanState → ℕ → ContinueAsNewState
serialize_state s now = record {
  total_iterations = s.total_iterations;
  total_dispatches = s.total_dispatches;
  total_completions = s.total_completions;
  total_failures = s.total_failures;
  total_escalations = s.total_escalations;
  last_health_check = s.last_health_check;
  last_health_check_at = s.last_health_check_at;
  recent_outcomes = s.recent_outcomes;
  retry_ledger = s.retry_ledger;
  pause_requested = s.pause_requested;
  shutdown_requested = s.shutdown_requested;
  foreman_started_at = s.foreman_started_at;
  last_continue_as_new_at = some now;
}

-- `elapsed >= limit`, where the elapsed time may be negative
unfoldable pub should_continue_as_new : ForemanState → ForemanInput → ℕ → Bool
should_continue_as_new s input now =
    if leb input.max_iterations s.iteration_count
    then true
    else leb (s.start_timestamp + input.max_wall_clock_ms) now

unfoldable pub should_run_health_check : ForemanState → ForemanInput → ℕ → Bool
should_run_health_check s input now = elim s.last_health_check_at [
  | none ↦ true
  | some at ↦ leb (at + input.health_check_interval_ms) now
]

unfoldable pub make_result :
    ResultStatus → ForemanState → Option String → Option String → ForemanResult
make_result status s shutdown_reason error = record {
  status = status;
  total_iterations = s.total_iterations;
  total_dispatches = s.total_dispatches;
  total_completions = s.total_completions;
  total_failures = s.total_failures;
  total_escalations = s.total_escalations;
  shutdown_reason = shutdown_reason;
  error = error;
}

-- The uptime is 0 where the clock stands before the start.
unfoldable pub build_status_snapshot : ForemanState → ℕ → ForemanStatus
build_status_snapshot s now = record {
  phase = s.phase;
  current_bead_id = s.current_bead_id;
  current_workflow_id = s.current_workflow_id;
  iteration_count = s.iteration_count;
  lifetime_iterations = s.total_iterations;
  lifetime_dispatches = s.total_dispatches;
  lifetime_completions = s.total_completions;
  lifetime_failures = s.total_failures;
  lifetime_escalations = s.total_escalations;
  uptime = now - s.foreman_started_at;
  last_health_check = s.last_health_check;
  recent_outcomes = s.recent_outcomes;
  retry_ledger = s.retry_ledger;
  paused = s.pause_requested;
  shutting_down = s.shutdown_requested;
}

infixr 65 ◌^^◌
abbrev ◌^^◌ : String → String → String
a ^^ b = String.◌++◌ a b

-- a description that is absent or empty adds nothing
description_block : Option String → String
description_block none = ""
description_block (some d) = if str_eq d "" then "" else "\n\nDescription:\n" ^^ d

unfoldable pub build_dispatch_plan : BeadCandidate → ForemanInput → DispatchPlan
unfolding description_block
build_dispatch_plan candidate input = record {
  bead_id = candidate.bead_id;
  prompt =
      "Execute bead "
      ^^ candidate.bead_id
      ^^ ": "
      ^^ candidate.title
      ^^ description_block candidate.description;
  agent = "code";
  title = "foreman: " ^^ candidate.bead_id ^^ " — " ^^ candidate.title;
  timeout_ms = input.default_timeout_ms;
  cost_budget_usd = input.default_cost_budget_usd;
  card_id = none;
  enforced_only = false;
}

unfoldable pub build_child_input : DispatchPlan → ForemanInput → AgentTaskInput
build_child_input plan input = record {
  prompt = plan.prompt;
  agent = plan.agent;
  title = plan.title;
  kilo_host = input.kilo_host;
  kilo_port = input.kilo_port;
  timeout_ms = plan.timeout_ms;
  dolt_host = input.dolt_host;
  dolt_port = input.dolt_port;
  dolt_database = input.dolt_database;
  card_id = plan.card_id;
  enforced_only = plan.enforced_only;
  max_session_cost_usd = plan.cost_budget_usd;
}

unfoldable pub increment_iteration_counters : ForemanState → ForemanState
increment_iteration_counters s = record s {
  iteration_count = s.iteration_count + 1;
  total_iterations = s.total_iterations + 1;
}
