-- ===== src/Foreman/Types.antt =====
-- daemon/src/temporal/foreman.types.ts, and `AgentTaskResult` of daemon/src/temporal/workflows.ts.
-- An ISO time is its number of milliseconds, and an amount of dollars is carried as a number that
-- nothing computes with. The audit summary is carried as its verdict.
use repomap_core.Prelude.{ℕ, String, Bool, Option, List}

-- a carried amount, in millionths of a dollar
abbrev pub Usd : Type 0
Usd = ℕ

pub data ForemanPhase : Type 0 where
  polling health_check selecting dispatching monitoring completing failing : ForemanPhase
  retrying escalating idle paused shutting_down awaiting_intervention : ForemanPhase
  awaiting_approval : ForemanPhase

pub data Overall : Type 0 where
  pass degraded fail : Overall

pub data SubsystemStatus : Type 0 where
  up reduced down : SubsystemStatus

pub record SubsystemHealth : Type 0 where
  pub status : SubsystemStatus
  pub message : Option String
  pub latency_ms : Option ℕ

pub record Subsystems : Type 0 where
  pub kilo_serve : SubsystemHealth
  pub dolt : SubsystemHealth
  pub git : SubsystemHealth
  pub temporal : SubsystemHealth
  pub beads : SubsystemHealth

pub record HealthCheckResult : Type 0 where
  pub overall : Overall
  pub checked_at : ℕ
  pub subsystems : Subsystems

pub data Priority : Type 0 where
  p0 p1 p2 p3 : Priority

pub data Complexity : Type 0 where
  trivial small medium large unknown : Complexity

pub record BeadCandidate : Type 0 where
  pub bead_id : String
  pub title : String
  pub priority : Priority
  pub labels : List String
  pub depends_on : List String
  pub estimated_complexity : Complexity
  pub description : Option String

pub data DispatchResult : Type 0 where
  completed : DispatchResult
  failed : String → Bool → DispatchResult
  validation_failed : List String → List String → DispatchResult
  budget_exceeded : Usd → Usd → DispatchResult
  timeout : ℕ → ℕ → DispatchResult
  aborted : String → DispatchResult

pub data AgentStatus : Type 0 where
  agent_completed agent_failed agent_aborted agent_validation_failed : AgentStatus
  agent_budget_exceeded : AgentStatus
  agent_other : String → AgentStatus

pub record AgentTaskResult : Type 0 where
  pub status : AgentStatus
  pub session_id : Option String
  pub total_cost : Usd
  pub tokens_input : ℕ
  pub tokens_output : ℕ
  pub error : Option String
  pub audit : Option String

pub record DispatchPlan : Type 0 where
  pub bead_id : String
  pub prompt : String
  pub agent : String
  pub title : String
  pub timeout_ms : ℕ
  pub cost_budget_usd : Usd
  pub card_id : Option String
  pub enforced_only : Bool

-- the fields of `AgentTaskInput` that the foreman sets
pub record AgentTaskInput : Type 0 where
  pub prompt : String
  pub agent : String
  pub title : String
  pub kilo_host : String
  pub kilo_port : ℕ
  pub timeout_ms : ℕ
  pub dolt_host : String
  pub dolt_port : ℕ
  pub dolt_database : String
  pub card_id : Option String
  pub enforced_only : Bool
  pub max_session_cost_usd : Usd

pub record DispatchOutcome : Type 0 where
  pub bead_id : String
  pub workflow_id : String
  pub session_id : Option String
  pub started_at : ℕ
  pub completed_at : ℕ
  pub duration_ms : ℕ
  pub total_cost : Usd
  pub tokens_input : ℕ
  pub tokens_output : ℕ
  pub result : DispatchResult
  pub audit : Option String
  pub attempt : ℕ

pub record RetryLedgerEntry : Type 0 where
  pub bead_id : String
  pub attempts : ℕ
  pub max_attempts : ℕ
  pub last_attempt_at : ℕ
  pub last_error : String
  pub last_result : DispatchResult
  pub next_retry_after : ℕ
  pub exhausted : Bool

pub record ContinueAsNewState : Type 0 where
  pub total_iterations : ℕ
  pub total_dispatches : ℕ
  pub total_completions : ℕ
  pub total_failures : ℕ
  pub total_escalations : ℕ
  pub last_health_check : Option HealthCheckResult
  pub last_health_check_at : Option ℕ
  pub recent_outcomes : List DispatchOutcome
  pub retry_ledger : List RetryLedgerEntry
  pub pause_requested : Bool
  pub shutdown_requested : Bool
  pub foreman_started_at : ℕ
  pub last_continue_as_new_at : Option ℕ

pub record ForemanInput : Type 0 where
  pub workflow_id : String
  pub repo_path : String
  pub task_queue : String
  pub kilo_host : String
  pub kilo_port : ℕ
  pub dolt_host : String
  pub dolt_port : ℕ
  pub dolt_database : String
  pub poll_interval_ms : ℕ
  pub health_check_interval_ms : ℕ
  pub max_iterations : ℕ
  pub max_wall_clock_ms : ℕ
  pub max_concurrent_dispatches : ℕ
  pub default_timeout_ms : ℕ
  pub default_cost_budget_usd : Usd
  pub max_retries_per_bead : ℕ
  pub retry_backoff_ms : ℕ
  pub health_failure_threshold : Option ℕ
  pub carried_state : Option ContinueAsNewState

pub data ResultStatus : Type 0 where
  shut_down finished crashed : ResultStatus

pub record ForemanResult : Type 0 where
  pub status : ResultStatus
  pub total_iterations : ℕ
  pub total_dispatches : ℕ
  pub total_completions : ℕ
  pub total_failures : ℕ
  pub total_escalations : ℕ
  pub shutdown_reason : Option String
  pub error : Option String

pub record ForemanStatus : Type 0 where
  pub phase : ForemanPhase
  pub current_bead_id : Option String
  pub current_workflow_id : Option String
  pub iteration_count : ℕ
  pub lifetime_iterations : ℕ
  pub lifetime_dispatches : ℕ
  pub lifetime_completions : ℕ
  pub lifetime_failures : ℕ
  pub lifetime_escalations : ℕ
  pub uptime : ℕ
  pub last_health_check : Option HealthCheckResult
  pub recent_outcomes : List DispatchOutcome
  pub retry_ledger : List RetryLedgerEntry
  pub paused : Bool
  pub shutting_down : Bool
