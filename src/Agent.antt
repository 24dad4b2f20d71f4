-- ===== src/Agent.antt =====
-- The types of daemon/src/temporal/workflows.ts, with `ActiveLeafProgress` and `AgentResult` of
-- daemon/src/temporal/activities.ts, and its asynchronous code as a state monad. An `await` asks the
-- environment `Env`, which answers by all that was asked before, the last request first; signals are
-- delivered at the awaits. A cost is its number of millionths of a dollar, and an ISO time its number
-- of milliseconds.
pub mod Workflow
pub mod Script
pub mod Steps
pub mod Runs
mod Tests
use repomap_core.Prelude.{ℕ, String, Bool, true, false, Option, none, some, List, [], ◌∷◌}

pub data LeafPhase : Type 0 where
  thinking tools_running working idle unknown : LeafPhase

pub record AgentTaskLeafStatus : Type 0 where
  pub session_id : Option String
  pub label : Option String
  pub phase : LeafPhase
  pub running_tools : ℕ
  pub completed_tools : ℕ
  pub last_tool_name : Option String
  pub done : Bool
  pub is_thinking : Bool

pub record ActiveLeafProgress : Type 0 where
  pub session_id : String
  pub label : String
  pub phase : LeafPhase
  pub running_tools : ℕ
  pub completed_tools : ℕ
  pub last_tool_name : Option String
  pub done : Bool
  pub is_thinking : Bool

-- the fields that `AgentTaskHeartbeatProgress` and `AgentResult` share, which are all that are read
pub record AgentResult : Type 0 where
  pub total_parts : ℕ
  pub tool_calls : ℕ
  pub child_count : ℕ
  pub total_cost : ℕ
  pub tokens_input : ℕ
  pub tokens_output : ℕ
  pub idle_confirmations : ℕ
  pub required_idle_confirmations : ℕ
  pub last_progress_at : ℕ
  pub active_leaf : ActiveLeafProgress

pub data Phase : Type 0 where
  initializing health_check creating_session sending_prompt agent_working budget_check : Phase
  budget_exceeded validating validation_failed completed aborted failed : Phase

-- the texts of `state.error`
pub data Failure : Type 0 where
  message : String → Failure
  cost_budget_exceeded : Failure
  punch_card_failed : (missing violations : List String) → Failure

pub record AgentTaskStatus : Type 0 where
  pub phase : Phase
  pub session_id : Option String
  pub tool_calls : ℕ
  pub total_parts : ℕ
  pub child_count : ℕ
  pub total_cost : ℕ
  pub tokens_input : ℕ
  pub tokens_output : ℕ
  pub idle_confirmations : ℕ
  pub required_idle_confirmations : ℕ
  pub last_progress_at : Option ℕ
  pub leaf : AgentTaskLeafStatus
  pub error : Option Failure

-- The values that are only passed on to activities are left out: the host and port, the database, the
-- overrides of the budget and of the audit, and `enforcedOnly`. A card id that is missing or empty is
-- `none`, and a session id is not empty.
pub record AgentTaskInput : Type 0 where
  pub prompt : String
  pub agent : Option String
  pub title : Option String
  pub poll_interval_ms : Option ℕ
  pub timeout_ms : Option ℕ
  pub has_dolt_config : Bool
  pub card_id : Option String
  pub punch_card_task_id : Option String
  pub disable_cost_budget : Bool
  pub disable_audit : Bool

pub record AuditSummary : Type 0 where
  pub verdict : String
  pub finding_count : ℕ
  pub critical_count : ℕ
  pub warning_count : ℕ
  pub info_count : ℕ

pub data Status : Type 0 where
  completed aborted failed validation_failed budget_exceeded : Status

pub record AgentTaskResult : Type 0 where
  pub status : Status
  pub session_id : Option String
  pub total_parts : ℕ
  pub tool_calls : ℕ
  pub duration_ms : ℕ
  pub total_cost : ℕ
  pub tokens_input : ℕ
  pub tokens_output : ℕ
  pub error : Option Failure
  pub audit : Option AuditSummary

-- the answers of `checkCostBudget` and `validateTaskPunchCard`, as far as they are read
pub record BudgetResult : Type 0 where
  pub is_breach : Bool
  pub session_cost : ℕ
  pub intervention_reason : Option String

pub record Validation : Type 0 where
  pub is_fail : Bool
  pub missing : List String
  pub violations : List String

pub data Request : Type 0 where
  check_health : Request
  create_session : Option String → Request
  send_prompt : (session_id prompt : String) → Option String → Request
  sleep_three_seconds : Request
  poll_until_done : String → (interval_ms timeout_ms : ℕ) → Request
  check_cost_budget : String → Request
  validate_punch_card : (task_id card_id : String) → Request
  run_session_audit : String → Request
  abort_session : String → Request

pub data Signal : Type 0 where
  abort : Signal
  progress : AgentResult → Signal

pub record Fault : Type 0 where
  pub text : String
  pub is_cancellation : Bool

pub data Reply (A : Type 0) : Type 0 where
  value : A → Reply A
  fault : Fault → Reply A

pub record Env : Type 0 where
  pub now : List Request → ℕ
  pub signals : List Request → List Signal
  pub done : List Request → Reply (Unit {0})
  pub session : List Request → Reply String
  pub polled : List Request → Reply AgentResult
  pub budget : List Request → Reply BudgetResult
  pub validation : List Request → Reply Validation
  pub audit : List Request → Reply AuditSummary

-- the state, whether an abort was asked for, and the requests
pub record World : Type 0 where
  pub state : AgentTaskStatus
  pub abort_asked : Bool
  pub trace : List Request
