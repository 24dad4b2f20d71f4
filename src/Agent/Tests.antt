-- ===== src/Agent/Tests.antt =====
-- Runs of `agentTaskWorkflow` of daemon/src/temporal/workflows.ts: one to completion, one whose budget
-- check fails to answer, and one that is asked to abort while the prompt is sent.
use repomap_core.Prelude.{◌≡◌, refl, String, true, false, none, some, List, [], ◌∷◌, ◌++◌}
use repomap_core.Agent.{
  idle, AgentResult, AgentTaskInput, Status, completed, failed, message, AgentTaskResult,
  BudgetResult, Request, check_health, create_session, send_prompt, Signal, abort, Reply, value,
  fault, Env,
}
use repomap_core.Agent.Workflow.{
  returns, agent_task_workflow, agent_steps, prompt_step, poll_step, budget_step, validation_step,
  audit_step, await, make_result, recover, apply_agent_result,
}
use repomap_core.Agent.Script.{script, onto, IsGood}
use repomap_core.Agent.Runs.{
  CleaningUp, Clean, agent_task_workflow_ordered, agent_task_workflow_completed,
  agent_task_workflow-Clean,
}

abbrev input : AgentTaskInput
input = record {
  prompt = "fix it";
  agent = none;
  title = none;
  poll_interval_ms = none;
  timeout_ms = none;
  has_dolt_config = true;
  card_id = some "card";
  punch_card_task_id = none;
  disable_cost_budget = false;
  disable_audit = true;
}

abbrev worked : AgentResult
worked = record {
  total_parts = 7;
  tool_calls = 3;
  child_count = 0;
  total_cost = 120000;
  tokens_input = 900;
  tokens_output = 80;
  idle_confirmations = 6;
  required_idle_confirmations = 6;
  last_progress_at = 5;
  active_leaf = record {
    session_id = "ses_1";
    label = "root";
    phase = idle;
    running_tools = 0;
    completed_tools = 3;
    last_tool_name = some "edit";
    done = true;
    is_thinking = false;
  };
}

abbrev answers : Reply BudgetResult → (List Request → List Signal) → Env
answers budget signals = record {
  now = λ t. 10;
  signals = signals;
  done = λ t. value tt;
  session = λ t. value "ses_1";
  polled = λ t. value worked;
  budget = λ t. budget;
  validation = λ t. value (record { is_fail = false; missing = []; violations = [] });
  audit = λ t. fault (record { text = "not asked"; is_cancellation = false });
}

abbrev within : Reply BudgetResult
within = value (record { is_breach = false; session_cost = 120000; intervention_reason = none })

abbrev good : Env
good = answers within (λ t. [])

abbrev broken : Env
broken = answers (fault (record { text = "no database"; is_cancellation = false })) (λ t. [])

abbrev at_prompt : List Request → List Signal
at_prompt [] = []
at_prompt (send_prompt sid prompt agent ∷ t) = abort ∷ []
at_prompt (other ∷ t) = []

abbrev abort_during_prompt : Env
abort_during_prompt = answers within at_prompt

abbrev outcome : Status → AgentTaskResult
outcome status = record {
  status = status;
  session_id = some "ses_1";
  total_parts = 7;
  tool_calls = 3;
  duration_ms = 0;
  total_cost = 120000;
  tokens_input = 900;
  tokens_output = 80;
  error = none;
  audit = none;
}

abbrev broken_result : AgentTaskResult
broken_result = record (outcome failed) { error = some (message "no database") }

completes : (agent_task_workflow good input).0 ≡ returns (outcome completed)
unfolding agent_task_workflow agent_steps prompt_step poll_step budget_step validation_step
    audit_step await make_result apply_agent_result
completes = refl

fails : (agent_task_workflow broken input).0 ≡ returns broken_result
unfolding agent_task_workflow agent_steps prompt_step poll_step budget_step await make_result
    recover apply_agent_result
fails = refl

-- the agent goes on working on the prompt that was sent
abort_leaves_session :
    (agent_task_workflow abort_during_prompt input).1.trace
    ≡ send_prompt "ses_1" "fix it" none ∷ create_session none ∷ check_health ∷ []
unfolding agent_task_workflow agent_steps prompt_step await make_result
abort_leaves_session = refl

agent_task_workflow_completed_example :
    (sid : String) × ((agent_task_workflow good input).1.trace ≡ onto (script input sid) [])
    × IsGood good (agent_task_workflow good input).1.trace
agent_task_workflow_completed_example =
    agent_task_workflow_completed good input (outcome completed) completes refl

agent_task_workflow-Clean_example :
    Clean broken input 10 broken_result (agent_task_workflow broken input).1.trace
agent_task_workflow-Clean_example = agent_task_workflow-Clean broken input broken_result fails refl

agent_task_workflow_ordered_example :
    (sid : String) × (asked_for : List Request) × (left : List Request) × (extra : List Request)
    × (script input sid ≡ asked_for ++ left)
    × ((agent_task_workflow broken input).1.trace ≡ extra ++ onto asked_for [])
    × CleaningUp broken input 10 extra
agent_task_workflow_ordered_example = agent_task_workflow_ordered broken input
