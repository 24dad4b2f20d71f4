-- ===== src/Agent/Workflow.antt =====
-- `agentTaskWorkflow` of daemon/src/temporal/workflows.ts.
use repomap_core.Prelude.{
  ℕ, ◌-◌, String, true, false, not, ◌&&◌, Option, none, some, List, [], ◌∷◌, ◌==◌, or_else,
  if◌then◌else◌,
}
use repomap_core.Agent.{
  unknown, AgentTaskLeafStatus, ActiveLeafProgress, AgentResult, Phase, initializing, health_check,
  creating_session, sending_prompt, agent_working, budget_check, validating, Failure, message,
  cost_budget_exceeded, punch_card_failed, AgentTaskStatus, AgentTaskInput, AuditSummary, Status,
  AgentTaskResult, BudgetResult, Validation, Request, check_health, create_session, send_prompt,
  sleep_three_seconds, poll_until_done, check_cost_budget, validate_punch_card, run_session_audit,
  abort_session, Signal, abort, progress, Fault, Reply, value, fault, Env, World,
}

abbrev pub leaf_of : ActiveLeafProgress → AgentTaskLeafStatus
leaf_of l = record {
  session_id = some l.session_id;
  label = some l.label;
  phase = l.phase;
  running_tools = l.running_tools;
  completed_tools = l.completed_tools;
  last_tool_name = l.last_tool_name;
  done = l.done;
  is_thinking = l.is_thinking;
}

-- `applyAgentResult`, and the handler of the progress signal
unfoldable pub apply_agent_result : AgentTaskStatus → AgentResult → AgentTaskStatus
apply_agent_result s r = record s {
  total_parts = r.total_parts;
  tool_calls = r.tool_calls;
  child_count = r.child_count;
  total_cost = r.total_cost;
  tokens_input = r.tokens_input;
  tokens_output = r.tokens_output;
  idle_confirmations = r.idle_confirmations;
  required_idle_confirmations = r.required_idle_confirmations;
  last_progress_at = some r.last_progress_at;
  leaf = leaf_of r.active_leaf;
}

abbrev pub initial_status : AgentTaskStatus
initial_status = record {
  phase = initializing;
  session_id = none;
  tool_calls = 0;
  total_parts = 0;
  child_count = 0;
  total_cost = 0;
  tokens_input = 0;
  tokens_output = 0;
  idle_confirmations = 0;
  required_idle_confirmations = 6;
  last_progress_at = none;
  leaf = record {
    session_id = none;
    label = none;
    phase = unknown;
    running_tools = 0;
    completed_tools = 0;
    last_tool_name = none;
    done = false;
    is_thinking = false;
  };
  error = none;
}

abbrev pub deliver : Signal → World → World
deliver abort w = record w { abort_asked = true }
deliver (progress p) w = record w { state = apply_agent_result w.state p }

abbrev pub deliver_all : List Signal → World → World
deliver_all [] w = w
deliver_all (s ∷ signals) w = deliver_all signals (deliver s w)

-- how an asynchronous function ends
pub data Run (A : Type 0) : Type 0 where
  returns : A → Run A
  throws : Fault → Run A

abbrev pub M : Type 0 → Type 0
M A = World → Run A × World

-- `await`, and what follows it; a fault is thrown
abbrev pub and_then : {A B : Type 0} → Reply A → (A → M B) → M B
and_then (value a) f w = f a w
and_then (fault e) f w = (throws e, w)

abbrev pub asked : Env → Request → World → World
asked env request w =
    deliver_all (env.signals (request ∷ w.trace)) (record w { trace = request ∷ w.trace })

unfoldable pub await : {A B : Type 0} → Env → Request → (List Request → Reply A) → (A → M B) → M B
await env request reply f w = and_then (reply (request ∷ w.trace)) f (asked env request w)

abbrev pub update : {B : Type 0} → (AgentTaskStatus → AgentTaskStatus) → M B → M B
update f m w = m (record w { state = f w.state })

abbrev pub in_phase : {B : Type 0} → Phase → M B → M B
in_phase p m = update (λ s. record s { phase = p }) m

-- `a || b || 0`, where a number is false if it is 0
abbrev pub or_zero : ℕ → Option ℕ → ℕ
or_zero n none = n
or_zero n (some k) = if n == 0 then k else n

abbrev pub cost_of : Option AgentResult → Option ℕ
cost_of none = none
cost_of (some r) = some r.total_cost

abbrev pub input_of : Option AgentResult → Option ℕ
input_of none = none
input_of (some r) = some r.tokens_input

abbrev pub output_of : Option AgentResult → Option ℕ
output_of none = none
output_of (some r) = some r.tokens_output

-- an elapsed time is a natural number
unfoldable pub make_result :
    Env → ℕ → Status → Option AgentResult → Option AuditSummary → M AgentTaskResult
make_result env start_time status agent_result audit w = (
  returns (record {
    status = status;
    session_id = w.state.session_id;
    total_parts = w.state.total_parts;
    tool_calls = w.state.tool_calls;
    duration_ms = env.now w.trace - start_time;
    total_cost = or_zero w.state.total_cost (cost_of agent_result);
    tokens_input = or_zero w.state.tokens_input (input_of agent_result);
    tokens_output = or_zero w.state.tokens_output (output_of agent_result);
    error = w.state.error;
    audit = audit;
  }),
  w,
)

module _ (env : Env) (input : AgentTaskInput) (start : ℕ) where
  -- `if (aborted) return makeResult("aborted", ...)`
  abbrev pub unless_aborted : M AgentTaskResult → M AgentTaskResult
  unless_aborted m w =
      if w.abort_asked then make_result env start Status.aborted none none w else m w

  abbrev pub finish : Option AgentResult → Option AuditSummary → M AgentTaskResult
  finish result audit =
      in_phase Phase.completed (make_result env start Status.completed result audit)

  -- step 8
  unfoldable pub audit_step : String → AgentResult → M AgentTaskResult
  audit_step session_id result =
      if not input.has_dolt_config
      then finish (some result) none
      else if input.disable_audit
      then finish (some result) none
      else await env (run_session_audit session_id) env.audit
          λ summary. finish (some result) (some summary)

  abbrev pub on_validation : String → AgentResult → Validation → M AgentTaskResult
  on_validation session_id result v =
      if v.is_fail
      then (update
          (λ s. record s {
            phase = Phase.validation_failed;
            error = some (punch_card_failed v.missing v.violations);
          })
          (make_result env start Status.validation_failed (some result) none))
      else audit_step session_id result

  abbrev pub validate_card : String → AgentResult → Option String → M AgentTaskResult
  validate_card session_id result none = audit_step session_id result
  validate_card session_id result (some card_id) = in_phase validating (
      await env (validate_punch_card (or_else input.punch_card_task_id session_id) card_id)
        env.validation (on_validation session_id result))

  -- step 7
  unfoldable pub validation_step : String → AgentResult → M AgentTaskResult
  validation_step session_id result =
      if input.has_dolt_config
      then validate_card session_id result input.card_id
      else audit_step session_id result

  abbrev pub budget_reason : Option String → Failure
  budget_reason none = cost_budget_exceeded
  budget_reason (some text) = message text

  abbrev pub on_budget : String → AgentResult → BudgetResult → M AgentTaskResult
  on_budget session_id result b =
      if b.is_breach
      then (update
          (λ s. record s {
            phase = Phase.budget_exceeded;
            total_cost = b.session_cost;
            error = some (budget_reason b.intervention_reason);
          })
          (make_result env start Status.budget_exceeded none none))
      else validation_step session_id result

  -- step 6
  unfoldable pub budget_step : String → AgentResult → M AgentTaskResult
  budget_step session_id result =
      if input.has_dolt_config && not input.disable_cost_budget
      then (in_phase budget_check
          (await env (check_cost_budget session_id) env.budget (on_budget session_id result)))
      else validation_step session_id result

  abbrev pub poll_request : String → Request
  poll_request session_id =
      poll_until_done session_id (or_else input.poll_interval_ms 10000)
        (or_else input.timeout_ms 7200000)

  abbrev pub on_polled : String → AgentResult → M AgentTaskResult
  on_polled session_id result =
      update (λ s. apply_agent_result s result) (budget_step session_id result)

  -- step 5
  abbrev pub poll_agent : String → M AgentTaskResult
  poll_agent session_id =
      in_phase agent_working (await env (poll_request session_id) env.polled (on_polled session_id))

  -- from step 4 on
  unfoldable pub poll_step : String → M AgentTaskResult
  poll_step session_id = await env sleep_three_seconds env.done (λ slept. poll_agent session_id)

  abbrev pub send : String → M AgentTaskResult
  send session_id = in_phase sending_prompt (
      await env (send_prompt session_id input.prompt input.agent) env.done
        λ sent. unless_aborted (poll_step session_id))

  -- from step 3 on
  unfoldable pub prompt_step : String → M AgentTaskResult
  prompt_step session_id =
      update (λ s. record s { session_id = some session_id }) (unless_aborted (send session_id))

  abbrev pub create_step : M AgentTaskResult
  create_step =
      in_phase creating_session (await env (create_session input.title) env.session prompt_step)

  -- the body of the `try`
  unfoldable pub agent_steps : M AgentTaskResult
  agent_steps =
      in_phase health_check
        (await env check_health env.done (λ healthy. unless_aborted create_step))

  abbrev pub give_up : Fault → M AgentTaskResult
  give_up e =
      update (λ s. record s { phase = Phase.failed; error = some (message e.text) })
        (make_result env start Status.failed none none)

  -- the `catch`, by the session of the state
  unfoldable pub recover : Fault → Option String → M AgentTaskResult
  recover e none = give_up e
  recover e (some session_id) = await env (abort_session session_id) env.done λ done.
      if e.is_cancellation
      then in_phase Phase.aborted (make_result env start Status.aborted none none)
      else give_up e

  abbrev pub caught : Run AgentTaskResult → M AgentTaskResult
  caught (returns r) w = (returns r, w)
  caught (throws e) w = recover e w.state.session_id w

abbrev pub initial_world : World
initial_world = record { state = initial_status; abort_asked = false; trace = [] }

unfoldable pub agent_task_workflow : Env → AgentTaskInput → Run AgentTaskResult × World
agent_task_workflow env input =
    let start = env.now [] in
    let out = agent_steps env input start initial_world in caught env input start out.0 out.1
