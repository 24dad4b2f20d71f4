-- ===== src/Foreman/Workflow/Phases.antt =====
-- The phases of the loop of daemon/src/temporal/foreman.workflows.ts: pause, health check, selection
-- and dispatch. A function that takes `config` keeps the one it was called with.
use Prim.Native.String
use repomap_core.Prelude.{
  ℕ, ◌+◌, ◌-◌, String, Bool, true, false, not, ◌&&◌, Option, none, some, List, [], ◌∷◌, str_eq,
  if◌then◌else◌,
}
use repomap_core.Foreman.Types.{
  selecting, dispatching, monitoring, completing, failing, retrying, escalating, idle, paused, fail,
  HealthCheckResult, BeadCandidate, DispatchResult, completed, failed, validation_failed,
  budget_exceeded, timeout, aborted, AgentTaskResult, DispatchOutcome, RetryLedgerEntry,
  ForemanInput, shut_down, ForemanResult,
}
use repomap_core.Foreman.Types.{health_check as health_check_phase}
use repomap_core.Foreman.Ledger.{
  push_outcome, is_retryable, to_dispatch_result, find_entry, attempts_of, update_retry_ledger,
  remove_from_retry_ledger,
}
use repomap_core.Foreman.State.{
  ForemanState, should_run_health_check, make_result, build_dispatch_plan, build_child_input,
  increment_iteration_counters,
}
use repomap_core.Foreman.Workflow.{
  check_stack_health, select_next_bead, get_bead_detail, update_bead_status, close_bead,
  start_child, child_result, sleep, in_progress, ready, Env, M, ◌>>=◌, ◌>>◌, pure, assign, if_some,
  world, perform, wait_for_resume,
}

unfoldable pub get_shutdown_result : ForemanState → Option ForemanResult
get_shutdown_result s =
    if s.shutdown_requested then some (make_result shut_down s s.shutdown_reason none) else none

unfoldable pub handle_pause_phase : Env → M (Option ForemanResult)
handle_pause_phase env = world >>= λ w.
    if w.state.pause_requested
    then assign (λ s. record s { phase = paused })
      >> wait_for_resume env
      >> (world >>= λ w. pure (get_shutdown_result w.state))
    else pure none

abbrev pub is_fail : Option HealthCheckResult → Bool
is_fail none = false
is_fail (some h) = elim h.overall [ fail ↦ true | _ ↦ false ]

-- the `if` that refreshes the health
unfoldable pub refresh_health : Env → ForemanInput → M (Unit {0})
refresh_health env config = world >>= λ w.
    if should_run_health_check w.state config (env.now w.trace)
    then assign (λ s. record s { phase = health_check_phase })
      >> (perform env check_stack_health env.health >>= λ h.
          assign (λ s. record s {
            last_health_check = some h;
            last_health_check_at = some h.checked_at;
          }))
    else pure tt

-- what an iteration does that dispatches nothing
unfoldable pub idle_iteration : Env → ForemanInput → M (Unit {0})
idle_iteration env config =
    assign (λ s. record s { phase = idle })
    >> (perform env (sleep config.poll_interval_ms) env.done >> assign increment_iteration_counters)

unfoldable pub run_health_check_phase : Env → ForemanInput → M Bool
run_health_check_phase env config =
    refresh_health env config
    >> (world >>= λ w.
        if is_fail w.state.last_health_check
        then idle_iteration env config >> pure true
        else pure false)

unfoldable pub select_forced : Env → String → M (Option BeadCandidate)
select_forced env bead_id =
    perform env (get_bead_detail bead_id) env.detail >>= λ detail. pure (some detail)

unfoldable pub select_polled : Env → M (Option BeadCandidate)
select_polled env = world >>= λ w.
    perform env (select_next_bead w.state.retry_ledger w.state.skip_list) env.selected >>= λ found.
    if_some found
      (λ candidate. perform env (get_bead_detail candidate.bead_id) env.detail >>= λ detail.
        pure (some (record candidate { description = detail.description })))
      (pure none)

-- An empty id in the queue counts as none.
unfoldable pub select_candidate : Env → Option String → M (Option BeadCandidate)
select_candidate env forced_bead_id =
    assign (λ s. record s { phase = selecting })
    >> if_some forced_bead_id
        (λ bead_id. if str_eq bead_id "" then select_polled env else select_forced env bead_id)
        (select_polled env)

abbrev pub first : List String → Option String
first [] = none
first (x ∷ xs) = some x

abbrev pub others : List String → List String
others [] = []
others (x ∷ xs) = xs

unfoldable pub select_candidate_phase : Env → ForemanInput → M (Option BeadCandidate)
select_candidate_phase env config = world >>= λ w.
    assign (λ s. record s { force_dispatch_queue = others s.force_dispatch_queue })
    >> (select_candidate env (first w.state.force_dispatch_queue) >>= λ candidate.
        if_some candidate (λ c. pure (some c)) (idle_iteration env config >> pure none))

-- the bead is set to ready again and counted as a failure and an escalation
unfoldable pub escalate : Env → String → M (Unit {0})
escalate env bead_id =
    assign (λ s. record s { phase = escalating })
    >> perform env (update_bead_status bead_id ready) env.done
    >> assign (λ s. record s {
      total_failures = s.total_failures + 1;
      total_escalations = s.total_escalations + 1;
    })

-- the cases "failed", "timeout" and "validation_failed"
unfoldable pub handle_failure : Env → ForemanInput → String → DispatchResult → ℕ → M (Unit {0})
handle_failure env config bead_id result completed_at =
    assign (λ s. record s { phase = failing })
    >> (world >>= λ w.
        let updated =
          update_retry_ledger w.state.retry_ledger bead_id result config.max_retries_per_bead
            config.retry_backoff_ms completed_at in
        assign (λ s. record s { retry_ledger = updated.1 })
        >> (if not updated.0.exhausted && is_retryable result
            then assign (λ s. record s { phase = retrying })
              >> perform env (update_bead_status bead_id ready) env.done
            else escalate env bead_id))

unfoldable pub handle_success : Env → String → DispatchOutcome → M (Unit {0})
handle_success env bead_id outcome =
    assign (λ s. record s { phase = completing })
    >> perform env (close_bead bead_id outcome) env.done
    >> assign (λ s. record s {
      total_completions = s.total_completions + 1;
      retry_ledger = remove_from_retry_ledger s.retry_ledger bead_id;
    })

-- the `switch` on the kind of the result
unfoldable pub handle_result :
    Env → ForemanInput → String → DispatchResult → DispatchOutcome → ℕ → M (Unit {0})
handle_result env config bead_id completed outcome at = handle_success env bead_id outcome
handle_result env config bead_id (failed e r) outcome at =
    handle_failure env config bead_id (failed e r) at
handle_result env config bead_id (timeout e t) outcome at =
    handle_failure env config bead_id (timeout e t) at
handle_result env config bead_id (validation_failed m v) outcome at =
    handle_failure env config bead_id (validation_failed m v) at
handle_result env config bead_id (budget_exceeded c b) outcome at = escalate env bead_id
handle_result env config bead_id (aborted r) outcome at =
    perform env (update_bead_status bead_id ready) env.done

unfoldable pub handle_dispatch_outcome :
    Env → ForemanInput → BeadCandidate → DispatchResult → DispatchOutcome → ℕ → M (Unit {0})
handle_dispatch_outcome env config candidate result outcome at =
    assign (λ s. record s {
      recent_outcomes = push_outcome s.recent_outcomes outcome;
      current_bead_id = none;
      current_workflow_id = none;
      total_dispatches = s.total_dispatches + 1;
    })
    >> handle_result env config candidate.bead_id result outcome at

abbrev child_id : Env → String → ℕ → String
child_id env bead_id now =
    String.◌++◌ (String.◌++◌ "foreman-dispatch-" bead_id) (String.◌++◌ "-" (env.shown now))

-- the record of a dispatch; the workflow's clock does not go back
unfoldable pub make_outcome :
    String → String → AgentTaskResult → ℕ → ℕ → List RetryLedgerEntry → DispatchOutcome
make_outcome bead_id workflow_id r started_at completed_at ledger = record {
  bead_id = bead_id;
  workflow_id = workflow_id;
  session_id = r.session_id;
  started_at = started_at;
  completed_at = completed_at;
  duration_ms = completed_at - started_at;
  total_cost = r.total_cost;
  tokens_input = r.tokens_input;
  tokens_output = r.tokens_output;
  result = to_dispatch_result r;
  audit = r.audit;
  attempt = attempts_of (find_entry ledger bead_id) + 1;
}

-- from the start of the child workflow on
unfoldable pub run_child : Env → ForemanInput → BeadCandidate → M (Unit {0})
run_child env config candidate = world >>= λ w.
    let started_at = env.now w.trace in
    let workflow_id = child_id env candidate.bead_id started_at in
    assign (λ s. record s { current_workflow_id = some workflow_id; phase = monitoring })
    >> perform env
        (start_child (build_dispatch_plan candidate config)
          (build_child_input (build_dispatch_plan candidate config) config) workflow_id
          config.task_queue)
        env.done
    >> (perform env child_result env.agent >>= λ r. world >>= λ w.
        let completed_at = env.now w.trace in
        handle_dispatch_outcome env config candidate (to_dispatch_result r)
          (make_outcome candidate.bead_id workflow_id r started_at completed_at
            w.state.retry_ledger)
          completed_at)

unfoldable pub dispatch_candidate_phase : Env → ForemanInput → BeadCandidate → M (Unit {0})
dispatch_candidate_phase env config candidate =
    assign (λ s. record s { phase = dispatching; current_bead_id = some candidate.bead_id })
    >> perform env (update_bead_status candidate.bead_id in_progress) env.done
    >> run_child env config candidate
