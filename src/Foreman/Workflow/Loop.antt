-- ===== src/Foreman/Workflow/Loop.antt =====
-- `foremanWorkflow` of daemon/src/temporal/foreman.workflows.ts: an iteration of its `while (true)`,
-- the loop on fuel, and the `catch` around it.
use repomap_core.Prelude.{ℕ, zero, suc, Option, none, some, [], if◌then◌else◌}
use repomap_core.Foreman.Types.{ForemanInput, shut_down, crashed, ForemanResult}
use repomap_core.Foreman.State.{
  initialize_state, serialize_state, should_continue_as_new, make_result,
  increment_iteration_counters,
}
use repomap_core.Foreman.Workflow.{
  continue_as_new, Run, returns, throws, blocked, out_of_fuel, fault, Env, World, M, ◌>>=◌, ◌>>◌,
  pure, assign, if_some, world, perform, deliver_all,
}
use repomap_core.Foreman.Workflow.Phases.{
  get_shutdown_result, handle_pause_phase, run_health_check_phase, select_candidate_phase,
  dispatch_candidate_phase,
}

-- `continueAsNew` does not return: it throws what ends the run.
unfoldable pub hand_over : Env → M (Unit {0})
hand_over env = world >>= λ w.
    let carried = serialize_state w.state (env.now w.trace) in
    perform env (continue_as_new (record w.config { carried_state = some carried }))
      (λ t. fault (env.end_of_run t))

unfoldable pub hand_over_if_due : Env → M (Unit {0})
hand_over_if_due env = world >>= λ w.
    if should_continue_as_new w.state w.config (env.now w.trace) then hand_over env else pure tt

-- from the health check on; the config is read anew for each phase
unfoldable pub work : Env → M (Unit {0})
work env = world >>= λ w. run_health_check_phase env w.config >>= λ health_blocked.
    if health_blocked
    then pure tt
    else world >>= λ w. select_candidate_phase env w.config >>= λ candidate.
        if_some candidate
          (λ c. world >>= λ w.
            dispatch_candidate_phase env w.config c >> assign increment_iteration_counters)
          (pure tt)

-- one turn of the loop: the result that it returns, or none where it goes on
unfoldable pub iteration : Env → M (Option ForemanResult)
iteration env =
    hand_over_if_due env
    >> (world >>= λ w.
        if_some (get_shutdown_result w.state) (λ r. pure (some r))
          (handle_pause_phase env >>= λ paused.
            if_some paused (λ r. pure (some r)) (work env >> pure none)))

unfoldable pub loop : Env → ℕ → M ForemanResult
loop env zero w = (out_of_fuel, w)
loop env (suc fuel) w = (iteration env >>= λ r. if_some r pure (loop env fuel)) w

-- the `catch`
unfoldable pub recover : Run ForemanResult × World → Run ForemanResult × World
recover r = elim r.0 [
  | returns result ↦ (returns result, r.1)
  | throws e ↦ (
    returns (
        if e.is_cancellation
        then make_result shut_down r.1.state (some "workflow cancelled") none
        else make_result crashed r.1.state none (some e.message)),
    r.1,
  )
  | blocked ↦ (blocked, r.1)
  | out_of_fuel ↦ (out_of_fuel, r.1)
]

-- The start time is that of the empty trace, and so are the signals that came before the handlers
-- were registered.
unfoldable pub start_world : Env → ForemanInput → World
start_world env input =
    deliver_all (env.signals [])
      (record { state = initialize_state input (env.now []); config = input; trace = [] })

unfoldable pub foreman_workflow : Env → ForemanInput → ℕ → Run ForemanResult × World
foreman_workflow env input fuel =
    let w = start_world env input in
    if w.state.shutdown_requested
    then (returns (make_result shut_down w.state w.state.shutdown_reason none), w)
    else recover (loop env fuel w)
