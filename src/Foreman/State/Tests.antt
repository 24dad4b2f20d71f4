-- ===== src/Foreman/State/Tests.antt =====
-- A state of daemon/src/temporal/foreman.workflows.ts that is carried across continue-as-new.
use repomap_core.Prelude.{◌≡◌, true, none, some, [], ◌∷◌}
use repomap_core.Foreman.Types.{ForemanInput, polling, dispatching}
use repomap_core.Foreman.State.{ForemanState, initialize_state, serialize_state}
use repomap_core.Foreman.State.Carried.{initialize_state-serialize_state}

abbrev input : ForemanInput
input = record {
  workflow_id = "foreman";
  repo_path = "/repo";
  task_queue = "agent";
  kilo_host = "localhost";
  kilo_port = 4096;
  dolt_host = "localhost";
  dolt_port = 3307;
  dolt_database = "punches";
  poll_interval_ms = 1000;
  health_check_interval_ms = 1000;
  max_iterations = 1;
  max_wall_clock_ms = 100000;
  max_concurrent_dispatches = 1;
  default_timeout_ms = 5000;
  default_cost_budget_usd = 1000000;
  max_retries_per_bead = 2;
  retry_backoff_ms = 1000;
  health_failure_threshold = none;
  carried_state = none;
}

abbrev busy : ForemanState
busy = record (initialize_state input 5) {
  phase = dispatching;
  iteration_count = 9;
  pause_requested = true;
  skip_list = "b-1" ∷ [];
  total_dispatches = 4;
}

initialize_state-serialize_state_example :
    (initialize_state (record input { carried_state = some (serialize_state busy 70) }) 80
      ≡ record busy {
        phase = polling;
        iteration_count = 0;
        shutdown_reason = none;
        current_bead_id = none;
        current_workflow_id = none;
        skip_list = [];
        force_dispatch_queue = [];
        last_continue_as_new_at = some 70;
        start_timestamp = 80;
      })
    × (serialize_state
          (initialize_state (record input { carried_state = some (serialize_state busy 70) }) 80)
          70
        ≡ serialize_state busy 70)
initialize_state-serialize_state_example = initialize_state-serialize_state busy input 70 80
