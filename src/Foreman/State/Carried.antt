-- ===== src/Foreman/State/Carried.antt =====
-- The state that daemon/src/temporal/foreman.workflows.ts carries across continue-as-new.
use repomap_core.Prelude.{ℕ, ◌≡◌, refl, none, some, []}
use repomap_core.Foreman.Types.{ForemanInput, polling}
use repomap_core.Foreman.State.{ForemanState, initialize_state, serialize_state}

-- A state that is carried over at the time `now` and initialized at the time `start` is the state from
-- before but for these fields: it is in the phase polling with no iterations of its own, the time of
-- the hand-over and of the start are the new ones, and the current bead and workflow, the reason of a
-- shutdown, the skip list and the queue of forced dispatches are gone. Every total, the outcomes, the
-- retry ledger, the last health check and the two requests of the operator are kept, and the state can
-- be carried over again with the same result.
pub initialize_state-serialize_state :
    (s : ForemanState) (input : ForemanInput) (now start : ℕ)
    → (initialize_state (record input { carried_state = some (serialize_state s now) }) start
        ≡ record s {
          phase = polling;
          iteration_count = 0;
          shutdown_reason = none;
          current_bead_id = none;
          current_workflow_id = none;
          skip_list = [];
          force_dispatch_queue = [];
          last_continue_as_new_at = some now;
          start_timestamp = start;
        })
      × (serialize_state
            (initialize_state (record input { carried_state = some (serialize_state s now) }) start)
            now
          ≡ serialize_state s now)
unfolding initialize_state serialize_state
initialize_state-serialize_state s input now start = (refl, refl)
