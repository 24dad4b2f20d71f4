-- ===== src/Foreman/Workflow/Ends.antt =====
-- How `foremanWorkflow` of daemon/src/temporal/foreman.workflows.ts ends.
use repomap_core.Prelude.{ℕ, suc, true, false, none, some, List, ◌∷◌, ◌≡◌, refl}
use repomap_core.Foreman.Types.{crashed}
use repomap_core.Foreman.State.{should_continue_as_new, make_result, serialize_state}
use repomap_core.Foreman.Workflow.{
  Request, returns, Env, World, ◌>>=◌, perform, continue_as_new, world,
}
use repomap_core.Foreman.Workflow.Loop.{hand_over, hand_over_if_due, iteration, loop, recover}

-- Where an iteration starts at the limit of iterations or of time, whatever has been done before,
-- the workflow does not go on in a new run but returns "failed", with the message of what
-- `continueAsNew` throws, where that is no cancellation.
pub loop-crashes_at_limit :
    (env : Env) (fuel : ℕ) (w : World)
    → should_continue_as_new w.state w.config (env.now w.trace) ≡ true
    → ((t : List Request) → (env.end_of_run t).is_cancellation ≡ false)
    → (recover (loop env (suc fuel) w)).0
      ≡ returns (
          make_result crashed (hand_over env w).1.state none (
            some
              (env.end_of_run (
                continue_as_new (record w.config {
                  carried_state = some (serialize_state w.state (env.now w.trace));
                })
                ∷ w.trace)).message))
unfolding loop iteration hand_over_if_due hand_over world perform ◌>>=◌ recover
loop-crashes_at_limit env fuel w due plain_end = rw (due, plain_end _) refl
