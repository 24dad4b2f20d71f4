-- ===== src/Foreman/Workflow/Totals.antt =====
-- The counters of the loop of daemon/src/temporal/foreman.workflows.ts over whole runs.
use repomap_core.Foreman.Workflow.Whole.{foreman_workflow-keeps}
use repomap_core.Prelude.{[], ℕ, arith, List, [], ◌∷◌, refl}
use repomap_core.Foreman.Types.{ForemanInput, BeadCandidate, DispatchResult, DispatchOutcome}
use repomap_core.Foreman.State.{ForemanState, initialize_state, increment_iteration_counters}
use repomap_core.Foreman.Workflow.{Request, Env, M, ◌>>=◌, pure, assign, world, perform, Reply}
use repomap_core.Foreman.Workflow.Phases.{
  handle_dispatch_outcome, run_child, dispatch_candidate_phase,
}
use repomap_core.Foreman.Workflow.Loop.{hand_over, foreman_workflow, start_world}
use repomap_core.Foreman.Workflow.Keeps.{
  Keeps, Keeps-sequence, Keeps-bind, Keeps-pure, Keeps-world, Keeps-answer, Anything,
}
use repomap_core.Foreman.Workflow.Counts.{
  SameTotals, IsCounted, StaysCounted, Dispatches, Settles, dispatch-settle, weaken-dispatch,
  counted_rules, handle_result-Settles, all_same,
}

module _ (env : Env) where
  handle_dispatch_outcome-counted :
      (config : ForemanInput) (c : BeadCandidate) (r : DispatchResult) (o : DispatchOutcome)
      (at : ℕ)
      → Keeps StaysCounted (handle_dispatch_outcome env config c r o at)
  unfolding handle_dispatch_outcome assign
  handle_dispatch_outcome-counted config c r o at =
      Keeps-sequence Dispatches Settles StaysCounted dispatch-settle weaken-dispatch _ _
        (record { at = λ w. (refl, refl, refl, refl) })
        (λ _. handle_result-Settles env config c.bead_id r o at)

  counted_bind {ℓ ι} :
      {A : Type ℓ} {B : Type ι} (m : M A) (f : A → M B)
      → Keeps StaysCounted m
      → ((a : A) → Keeps StaysCounted (f a))
      → Keeps StaysCounted (m >>= f)
  counted_bind = Keeps-bind env Anything StaysCounted (counted_rules env)

  counted_assign :
      (f : ForemanState → ForemanState)
      → ((s : ForemanState) → SameTotals s (f s))
      → Keeps StaysCounted (assign f)
  unfolding assign
  counted_assign f h = record { at = λ w i. let e = h w.state in (omega arith, omega arith) }

  counted_perform {ℓ} :
      {A : Type ℓ} (r : Request) (reply : List Request → Reply A)
      → Keeps StaysCounted (perform env r reply)
  unfolding perform
  counted_perform r reply = record {
    at = λ w i.
        Keeps-answer env Anything StaysCounted (counted_rules env) (r ∷ w.trace)
          (record w { trace = r ∷ w.trace }) i;
  }

  counted_tick : Keeps StaysCounted (assign increment_iteration_counters)
  unfolding assign increment_iteration_counters
  counted_tick = record { at = λ w h. h }

  counted_world : Keeps StaysCounted world
  counted_world = Keeps-world env Anything StaysCounted (counted_rules env)

  counted_pure {ℓ} : {A : Type ℓ} (a : A) → Keeps StaysCounted (pure a)
  counted_pure = Keeps-pure env Anything StaysCounted (counted_rules env)

  run_child-counted :
      (config : ForemanInput) (c : BeadCandidate) → Keeps StaysCounted (run_child env config c)
  unfolding run_child
  run_child-counted config c = counted_bind _ _ counted_world λ w.
      counted_bind _ _
        (counted_bind _ _ (counted_assign _ (all_same env)) (λ _. counted_perform _ _))
        λ _.
          counted_bind _ _ (counted_perform _ _)
            λ r. counted_bind _ _ counted_world λ w. handle_dispatch_outcome-counted config c _ _ _

  dispatch_candidate_phase-counted :
      (config : ForemanInput) (c : BeadCandidate)
      → Keeps StaysCounted (dispatch_candidate_phase env config c)
  unfolding dispatch_candidate_phase
  dispatch_candidate_phase-counted config c =
      counted_bind _ _
        (counted_bind _ _ (counted_assign _ (all_same env)) (λ _. counted_perform _ _))
        λ _. run_child-counted config c

  hand_over-counted : Keeps StaysCounted (hand_over env)
  unfolding hand_over
  hand_over-counted = counted_bind _ _ counted_world λ w. counted_perform _ _

-- Whatever the environment answers, and however far the run goes: where the counters that the run
-- starts with are in order, at its end the completions and failures together are at most the
-- dispatches, and the escalations are as many as the failures.
pub foreman_workflow-IsCounted :
    (env : Env) (input : ForemanInput) (fuel : ℕ)
    → IsCounted (initialize_state input (env.now []))
    → IsCounted (foreman_workflow env input fuel).1.state
unfolding start_world
foreman_workflow-IsCounted env input fuel h =
    foreman_workflow-keeps env Anything StaysCounted (counted_rules env) (counted_tick env)
      (dispatch_candidate_phase-counted env) (hand_over-counted env) input fuel
      (Keeps-answer env Anything StaysCounted (counted_rules env) [] _ h)
