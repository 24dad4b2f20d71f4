-- ===== src/Foreman/Workflow/Halts.antt =====
-- That `foremanWorkflow` of daemon/src/temporal/foreman.workflows.ts comes to an end at its limit of
-- iterations.
use repomap_core.Prelude.{
  ℕ, zero, suc, ◌+◌, ◌≤◌, ◌<◌, ◌≡◌, ◌⊎◌, arith, true, Option, none, some, List, [], All, inl, inr,
  if-either,
}
use repomap_core.Foreman.Types.{ForemanInput, ForemanResult}
use repomap_core.Foreman.State.{ForemanState, initialize_state, should_continue_as_new}
use repomap_core.Foreman.Workflow.{
  and_then, Request, Run, returns, throws, blocked, out_of_fuel, Env, World, ◌>>=◌, pure, if_some,
  world, perform,
}
use repomap_core.Foreman.Workflow.Loop.{
  hand_over, hand_over_if_due, iteration, loop, recover, foreman_workflow, start_world,
}
use repomap_core.Foreman.Workflow.Ticks.{Within, IsWithin, Ticks, delivered}
use repomap_core.Foreman.Workflow.Turns.{if_none, iteration-Counts}

-- it does not run out of fuel
abbrev Stops : Run ForemanResult → Type 0
Stops out_of_fuel = ⊥
Stops _ = Unit

-- The run returns a result, or it waits, paused, for a signal that does not come.
abbrev pub Halts : Run ForemanResult → Type 0
Halts (returns r) = Unit
Halts (throws e) = ⊥
Halts blocked = Unit
Halts out_of_fuel = ⊥

recover-Halts : (r : Run ForemanResult × World) → Stops r.0 → Halts (recover r).0
unfolding recover
recover-Halts (returns a, w) h = tt
recover-Halts (throws e, w) h = tt
recover-Halts (blocked, w) h = tt
recover-Halts (out_of_fuel, w) h = h

le_or_lt : (m n : ℕ) → (m ≤ n) ⊎ (n < m)
le_or_lt m n = ground arith

module _ (limit : ℕ) where
  module _ (env : Env) (allowed : (t : List Request) → All (Within limit) (env.signals t)) where
    -- at the limit a turn hands over
    due-Stops :
        (fuel : ℕ) (w : World)
        → should_continue_as_new w.state w.config (env.now w.trace) ≡ true
        → Stops (loop env (suc fuel) w).0
    unfolding loop iteration hand_over_if_due hand_over world perform ◌>>=◌
    due-Stops fuel w due = rw due tt

    due_at_limit :
        (s : ForemanState) (c : ForemanInput) (now : ℕ)
        → c.max_iterations ≤ s.iteration_count
        → should_continue_as_new s c now ≡ true
    unfolding should_continue_as_new
    due_at_limit s c now h = ground arith

    turn :
        (fuel : ℕ) (w v : World) (r : Run (Option ForemanResult))
        → Ticks limit 0 if_none w r v
        → ((u : World)
            → u.state.iteration_count ≡ w.state.iteration_count + 1
            → IsWithin limit u
            → Stops (loop env fuel u).0)
        → Stops (and_then r (λ o. if_some o pure (loop env fuel)) v).0
    unfolding pure
    turn fuel w v (returns none) t h = h v (omega (arith, t.0)) t.1
    turn fuel w v (returns (some a)) t h = tt
    turn fuel w v (throws e) t h = tt
    turn fuel w v blocked t h = tt
    turn fuel w v out_of_fuel t h = t

    step-Stops :
        (fuel : ℕ) (w : World)
        → IsWithin limit w
        → ((u : World)
            → u.state.iteration_count ≡ w.state.iteration_count + 1
            → IsWithin limit u
            → Stops (loop env fuel u).0)
        → Stops (loop env (suc fuel) w).0
    unfolding loop ◌>>=◌
    step-Stops fuel w i h =
        turn fuel w (iteration env w).1 (iteration env w).0
          ((iteration-Counts limit env allowed).at w i) h

    loop-Stops :
        (fuel : ℕ) (w : World)
        → IsWithin limit w
        → 0 < fuel
        → limit < w.state.iteration_count + fuel
        → Stops (loop env fuel w).0
    loop-Stops zero w i some_fuel enough = absurd (omega arith)
    loop-Stops (suc fuel) w i some_fuel enough =
        elim (le_or_lt w.config.max_iterations w.state.iteration_count) [
          | inl over ↦ due-Stops fuel w (due_at_limit w.state w.config _ over)
          | inr below ↦
              step-Stops fuel w i (λ u e j. loop-Stops fuel u j (omega arith) (omega (arith, e)))
        ]

    -- Where neither the input nor a change of the configuration allows more iterations than `limit`, one unit
    -- of fuel more than that is enough for the workflow, whatever is answered: it returns a result and
    -- throws nothing, unless it stays paused with no signal to resume or shut it down.
    pub foreman_workflow-Halts :
        (input : ForemanInput) (fuel : ℕ)
        → input.max_iterations ≤ limit
        → limit < fuel
        → Halts (foreman_workflow env input fuel).0
    unfolding foreman_workflow start_world initialize_state
    foreman_workflow-Halts input fuel i enough =
        let (e, j) = delivered limit (env.signals []) _ (allowed []) i in
        if-either (λ (r : Run ForemanResult × World). Halts r.0)
          (start_world env input).state.shutdown_requested _ _ tt
          (recover-Halts (loop env fuel (start_world env input))
            (loop-Stops fuel (start_world env input) j (omega arith) (omega (arith, e))))
