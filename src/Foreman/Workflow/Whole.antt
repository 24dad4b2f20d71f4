-- ===== src/Foreman/Workflow/Whole.antt =====
-- What whole runs of `foremanWorkflow` of daemon/src/temporal/foreman.workflows.ts keep, from what
-- the dispatch of a bead and the handing over to a new run keep.
use repomap_core.Prelude.{ℕ, zero, suc, none, some, if-either, ◌≡◌, refl, sym, subst}
use repomap_core.Foreman.Types.{ForemanInput, BeadCandidate, ForemanResult}
use repomap_core.Foreman.State.{increment_iteration_counters}
use repomap_core.Foreman.State.Signals.{Signal}
use repomap_core.Foreman.Workflow.{
  Run, returns, throws, blocked, out_of_fuel, Env, World, M, ◌>>=◌, pure, assign, world,
}
use repomap_core.Foreman.Workflow.Phases.{dispatch_candidate_phase}
use repomap_core.Foreman.Workflow.Loop.{
  hand_over, hand_over_if_due, work, iteration, loop, recover, foreman_workflow, start_world,
}
use repomap_core.Foreman.Workflow.Keeps.{
  Keeps, Keeps-bind, Keeps-pure, Keeps-world, Keeps-if, Keeps-if_some, Keeps-handle_pause_phase,
  Keeps-run_health_check_phase, Keeps-select_candidate_phase, Rules,
}

recover-world : (r : Run ForemanResult × World) → (recover r).1 ≡ r.1
unfolding recover
recover-world (returns a, w) = refl
recover-world (throws e, w) = refl
recover-world (blocked, w) = refl
recover-world (out_of_fuel, w) = refl

module _ {κ} (env : Env) (P : Signal → Type 0) (R : World → World → Type κ) (rules : Rules env P R)
    (tick : Keeps R (assign increment_iteration_counters))
    (dispatch : (config : ForemanInput) (c : BeadCandidate)
      → Keeps R (dispatch_candidate_phase env config c))
    (over : Keeps R (hand_over env)) where
  bind {ℓ ι} :
      {A : Type ℓ} {B : Type ι} (m : M A) (f : A → M B)
      → Keeps R m
      → ((a : A) → Keeps R (f a))
      → Keeps R (m >>= f)
  bind = Keeps-bind env P R rules

  read : Keeps R world
  read = Keeps-world env P R rules

  done {ℓ} : {A : Type ℓ} (a : A) → Keeps R (pure a)
  done = Keeps-pure env P R rules

  work-keeps : Keeps R (work env)
  unfolding work
  work-keeps = bind _ _ read λ w.
      bind _ _ (Keeps-run_health_check_phase env P R rules tick w.config) λ b.
        Keeps-if b _ _ (done tt) (
          bind _ _ read λ w.
            bind _ _ (Keeps-select_candidate_phase env P R rules tick w.config) λ o.
              Keeps-if_some o _ _ (λ c. bind _ _ read λ w. bind _ _ (dispatch w.config c) λ _. tick)
                (done tt))

  iteration-keeps : Keeps R (iteration env)
  unfolding iteration hand_over_if_due
  iteration-keeps = bind _ _ (bind _ _ read λ w. Keeps-if _ _ _ over (done tt)) λ _.
      bind _ _ read λ w.
        Keeps-if_some _ _ _ (λ r. done (some r))
          (bind _ _ (Keeps-handle_pause_phase env P R rules)
            λ o. Keeps-if_some o _ _ (λ r. done (some r)) (bind _ _ work-keeps λ _. done none))

  pub loop-keeps : (fuel : ℕ) → Keeps R (loop env fuel)
  unfolding loop
  loop-keeps zero = record { at = rules.stay }
  loop-keeps (suc fuel) = record {
    at =
        (bind (iteration env) _ iteration-keeps
          λ o. Keeps-if_some o pure (loop env fuel) done (loop-keeps fuel)).at;
  }

  pub foreman_workflow-keeps :
      (input : ForemanInput) (fuel : ℕ)
      → R (start_world env input) (foreman_workflow env input fuel).1
  unfolding foreman_workflow
  foreman_workflow-keeps input fuel =
      let start = start_world env input in
      if-either (λ (r : Run ForemanResult × World). R start r.1) start.state.shutdown_requested _ _
        (rules.stay start)
        (subst (R start) (sym (recover-world (loop env fuel start))) ((loop-keeps fuel).at start))
