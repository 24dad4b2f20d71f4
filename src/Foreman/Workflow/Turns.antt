-- ===== src/Foreman/Workflow/Turns.antt =====
-- Every turn of the loop of daemon/src/temporal/foreman.workflows.ts that goes on counts one iteration.
use repomap_core.Prelude.{
  ℕ, refl, String, Bool, true, false, Option, none, some, List, All, if◌then◌else◌,
}
use repomap_core.Foreman.Types.{
  ForemanInput, BeadCandidate, DispatchResult, completed, failed, timeout, validation_failed,
  budget_exceeded, aborted, DispatchOutcome,
}
use repomap_core.Foreman.State.{increment_iteration_counters}
use repomap_core.Foreman.Workflow.{Request, Env, M, ◌>>=◌, ◌>>◌, pure, assign, if_some, world}
use repomap_core.Foreman.Workflow.Phases.{
  handle_pause_phase, refresh_health, select_candidate, select_candidate_phase, idle_iteration,
  run_health_check_phase, select_forced, select_polled, escalate, handle_failure, handle_success,
  handle_result, handle_dispatch_outcome, run_child, dispatch_candidate_phase,
}
use repomap_core.Foreman.Workflow.Loop.{hand_over, hand_over_if_due, work, iteration}
use repomap_core.Foreman.Workflow.Ticks.{
  Within, Counts, Counts-bind, Counts-pure, Counts-world, Counts-if, Counts-if_some, Counts-set,
  Counts-tick, Counts-perform, Counts-wait,
}

-- an iteration is counted where the health check blocks the turn
abbrev pub if_blocked : Bool → ℕ
if_blocked true = 1
if_blocked false = 0

-- an iteration is counted where there is no candidate
abbrev pub if_none {ℓ} : {A : Type ℓ} → Option A → ℕ
if_none none = 1
if_none (some a) = 0

module _ (limit : ℕ) where
  bind {ℓ κ} :
      {A : Type ℓ} {B : Type κ} (k : ℕ) (P : A → ℕ) (R : B → ℕ) (m : M A) (f : A → M B)
      → Counts limit k P m
      → ((a : A) → Counts limit (P a) R (f a))
      → Counts limit k R (m >>= f)
  bind k P R m f = Counts-bind limit k P R m f

  module _ (env : Env) (allowed : (t : List Request) → All (Within limit) (env.signals t)) where
    escalate-Counts : (b : String) → Counts limit 0 (λ u. 0) (escalate env b)
    unfolding escalate
    escalate-Counts b =
        bind 0 (λ u. 0) _ _ _
          (bind 0 (λ u. 0) _ _ _ (Counts-set limit 0 _ (λ s. refl))
            (λ u. Counts-perform limit env allowed 0 _ _))
          (λ u. Counts-set limit 0 _ (λ s. refl))

    handle_failure-Counts :
        (c : ForemanInput) (b : String) (r : DispatchResult) (at : ℕ)
        → Counts limit 0 (λ u. 0) (handle_failure env c b r at)
    unfolding handle_failure
    handle_failure-Counts c b r at =
        bind 0 (λ u. 0) _ _ _ (Counts-set limit 0 _ (λ s. refl))
          (λ u.
            bind 0 (λ w. 0) _ _ _ (Counts-world limit 0)
              (λ w.
                bind 0 (λ u. 0) _ _ _ (Counts-set limit 0 _ (λ s. refl))
                  (λ u.
                    Counts-if limit 0 _ _ _ _
                      (bind 0 (λ u. 0) _ _ _ (Counts-set limit 0 _ (λ s. refl))
                        (λ u. Counts-perform limit env allowed 0 _ _))
                      (escalate-Counts b))))

    handle_result-Counts :
        (c : ForemanInput) (b : String) (r : DispatchResult) (o : DispatchOutcome) (at : ℕ)
        → Counts limit 0 (λ u. 0) (handle_result env c b r o at)
    unfolding handle_result handle_success
    handle_result-Counts c b completed o at =
        bind 0 (λ u. 0) _ _ _
          (bind 0 (λ u. 0) _ _ _ (Counts-set limit 0 _ (λ s. refl))
            (λ u. Counts-perform limit env allowed 0 _ _))
          (λ u. Counts-set limit 0 _ (λ s. refl))
    handle_result-Counts c b (failed e r) o at = handle_failure-Counts c b _ at
    handle_result-Counts c b (timeout e t) o at = handle_failure-Counts c b _ at
    handle_result-Counts c b (validation_failed m v) o at = handle_failure-Counts c b _ at
    handle_result-Counts c b (budget_exceeded s l) o at = escalate-Counts b
    handle_result-Counts c b (aborted r) o at = Counts-perform limit env allowed 0 _ _

    dispatch_candidate_phase-Counts :
        (c : ForemanInput) (d : BeadCandidate)
        → Counts limit 0 (λ u. 0) (dispatch_candidate_phase env c d)
    unfolding dispatch_candidate_phase run_child handle_dispatch_outcome
    dispatch_candidate_phase-Counts c d =
        bind 0 (λ u. 0) _ _ _
          (bind 0 (λ u. 0) _ _ _ (Counts-set limit 0 _ (λ s. refl))
            (λ u. Counts-perform limit env allowed 0 _ _))
          (λ u.
            bind 0 (λ w. 0) _ _ _ (Counts-world limit 0)
              (λ w.
                bind 0 (λ u. 0) _ _ _
                  (bind 0 (λ u. 0) _ _ _ (Counts-set limit 0 _ (λ s. refl))
                    (λ u. Counts-perform limit env allowed 0 _ _))
                  (λ u.
                    bind 0 (λ r. 0) _ _ _ (Counts-perform limit env allowed 0 _ _)
                      (λ r.
                        bind 0 (λ w. 0) _ _ _ (Counts-world limit 0)
                          (λ w.
                            bind 0 (λ u. 0) _ _ _ (Counts-set limit 0 _ (λ s. refl))
                              (λ u. handle_result-Counts c _ _ _ _))))))

    idle_iteration-Counts : (c : ForemanInput) → Counts limit 0 (λ u. 1) (idle_iteration env c)
    unfolding idle_iteration
    idle_iteration-Counts c =
        bind 0 (λ u. 0) _ _ _ (Counts-set limit 0 _ (λ s. refl))
          (λ u.
            bind 0 (λ u. 0) _ _ _ (Counts-perform limit env allowed 0 _ _)
              (λ u. Counts-tick limit 0))

    refresh_health-Counts : (c : ForemanInput) → Counts limit 0 (λ u. 0) (refresh_health env c)
    unfolding refresh_health
    refresh_health-Counts c =
        bind 0 (λ w. 0) _ _ _ (Counts-world limit 0)
          (λ w.
            Counts-if limit 0 _ _ _ _
              (bind 0 (λ u. 0) _ _ _ (Counts-set limit 0 _ (λ s. refl))
                (λ u.
                  bind 0 (λ h. 0) _ _ _ (Counts-perform limit env allowed 0 _ _)
                    (λ h. Counts-set limit 0 _ (λ s. refl))))
              (Counts-pure limit (λ u. 0) tt))

    run_health_check_phase-Counts :
        (c : ForemanInput) → Counts limit 0 if_blocked (run_health_check_phase env c)
    unfolding run_health_check_phase
    run_health_check_phase-Counts c =
        bind 0 (λ u. 0) _ _ _ (refresh_health-Counts c)
          (λ u.
            bind 0 (λ w. 0) _ _ _ (Counts-world limit 0)
              (λ w.
                Counts-if limit 0 _ _ _ _
                  (bind 0 (λ u. 1) _ _ _ (idle_iteration-Counts c)
                    (λ u. Counts-pure limit if_blocked true))
                  (Counts-pure limit if_blocked false)))

    select_polled-Counts : Counts limit 0 (λ o. 0) (select_polled env)
    unfolding select_polled
    select_polled-Counts =
        bind 0 (λ w. 0) _ _ _ (Counts-world limit 0)
          (λ w.
            bind 0 (λ o. 0) _ _ _ (Counts-perform limit env allowed 0 _ _)
              (λ o.
                Counts-if_some limit 0 _ o _ _
                  (λ c.
                    bind 0 (λ d. 0) _ _ _ (Counts-perform limit env allowed 0 _ _)
                      (λ d. Counts-pure limit (λ o. 0) _))
                  (Counts-pure limit (λ o. 0) none)))

    select_candidate-Counts :
        (forced : Option String) → Counts limit 0 (λ o. 0) (select_candidate env forced)
    unfolding select_candidate select_forced
    select_candidate-Counts forced =
        bind 0 (λ u. 0) _ _ _ (Counts-set limit 0 _ (λ s. refl))
          (λ u.
            Counts-if_some limit 0 _ forced _ _
              (λ id. Counts-if limit 0 _ _ _ _ select_polled-Counts (
                bind 0 (λ d. 0) _ _ _ (Counts-perform limit env allowed 0 _ _)
                  (λ d. Counts-pure limit (λ o. 0) _)))
              select_polled-Counts)

    select_candidate_phase-Counts :
        (c : ForemanInput) → Counts limit 0 if_none (select_candidate_phase env c)
    unfolding select_candidate_phase
    select_candidate_phase-Counts c =
        bind 0 (λ w. 0) _ _ _ (Counts-world limit 0)
          (λ w.
            bind 0 (λ u. 0) _ _ _ (Counts-set limit 0 _ (λ s. refl))
              (λ u.
                bind 0 (λ o. 0) _ _ _ (select_candidate-Counts _)
                  (λ o.
                    Counts-if_some limit 0 _ o _ _ (λ d. Counts-pure limit if_none (some d))
                      (bind 0 (λ u. 1) _ _ _ (idle_iteration-Counts c)
                        (λ u. Counts-pure limit if_none none)))))

    pursue :
        (o : Option BeadCandidate)
        → Counts limit
            (if_none o)
            (λ u. 1)
            (if_some o
              (λ c. world >>= λ w.
                dispatch_candidate_phase env w.config c >> assign increment_iteration_counters)
              (pure tt))
    pursue none = Counts-pure limit (λ u. 1) tt
    pursue (some c) =
        bind 0 (λ w. 0) _ _ _ (Counts-world limit 0)
          (λ w.
            bind 0 (λ u. 0) _ _ _ (dispatch_candidate_phase-Counts w.config c)
              (λ u. Counts-tick limit 0))

    go_on :
        (b : Bool)
        → Counts limit
            (if_blocked b)
            (λ u. 1)
            (if b
              then pure tt
              else world >>= λ w. select_candidate_phase env w.config >>= λ candidate.
                  if_some candidate
                    (λ c. world >>= λ w.
                      dispatch_candidate_phase env w.config c
                      >> assign increment_iteration_counters)
                    (pure tt))
    go_on true = Counts-pure limit (λ u. 1) tt
    go_on false =
        bind 0 (λ w. 0) _ _ _ (Counts-world limit 0)
          (λ w. bind 0 if_none _ _ _ (select_candidate_phase-Counts w.config) pursue)

    work-Counts : Counts limit 0 (λ u. 1) (work env)
    unfolding work
    work-Counts =
        bind 0 (λ w. 0) _ _ _ (Counts-world limit 0)
          (λ w. bind 0 if_blocked _ _ _ (run_health_check_phase-Counts w.config) go_on)

    handle_pause_phase-Counts : Counts limit 0 (λ o. 0) (handle_pause_phase env)
    unfolding handle_pause_phase
    handle_pause_phase-Counts =
        bind 0 (λ w. 0) _ _ _ (Counts-world limit 0)
          (λ w.
            Counts-if limit 0 _ _ _ _
              (bind 0 (λ u. 0) _ _ _
                (bind 0 (λ u. 0) _ _ _ (Counts-set limit 0 _ (λ s. refl))
                  (λ u. Counts-wait limit env allowed 0))
                (λ u.
                  bind 0 (λ w. 0) _ _ _ (Counts-world limit 0) (λ w. Counts-pure limit (λ o. 0) _)))
              (Counts-pure limit (λ o. 0) none))

    pub iteration-Counts : Counts limit 0 if_none (iteration env)
    unfolding iteration hand_over_if_due hand_over
    iteration-Counts =
        bind 0 (λ u. 0) _ _ _
          (bind 0 (λ w. 0) _ _ _ (Counts-world limit 0)
            (λ w.
              Counts-if limit 0 _ _ _ _
                (bind 0 (λ w. 0) _ _ _ (Counts-world limit 0)
                  (λ w. Counts-perform limit env allowed 0 _ _))
                (Counts-pure limit (λ u. 0) tt)))
          (λ u.
            bind 0 (λ w. 0) _ _ _ (Counts-world limit 0)
              (λ w.
                Counts-if_some limit 0 _ _ _ _ (λ r. Counts-pure limit if_none (some r))
                  (bind 0 (λ o. 0) _ _ _ handle_pause_phase-Counts
                    (λ o.
                      Counts-if_some limit 0 _ o _ _ (λ r. Counts-pure limit if_none (some r))
                        (bind 0 (λ u. 1) _ _ _ work-Counts
                          (λ u. Counts-pure limit if_none none))))))
