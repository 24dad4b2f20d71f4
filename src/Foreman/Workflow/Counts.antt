-- ===== src/Foreman/Workflow/Counts.antt =====
-- The counters of the loop of daemon/src/temporal/foreman.workflows.ts.
use repomap_core.Prelude.{ℕ, ◌+◌, ◌≤◌, arith, String, List, ◌∷◌, ◌≡◌, refl, ◌∙◌}
use repomap_core.Foreman.Types.{
  ForemanInput, DispatchResult, completed, failed, timeout, validation_failed, budget_exceeded,
  aborted, DispatchOutcome,
}
use repomap_core.Foreman.State.{ForemanState}
use repomap_core.Foreman.State.Signals.{
  Signal, pause, resume, shutdown, force_dispatch, approve_dispatch, skip_bead, update_config,
  signal_state,
}
use repomap_core.Foreman.Workflow.{Request, Env, World, M, ◌>>=◌, assign, perform, Reply}
use repomap_core.Foreman.Workflow.Phases.{handle_result, handle_success, handle_failure, escalate}
use repomap_core.Foreman.Workflow.Keeps.{
  Keeps, Keeps-sequence, Keeps-bind, Keeps-world, Keeps-if, Keeps-answer, Rules, Anything,
  All-Anything,
}

-- the four lifetime counters of outcomes are equal
abbrev pub SameTotals : ForemanState → ForemanState → Type 0
SameTotals s t =
    (s.total_dispatches ≡ t.total_dispatches)
    × (s.total_completions ≡ t.total_completions)
    × (s.total_failures ≡ t.total_failures)
    × (s.total_escalations ≡ t.total_escalations)

abbrev pub StillTotals : World → World → Type 0
StillTotals v w = SameTotals v.state w.state

-- completions and failures together are at most the dispatches, and escalations are failures
abbrev pub IsCounted : ForemanState → Type 0
IsCounted s =
    (s.total_completions + s.total_failures ≤ s.total_dispatches)
    × (s.total_failures ≡ s.total_escalations)

SameTotals-signal : (s : Signal) (f : ForemanState) → SameTotals f (signal_state s f)
unfolding signal_state
SameTotals-signal pause f = (refl, refl, refl, refl)
SameTotals-signal resume f = (refl, refl, refl, refl)
SameTotals-signal (shutdown r) f = (refl, refl, refl, refl)
SameTotals-signal (force_dispatch b) f = (refl, refl, refl, refl)
SameTotals-signal (approve_dispatch b) f = (refl, refl, refl, refl)
SameTotals-signal (skip_bead b r) f = (refl, refl, refl, refl)
SameTotals-signal (update_config u) f = (refl, refl, refl, refl)

abbrev StillTotals-trans : (u v w : World) → StillTotals u v → StillTotals v w → StillTotals u w
StillTotals-trans u v w (a, b, c, d) (e, f, g, h) = (a ∙ e, b ∙ f, c ∙ g, d ∙ h)

totals_rules : (env : Env) → Rules env Anything StillTotals
totals_rules env = record {
  stay = λ w. (refl, refl, refl, refl);
  trans = StillTotals-trans;
  on_signal = λ s w h. SameTotals-signal s w.state;
  on_request = λ r w h. (refl, refl, refl, refl);
  on_update = λ w s h. (h.1, h.2, h.3, h.4);
  allowed = λ t. All-Anything (env.signals t);
}

-- at most one completion or failure more, and as many more failures as escalations
abbrev pub Settles : World → World → Type 0
Settles v w =
    (w.state.total_dispatches ≡ v.state.total_dispatches)
    × (w.state.total_completions + w.state.total_failures
        ≤ v.state.total_completions + v.state.total_failures + 1)
    × (w.state.total_failures + v.state.total_escalations
        ≡ v.state.total_failures + w.state.total_escalations)

still-Settles : (u v w : World) → StillTotals u v → Settles v w → Settles u w
still-Settles u v w (a, b, c, d) (e, f, g) = (omega arith, omega arith, omega arith)

weaken-Settles : (u v : World) → StillTotals u v → Settles u v
weaken-Settles u v (a, b, c, d) = (omega arith, omega arith, omega arith)

module _ (env : Env) where
  still_bind {ℓ ι} :
      {A : Type ℓ} {B : Type ι} (m : M A) (f : A → M B)
      → Keeps StillTotals m
      → ((a : A) → Keeps StillTotals (f a))
      → Keeps StillTotals (m >>= f)
  still_bind = Keeps-bind env Anything StillTotals (totals_rules env)

  still_assign :
      (f : ForemanState → ForemanState)
      → ((s : ForemanState) → SameTotals s (f s))
      → Keeps StillTotals (assign f)
  unfolding assign
  still_assign f h = record { at = λ w. h w.state }

  still_perform {ℓ} :
      {A : Type ℓ} (r : Request) (reply : List Request → Reply A)
      → Keeps StillTotals (perform env r reply)
  unfolding perform
  still_perform r reply = record {
    at = λ w.
        Keeps-answer env Anything StillTotals (totals_rules env) (r ∷ w.trace)
          (record w { trace = r ∷ w.trace });
  }

  settle_bind {ℓ ι} :
      {A : Type ℓ} {B : Type ι} (m : M A) (f : A → M B)
      → Keeps StillTotals m
      → ((a : A) → Keeps Settles (f a))
      → Keeps Settles (m >>= f)
  settle_bind = Keeps-sequence StillTotals Settles Settles still-Settles weaken-Settles

  settle_still {ℓ} : {A : Type ℓ} (m : M A) → Keeps StillTotals m → Keeps Settles m
  settle_still m h = record { at = λ w. weaken-Settles w (m w).1 (h.at w) }

  pub all_same : (s : ForemanState) → SameTotals s s
  all_same s = (refl, refl, refl, refl)

  escalate-Settles : (bead_id : String) → Keeps Settles (escalate env bead_id)
  unfolding escalate assign
  escalate-Settles bead_id =
      settle_bind _ _ (search (still_bind, still_assign, still_perform, all_same) depth 10)
        λ _. record { at = λ w. (refl, omega arith, omega arith) }

  handle_success-Settles :
      (bead_id : String) (o : DispatchOutcome) → Keeps Settles (handle_success env bead_id o)
  unfolding handle_success assign
  handle_success-Settles bead_id o =
      settle_bind _ _ (search (still_bind, still_assign, still_perform, all_same) depth 10)
        λ _. record { at = λ w. (refl, omega arith, omega arith) }

  handle_failure-Settles :
      (config : ForemanInput) (bead_id : String) (r : DispatchResult) (at : ℕ)
      → Keeps Settles (handle_failure env config bead_id r at)
  unfolding handle_failure
  handle_failure-Settles config bead_id r at = settle_bind _ _ (still_assign _ all_same) λ _.
      settle_bind _ _ (Keeps-world env Anything StillTotals (totals_rules env)) λ w.
        settle_bind _ _ (still_assign _ all_same) λ _.
          Keeps-if _ _ _
            (settle_still _ (still_bind _ _ (still_assign _ all_same) (λ _. still_perform _ _)))
            (escalate-Settles bead_id)

  pub handle_result-Settles :
      (config : ForemanInput) (bead_id : String) (r : DispatchResult) (o : DispatchOutcome) (at : ℕ)
      → Keeps Settles (handle_result env config bead_id r o at)
  unfolding handle_result
  handle_result-Settles config b completed o at = handle_success-Settles b o
  handle_result-Settles config b (failed e r) o at = handle_failure-Settles config b (failed e r) at
  handle_result-Settles config b (timeout e t) o at =
      handle_failure-Settles config b (timeout e t) at
  handle_result-Settles config b (validation_failed m v) o at =
      handle_failure-Settles config b (validation_failed m v) at
  handle_result-Settles config b (budget_exceeded c u) o at = escalate-Settles b
  handle_result-Settles config b (aborted r) o at = settle_still _ (still_perform _ _)

-- an operation that keeps the counters in order
abbrev pub StaysCounted : World → World → Type 0
StaysCounted v w = IsCounted v.state → IsCounted w.state

-- one more dispatch
abbrev pub Dispatches : World → World → Type 0
Dispatches v w =
    (w.state.total_dispatches ≡ v.state.total_dispatches + 1)
    × (w.state.total_completions ≡ v.state.total_completions)
    × (w.state.total_failures ≡ v.state.total_failures)
    × (w.state.total_escalations ≡ v.state.total_escalations)

pub counted_rules : (env : Env) → Rules env Anything StaysCounted
counted_rules env = record {
  stay = λ w h. h;
  trans = λ u v w f g h. g (f h);
  on_signal = λ s w _ h. let e = SameTotals-signal s w.state in (omega arith, omega arith);
  on_request = λ r w _ h. h;
  on_update = λ w s e h. (omega arith, omega arith);
  allowed = λ t. All-Anything (env.signals t);
}

pub dispatch-settle : (u v w : World) → Dispatches u v → Settles v w → StaysCounted u w
dispatch-settle u v w (a, b, c, d) (e, f, g) (h, i) = (omega arith, omega arith)

pub weaken-dispatch : (u v : World) → Dispatches u v → StaysCounted u v
weaken-dispatch u v (a, b, c, d) (h, i) = (omega arith, omega arith)
