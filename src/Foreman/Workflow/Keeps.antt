-- ===== src/Foreman/Workflow/Keeps.antt =====
-- What the phases of daemon/src/temporal/foreman.workflows.ts that dispatch nothing keep: a relation
-- on worlds that holds of the assignments, requests and signals of those phases holds of the phases.
use repomap_core.Prelude.{
  String, Bool, true, false, Bool-cases, Option, none, some, List, [], ◌∷◌, All, inl, inr,
  if◌then◌else◌, ◌≡◌, refl,
}
use repomap_core.Foreman.Types.{idle, ForemanInput}
use repomap_core.Foreman.State.{ForemanState, increment_iteration_counters}
use repomap_core.Foreman.State.Signals.{Signal}
use repomap_core.Foreman.Workflow.{
  and_then, Request, close_bead, start_child, continue_as_new, sleep, wait_while_paused, Run,
  returns, throws, blocked, out_of_fuel, Reply, Env, World, M, ◌>>=◌, ◌>>◌, pure, assign, if_some,
  world, deliver, deliver_all, perform, resumes, wait_until, wait_for_resume,
}
use repomap_core.Foreman.Workflow.Phases.{
  handle_pause_phase, refresh_health, select_candidate, select_candidate_phase, idle_iteration,
  run_health_check_phase, select_forced, select_polled,
}

-- requests that neither dispatch, nor close, nor end the run, nor claim a bead
abbrev pub plain : Request → Bool
plain (close_bead bead_id outcome) = false
plain (start_child plan child_input workflow_id task_queue) = false
plain (continue_as_new input) = false
plain _ = true

abbrev pub SameCounts : ForemanState → ForemanState → Type 0
SameCounts s t =
    (s.iteration_count ≡ t.iteration_count)
    × (s.total_dispatches ≡ t.total_dispatches)
    × (s.total_completions ≡ t.total_completions)
    × (s.total_failures ≡ t.total_failures)
    × (s.total_escalations ≡ t.total_escalations)

abbrev pub same : (s : ForemanState) → SameCounts s s
same s = (refl, refl, refl, refl, refl)

-- from every world the run of `m` stands in `R` to its end
pub record Keeps {ℓ κ} {A : Type ℓ} (R : World → World → Type κ) (m : M A) : Type κ where
  pub at : (w : World) → R w (m w).1

abbrev pub Anything : Signal → Type 0
Anything s = Unit {0}

pub All-Anything : (signals : List Signal) → All Anything signals
All-Anything [] = tt
All-Anything (s ∷ signals) = (tt, All-Anything signals)

-- the rules that make a relation one that the phases keep
pub record Rules {κ} (env : Env) (P : Signal → Type 0) (R : World → World → Type κ) : Type κ where
  pub stay : (w : World) → R w w
  pub trans : (u v w : World) → R u v → R v w → R u w
  pub on_signal : (s : Signal) (w : World) → P s → R w (deliver s w)
  pub on_request :
      (r : Request) (w : World) → plain r ≡ true → R w (record w { trace = r ∷ w.trace })
  pub on_update :
      (w : World) (s : ForemanState) → SameCounts w.state s → R w (record w { state = s })
  pub allowed : (t : List Request) → All P (env.signals t)

-- branches
module _ {κ} {R : World → World → Type κ} where
  pub Keeps-if {ℓ} :
      {A : Type ℓ} (b : Bool) (m n : M A) → Keeps R m → Keeps R n → Keeps R (if b then m else n)
  Keeps-if true m n km kn = km
  Keeps-if false m n km kn = kn

  pub Keeps-if_some {ℓ ι} :
      {A : Type ℓ} {B : Type ι} (o : Option A) (f : A → M B) (m : M B)
      → ((a : A) → Keeps R (f a))
      → Keeps R m
      → Keeps R (if_some o f m)
  Keeps-if_some none f m kf km = km
  Keeps-if_some (some a) f m kf km = kf a

-- a run in `R` followed by runs in `S` is a run in `T`
module _ {κ} (R S T : World → World → Type κ) (compose : (u v w : World) → R u v → S v w → T u w)
    (weaken : (u v : World) → R u v → T u v) where
  Keeps-then {ℓ ι} :
      {A : Type ℓ} {B : Type ι} (r : Run A) (f : A → M B) (u v : World)
      → R u v
      → ((a : A) → Keeps S (f a))
      → T u (and_then r f v).1
  Keeps-then (returns a) f u v h kf = compose u v (f a v).1 h ((kf a).at v)
  Keeps-then (throws e) f u v h kf = weaken u v h
  Keeps-then blocked f u v h kf = weaken u v h
  Keeps-then out_of_fuel f u v h kf = weaken u v h

  pub Keeps-sequence {ℓ ι} :
      {A : Type ℓ} {B : Type ι} (m : M A) (f : A → M B)
      → Keeps R m
      → ((a : A) → Keeps S (f a))
      → Keeps T (m >>= f)
  unfolding ◌>>=◌
  Keeps-sequence m f km kf = record { at = λ w. Keeps-then (m w).0 f w (m w).1 (km.at w) kf }

module _ {κ} (env : Env) (P : Signal → Type 0) (R : World → World → Type κ)
    (rules : Rules env P R) where
  pub Keeps-and_then {ℓ ι} :
      {A : Type ℓ} {B : Type ι}
      → (r : Run A) (f : A → M B) → ((a : A) → Keeps R (f a))
      → Keeps R (and_then r f)
  Keeps-and_then (returns a) f kf = record { at = (kf a).at }
  Keeps-and_then (throws e) f kf = record { at = rules.stay }
  Keeps-and_then blocked f kf = record { at = rules.stay }
  Keeps-and_then out_of_fuel f kf = record { at = rules.stay }

  pub Keeps-bind {ℓ ι} :
      {A : Type ℓ} {B : Type ι}
      → (m : M A) (f : A → M B) → Keeps R m
      → ((a : A) → Keeps R (f a))
      → Keeps R (m >>= f)
  unfolding ◌>>=◌
  Keeps-bind m f km kf = record {
    at = λ w. rules.trans w (m w).1 _ (km.at w) ((Keeps-and_then (m w).0 f kf).at (m w).1);
  }

  pub Keeps-pure {ℓ} : {A : Type ℓ} (a : A) → Keeps R (pure a)
  unfolding pure
  Keeps-pure a = record { at = rules.stay }

  pub Keeps-world : Keeps R world
  unfolding world
  Keeps-world = record { at = rules.stay }

  pub Keeps-assign :
      (f : ForemanState → ForemanState)
      → ((s : ForemanState) → SameCounts s (f s))
      → Keeps R (assign f)
  unfolding assign
  Keeps-assign f h = record { at = λ w. rules.on_update w (f w.state) (h w.state) }

  pub Keeps-deliver_all :
      (signals : List Signal) (w : World) → All P signals → R w (deliver_all signals w)
  Keeps-deliver_all [] w h = rules.stay w
  Keeps-deliver_all (s ∷ signals) w h =
      rules.trans w (deliver s w) _ (rules.on_signal s w h.0)
        (Keeps-deliver_all signals (deliver s w) h.1)

  -- the signals that come with the answer to any request
  pub Keeps-answer : (t : List Request) (w : World) → R w (deliver_all (env.signals t) w)
  Keeps-answer t w = Keeps-deliver_all (env.signals t) w (rules.allowed t)

  pub Keeps-perform {ℓ} :
      {A : Type ℓ} (r : Request) (reply : List Request → Reply A)
      → plain r ≡ true
      → Keeps R (perform env r reply)
  unfolding perform
  Keeps-perform r reply h = record {
    at = λ w.
        rules.trans w (record w { trace = r ∷ w.trace }) _ (rules.on_request r w h)
          (Keeps-answer (r ∷ w.trace) (record w { trace = r ∷ w.trace }));
  }

  Keeps-wait_until : (signals : List Signal) → All P signals → Keeps R (wait_until signals)
  unfolding wait_until
  Keeps-wait_until [] h = record { at = rules.stay }
  Keeps-wait_until (s ∷ signals) h = record {
    at = λ w. elim (Bool-cases (resumes w.state)) [
      | inl e ↦ rw e (rules.stay w)
      | inr e ↦ rw e (
          rules.trans w (deliver s w) _ (rules.on_signal s w h.0)
            ((Keeps-wait_until signals h.1).at (deliver s w)))
    ];
  }

  Keeps-wait_for_resume : Keeps R (wait_for_resume env)
  unfolding wait_for_resume
  Keeps-wait_for_resume = record {
    at = λ w.
        let t = wait_while_paused ∷ w.trace in
        rules.trans w (record w { trace = t }) _ (rules.on_request wait_while_paused w refl)
          ((Keeps-wait_until (env.signals t) (rules.allowed t)).at (record w { trace = t }));
  }

  -- the rules of the monad
  ruleset monad_rules = (
    Keeps-bind, Keeps-pure, Keeps-world, Keeps-if, Keeps-if_some, Keeps-assign, Keeps-perform, same,
  )

  pub Keeps-handle_pause_phase : Keeps R (handle_pause_phase env)
  unfolding handle_pause_phase
  Keeps-handle_pause_phase = search (monad_rules, Keeps-wait_for_resume) depth 12

  pub Keeps-refresh_health : (config : ForemanInput) → Keeps R (refresh_health env config)
  unfolding refresh_health
  Keeps-refresh_health config = search monad_rules depth 12

  Keeps-select_polled : Keeps R (select_polled env)
  unfolding select_polled
  Keeps-select_polled = search monad_rules depth 12

  Keeps-select_forced : (bead_id : String) → Keeps R (select_forced env bead_id)
  unfolding select_forced
  Keeps-select_forced bead_id = search monad_rules depth 12

  pub Keeps-select_candidate : (forced : Option String) → Keeps R (select_candidate env forced)
  unfolding select_candidate
  Keeps-select_candidate forced =
      search (monad_rules, Keeps-select_polled, Keeps-select_forced) depth 12

  -- with a relation that an iteration may also count in
  module _ (tick : Keeps R (assign increment_iteration_counters)) where
    pub Keeps-idle_iteration : (config : ForemanInput) → Keeps R (idle_iteration env config)
    unfolding idle_iteration
    Keeps-idle_iteration config =
        Keeps-bind (assign (λ s. record s { phase = idle }))
          (λ _.
            perform env (sleep config.poll_interval_ms) env.done
            >> assign increment_iteration_counters)
          (Keeps-assign _ same)
          (λ _.
            Keeps-bind (perform env (sleep config.poll_interval_ms) env.done)
              (λ _. assign increment_iteration_counters)
              (Keeps-perform (sleep config.poll_interval_ms) env.done refl) (λ _. tick))

    pub Keeps-run_health_check_phase :
        (config : ForemanInput) → Keeps R (run_health_check_phase env config)
    unfolding run_health_check_phase
    Keeps-run_health_check_phase config =
        search (monad_rules, Keeps-refresh_health, Keeps-idle_iteration) depth 12

    pub Keeps-select_candidate_phase :
        (config : ForemanInput) → Keeps R (select_candidate_phase env config)
    unfolding select_candidate_phase
    Keeps-select_candidate_phase config =
        search (monad_rules, Keeps-select_candidate, Keeps-idle_iteration) depth 12
