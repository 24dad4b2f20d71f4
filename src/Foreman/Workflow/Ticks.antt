-- ===== src/Foreman/Workflow/Ticks.antt =====
-- How many iterations a part of the loop of daemon/src/temporal/foreman.workflows.ts counts where it
-- returns: the rules for requests, signals, assignments and sequences.
use repomap_core.Prelude.{
  ℕ, suc, ◌+◌, ◌≤◌, ◌≡◌, refl, ◌∙◌, arith, Bool, true, false, Bool-cases, Option, none, some, List,
  [], ◌∷◌, All, inl, inr, if◌then◌else◌, or_else,
}
use repomap_core.Foreman.State.{ForemanState, increment_iteration_counters}
use repomap_core.Foreman.State.Signals.{
  Signal, pause, resume, shutdown, force_dispatch, approve_dispatch, skip_bead, update_config,
  signal_state, signal_config,
}
use repomap_core.Foreman.Workflow.{
  and_then, Request, wait_while_paused, Run, returns, throws, blocked, out_of_fuel, Reply, value,
  fault, answer, Env, World, M, ◌>>=◌, pure, assign, if_some, world, deliver, deliver_all, perform,
  resumes, wait_until, wait_for_resume,
}

-- a change of the configuration, if it sets the limit of iterations, sets it to no more than this
abbrev pub Within : ℕ → Signal → Type 0
Within limit (update_config u) = or_else u.max_iterations 0 ≤ limit
Within limit _ = Unit

abbrev pub IsWithin : ℕ → World → Type 0
IsWithin limit w = w.config.max_iterations ≤ limit

-- from k iterations counted in this turn, a run that returns has counted so many
abbrev pub Ticks {ℓ} : {A : Type ℓ} → ℕ → ℕ → (A → ℕ) → World → Run A → World → Type 0
Ticks limit k R w (returns a) v =
    (v.state.iteration_count + k ≡ w.state.iteration_count + R a) × IsWithin limit v
Ticks limit k R w (throws e) v = Unit
Ticks limit k R w blocked v = Unit
Ticks limit k R w out_of_fuel v = ⊥

module _ (limit : ℕ) where
  pub record Counts {ℓ} {A : Type ℓ} (k : ℕ) (R : A → ℕ) (m : M A) : Type ℓ where
    pub at : (w : World) → IsWithin limit w → Ticks limit k R w (m w).0 (m w).1

  then-Ticks {ℓ κ} :
      {A : Type ℓ} {B : Type κ} (k : ℕ) (P : A → ℕ) (R : B → ℕ) (f : A → M B) (w v : World)
      (r : Run A)
      → Ticks limit k P w r v
      → ((a : A) → Counts (P a) R (f a))
      → Ticks limit k R w (and_then r f v).0 (and_then r f v).1
  then-Ticks k P R f w v (returns a) h j = from_there ((f a v).0) (f a v).1 ((j a).at v h.1)
    where
      from_there : (r : Run _) (u : World) → Ticks limit (P a) R v r u → Ticks limit k R w r u
      from_there (returns b) u t = (omega (arith, h.0, t.0), t.1)
      from_there (throws e) u t = tt
      from_there blocked u t = tt
      from_there out_of_fuel u t = t
  then-Ticks k P R f w v (throws e) h j = tt
  then-Ticks k P R f w v blocked h j = tt
  then-Ticks k P R f w v out_of_fuel h j = h

  pub Counts-bind {ℓ κ} :
      {A : Type ℓ} {B : Type κ} (k : ℕ) (P : A → ℕ) (R : B → ℕ) (m : M A) (f : A → M B)
      → Counts k P m
      → ((a : A) → Counts (P a) R (f a))
      → Counts k R (m >>= f)
  unfolding ◌>>=◌
  Counts-bind k P R m f h j = record {
    at = λ w i. then-Ticks k P R f w (m w).1 (m w).0 (h.at w i) j;
  }

  pub Counts-pure {ℓ} : {A : Type ℓ} (R : A → ℕ) (a : A) → Counts (R a) R (pure a)
  unfolding pure
  Counts-pure R a = record { at = λ w i. (refl, i) }

  pub Counts-world : (k : ℕ) → Counts k (λ w. k) world
  unfolding world
  Counts-world k = record { at = λ w i. (refl, i) }

  Counts-assign :
      (k n : ℕ) (f : ForemanState → ForemanState)
      → ((s : ForemanState) → (f s).iteration_count + k ≡ s.iteration_count + n)
      → Counts k (λ u. n) (assign f)
  unfolding assign
  Counts-assign k n f h = record { at = λ w i. (h w.state, i) }

  pub Counts-if {ℓ} :
      {A : Type ℓ} (k : ℕ) (R : A → ℕ) (b : Bool) (m n : M A)
      → Counts k R m
      → Counts k R n
      → Counts k R (if b then m else n)
  Counts-if k R true m n h j = h
  Counts-if k R false m n h j = j

  count-signal :
      (s : Signal) (f : ForemanState) → (signal_state s f).iteration_count ≡ f.iteration_count
  unfolding signal_state
  count-signal pause f = refl
  count-signal resume f = refl
  count-signal (shutdown r) f = refl
  count-signal (force_dispatch b) f = refl
  count-signal (approve_dispatch b) f = refl
  count-signal (skip_bead b r) f = refl
  count-signal (update_config u) f = refl

  or_else-le : (o : Option ℕ) (n : ℕ) → or_else o 0 ≤ limit → n ≤ limit → or_else o n ≤ limit
  or_else-le none n h i = i
  or_else-le (some m) n h i = h

  IsWithin-deliver :
      (s : Signal) (w : World) → Within limit s → IsWithin limit w → IsWithin limit (deliver s w)
  unfolding signal_config
  IsWithin-deliver pause w h i = i
  IsWithin-deliver resume w h i = i
  IsWithin-deliver (shutdown r) w h i = i
  IsWithin-deliver (force_dispatch b) w h i = i
  IsWithin-deliver (approve_dispatch b) w h i = i
  IsWithin-deliver (skip_bead b r) w h i = i
  IsWithin-deliver (update_config u) w h i = or_else-le u.max_iterations _ h i

  -- signals neither count nor set a limit out of bounds
  pub delivered :
      (signals : List Signal) (w : World)
      → All (Within limit) signals
      → IsWithin limit w
      → ((deliver_all signals w).state.iteration_count ≡ w.state.iteration_count)
        × IsWithin limit (deliver_all signals w)
  delivered [] w h i = (refl, i)
  delivered (s ∷ signals) w h i =
      let (e, j) = delivered signals (deliver s w) h.1 (IsWithin-deliver s w h.0 i) in
      (e ∙ count-signal s w.state, j)

  answered {ℓ} :
      {A : Type ℓ} (k : ℕ) (x : Reply A) (w v : World)
      → v.state.iteration_count ≡ w.state.iteration_count
      → IsWithin limit v
      → Ticks limit k (λ a. k) w (answer x) v
  answered k (value a) w v e j = (omega (arith, e), j)
  answered k (fault x) w v e j = tt

  resumed-Ticks :
      (k : ℕ) (b : Bool) (w : World)
      → IsWithin limit w
      → Ticks limit k (λ (u : Unit {0}). k) w (if b then returns tt else blocked) w
  resumed-Ticks k true w i = (refl, i)
  resumed-Ticks k false w i = tt

  -- the same from a world with the same count
  later-Ticks :
      (k : ℕ) (w v : World) (r : Run (Unit {0})) (u : World)
      → v.state.iteration_count ≡ w.state.iteration_count
      → Ticks limit k (λ a. k) v r u
      → Ticks limit k (λ a. k) w r u
  later-Ticks k w v (returns a) u e t = (omega (arith, e, t.0), t.1)
  later-Ticks k w v (throws x) u e t = tt
  later-Ticks k w v blocked u e t = tt
  later-Ticks k w v out_of_fuel u e t = t

  pub Counts-set :
      (k : ℕ) (f : ForemanState → ForemanState)
      → ((s : ForemanState) → (f s).iteration_count ≡ s.iteration_count)
      → Counts k (λ u. k) (assign f)
  Counts-set k f h = Counts-assign k k f (λ s. omega (arith, h s))

  pub Counts-tick : (k : ℕ) → Counts k (λ u. suc k) (assign increment_iteration_counters)
  unfolding increment_iteration_counters
  Counts-tick k = Counts-assign k (suc k) _ (λ s. omega arith)

  pub Counts-if_some {ℓ ι} :
      {A : Type ℓ} {B : Type ι} (k : ℕ) (R : B → ℕ) (o : Option A) (f : A → M B) (m : M B)
      → ((a : A) → Counts k R (f a))
      → Counts k R m
      → Counts k R (if_some o f m)
  Counts-if_some k R none f m h j = j
  Counts-if_some k R (some a) f m h j = h a

  module _ (env : Env) (allowed : (t : List Request) → All (Within limit) (env.signals t)) where
    pub Counts-perform {ℓ} :
        {A : Type ℓ} (k : ℕ) (r : Request) (reply : List Request → Reply A)
        → Counts k (λ a. k) (perform env r reply)
    unfolding perform
    Counts-perform k r reply = record {
      at = λ w i.
          let t = r ∷ w.trace in
          let (e, j) = delivered (env.signals t) (record w { trace = t }) (allowed t) i in
          answered k (reply t) w (deliver_all (env.signals t) (record w { trace = t })) e j;
    }

    wait-Ticks :
        (signals : List Signal) (k : ℕ) (w : World)
        → All (Within limit) signals
        → IsWithin limit w
        → Ticks limit k (λ u. k) w (wait_until signals w).0 (wait_until signals w).1
    unfolding wait_until
    wait-Ticks [] k w h i = resumed-Ticks k (resumes w.state) w i
    wait-Ticks (s ∷ signals) k w h i = elim (Bool-cases (resumes w.state)) [
      | inl e ↦ rw e (refl, i)
      | inr e ↦ rw e (
          later-Ticks k w (deliver s w) _ _ (count-signal s w.state)
            (wait-Ticks signals k (deliver s w) h.1 (IsWithin-deliver s w h.0 i)))
    ]

    pub Counts-wait : (k : ℕ) → Counts k (λ u. k) (wait_for_resume env)
    unfolding wait_for_resume
    Counts-wait k = record {
      at = λ w i.
          let t = wait_while_paused ∷ w.trace in
          wait-Ticks (env.signals t) k (record w { trace = t }) (allowed t) i;
    }
