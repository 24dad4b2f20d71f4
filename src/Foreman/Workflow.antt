-- ===== src/Foreman/Workflow.antt =====
-- The asynchronous code of daemon/src/temporal/foreman.workflows.ts as a state monad. An `await` asks
-- the environment `Env`, which answers by all that was asked before, so every behaviour of the
-- activities, the child workflows, the clock and the operator is some environment. Signals are
-- delivered at the awaits.
pub mod Phases
pub mod Loop
pub mod Keeps
pub mod Counts
pub mod Totals
pub mod Whole
pub mod Orders
pub mod Ends
mod Retried
mod Ticks
mod Turns
mod Halts
mod Tests
use repomap_core.Prelude.{
  ℕ, String, Bool, true, false, not, ◌||◌, Option, none, some, List, [], ◌∷◌, if◌then◌else◌,
}
use repomap_core.Foreman.Types.{
  HealthCheckResult, BeadCandidate, AgentTaskResult, DispatchPlan, AgentTaskInput, DispatchOutcome,
  RetryLedgerEntry, ForemanInput,
}
use repomap_core.Foreman.State.{ForemanState}
use repomap_core.Foreman.State.Signals.{Signal, signal_state, signal_config}

-- What the workflow asks of the world. `updateBeadStatus` is asked with "in_progress" or "ready", and `startChild` with
-- the input, the workflow id and the task queue, beside the plan that the input was built from.
pub data BeadStatus : Type 0 where
  in_progress ready : BeadStatus

pub data Request : Type 0 where
  check_stack_health : Request
  select_next_bead : List RetryLedgerEntry → List String → Request
  get_bead_detail : String → Request
  update_bead_status : String → BeadStatus → Request
  close_bead : String → DispatchOutcome → Request
  start_child : DispatchPlan → AgentTaskInput → String → String → Request
  child_result : Request
  sleep : ℕ → Request
  wait_while_paused : Request
  continue_as_new : ForemanInput → Request

pub record Fault : Type 0 where
  pub message : String
  pub is_cancellation : Bool

-- How an asynchronous function ends; `blocked` where it waits for good, `out_of_fuel` where the
-- model stops before it.
pub data Run {ℓ} (A : Type ℓ) : Type ℓ where
  returns : A → Run A
  throws : Fault → Run A
  blocked out_of_fuel : Run A

pub data Reply {ℓ} (A : Type ℓ) : Type ℓ where
  value : A → Reply A
  fault : Fault → Reply A

-- Each answer is a function of the requests so far, the last one first.
pub record Env : Type 0 where
  pub now : List Request → ℕ
  -- how a number is printed
  pub shown : ℕ → String
  pub signals : List Request → List Signal
  pub health : List Request → Reply HealthCheckResult
  pub selected : List Request → Reply (Option BeadCandidate)
  pub detail : List Request → Reply BeadCandidate
  pub done : List Request → Reply (Unit {0})
  pub agent : List Request → Reply AgentTaskResult
  -- what `continueAsNew` throws to end the run
  pub end_of_run : List Request → Fault

pub record World : Type 0 where
  pub state : ForemanState
  pub config : ForemanInput
  pub trace : List Request

abbrev pub M {ℓ} : Type ℓ → Type ℓ
M A = World → Run A × World

abbrev pub and_then {ℓ κ} : {A : Type ℓ} {B : Type κ} → Run A → (A → M B) → M B
and_then (returns a) f w = f a w
and_then (throws e) f w = (throws e, w)
and_then blocked f w = (blocked, w)
and_then out_of_fuel f w = (out_of_fuel, w)

infixl 5 ◌>>=◌ ◌>>◌
unfoldable pub ◌>>=◌ {ℓ κ} : {A : Type ℓ} {B : Type κ} → M A → (A → M B) → M B
◌>>=◌ m f w = and_then (m w).0 f (m w).1

abbrev pub ◌>>◌ {ℓ} : {B : Type ℓ} → M (Unit {0}) → M B → M B
m >> k = m >>= λ _. k

unfoldable pub pure {ℓ} : {A : Type ℓ} → A → M A
pure a w = (returns a, w)

-- an assignment to fields of the state
unfoldable pub assign : (ForemanState → ForemanState) → M (Unit {0})
assign f w = (returns tt, record w { state = f w.state })

-- the world, where the code reads the state or the config
unfoldable pub world : M World
world w = (returns w, w)

-- `if (o) ... else ...` on a value that may be null
abbrev pub if_some {ℓ κ} : {A : Type ℓ} {B : Type κ} → Option A → (A → M B) → M B → M B
if_some none f m = m
if_some (some a) f m = f a

abbrev pub deliver : Signal → World → World
deliver s w = record w { state = signal_state s w.state; config = signal_config s w.config }

abbrev pub deliver_all : List Signal → World → World
deliver_all [] w = w
deliver_all (s ∷ signals) w = deliver_all signals (deliver s w)

abbrev pub answer {ℓ} : {A : Type ℓ} → Reply A → Run A
answer (value a) = returns a
answer (fault e) = throws e

-- `await`: the request is made, signals come while it is answered, and the answer is returned or
-- thrown
unfoldable pub perform {ℓ} : {A : Type ℓ} → Env → Request → (List Request → Reply A) → M A
perform env request reply w =
    let trace = request ∷ w.trace in
    (answer (reply trace), deliver_all (env.signals trace) (record w { trace = trace }))

-- `condition(() => !state.pauseRequested || state.shutdownRequested)`: signals are handled up to the
-- first one that makes it true
abbrev pub resumes : ForemanState → Bool
resumes s = not s.pause_requested || s.shutdown_requested

unfoldable pub wait_until : List Signal → M (Unit {0})
wait_until [] w = (if resumes w.state then returns tt else blocked, w)
wait_until (s ∷ signals) w =
    let later = wait_until signals (deliver s w) in
    if resumes w.state then (returns tt, w) else later

unfoldable pub wait_for_resume : Env → M (Unit {0})
unfolding wait_until
wait_for_resume env w =
    let trace = wait_while_paused ∷ w.trace in
    wait_until (env.signals trace) (record w { trace = trace })
