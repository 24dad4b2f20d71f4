-- ===== src/Foreman/Workflow/Retried.antt =====
-- The retry ledger of daemon/src/temporal/foreman.workflows.ts over the outcomes that
-- `handleDispatchOutcome` handles.
use repomap_core.Prelude.{
  ℕ, ◌+◌, ◌≡◌, refl, sym, ◌∙◌, ap, subst, String, Bool, true, false, not, ◌&&◌, some, List, [], ◌∷◌,
  leb, if◌then◌else◌, Distinct,
}
use repomap_core.Foreman.Types.{
  failing, retrying, ForemanInput, BeadCandidate, DispatchResult, completed, failed, timeout,
  validation_failed, budget_exceeded, aborted, DispatchOutcome, RetryLedgerEntry,
}
use repomap_core.Foreman.State.{ForemanState}
use repomap_core.Foreman.State.Signals.{
  Signal, pause, resume, shutdown, force_dispatch, approve_dispatch, skip_bead, update_config,
  signal_state,
}
use repomap_core.Foreman.Ledger.{
  is_retryable, find_entry, attempts_of, update_retry_ledger, remove_from_retry_ledger,
}
use repomap_core.Foreman.Ledger.Retries.{beads_of}
use repomap_core.Foreman.Ledger.Failures.{
  Dispatched, handle, handle_all, failures, handle_all-counts,
}
use repomap_core.Foreman.Workflow.{
  Request, update_bead_status, ready, Env, World, M, returns, value, ◌>>=◌, ◌>>◌, and_then, pure,
  assign, world, perform, deliver, deliver_all,
}
use repomap_core.Foreman.Workflow.Phases.{
  escalate, handle_failure, handle_success, handle_result, handle_dispatch_outcome,
}

abbrev ledger_of : World → List RetryLedgerEntry
ledger_of w = w.state.retry_ledger

-- a signal leaves the ledger alone
ledger-signal : (s : Signal) (f : ForemanState) → (signal_state s f).retry_ledger ≡ f.retry_ledger
unfolding signal_state
ledger-signal pause f = refl
ledger-signal resume f = refl
ledger-signal (shutdown r) f = refl
ledger-signal (force_dispatch b) f = refl
ledger-signal (approve_dispatch b) f = refl
ledger-signal (skip_bead b r) f = refl
ledger-signal (update_config u) f = refl

ledger-deliver_all :
    (signals : List Signal) (w : World) → ledger_of (deliver_all signals w) ≡ ledger_of w
ledger-deliver_all [] w = refl
ledger-deliver_all (s ∷ signals) w =
    ledger-deliver_all signals (deliver s w) ∙ ledger-signal s w.state

-- it returns from this world, and leaves this ledger
abbrev Leaves : List RetryLedgerEntry → M (Unit {0}) → World → Type 0
Leaves ledger m w = ((m w).0 ≡ returns tt) × (ledger_of (m w).1 ≡ ledger)

-- what it makes of the ledger wherever it starts
record Posts (f : List RetryLedgerEntry → List RetryLedgerEntry) (m : M (Unit {0})) : Type 0 where
  at : (w : World) → Leaves (f (ledger_of w)) m w

Posts-then :
    (f g : List RetryLedgerEntry → List RetryLedgerEntry) (m k : M (Unit {0}))
    → Posts f m
    → Posts g k
    → Posts (λ l. g (f l)) (m >> k)
unfolding ◌>>=◌
Posts-then f g m k h j = record {
  at = λ w.
      let (back, left) = h.at w in
      let (back', left') = j.at (m w).1 in
      subst (λ r. Leaves (g (f (ledger_of w))) (λ v. and_then r (λ _. k) v) (m w).1) (sym back)
        (back', left' ∙ ap g left);
}

-- an assignment to another field of the state
Posts-assign :
    (f : List RetryLedgerEntry → List RetryLedgerEntry) (u : ForemanState → ForemanState)
    → ((s : ForemanState) → (u s).retry_ledger ≡ f s.retry_ledger)
    → Posts f (assign u)
unfolding assign
Posts-assign f u h = record { at = λ w. (refl, h w.state) }

Posts-if :
    (f : List RetryLedgerEntry → List RetryLedgerEntry) (b : Bool) (m k : M (Unit {0}))
    → Posts f m
    → Posts f k
    → Posts f (if b then m else k)
Posts-if f true m k h j = h
Posts-if f false m k h j = j

abbrev same : List RetryLedgerEntry → List RetryLedgerEntry
same ledger = ledger

module _ (env : Env) (answers : (t : List Request) → env.done t ≡ value tt) where
  Posts-perform : (r : Request) → Posts same (perform env r env.done)
  unfolding perform
  Posts-perform r = record {
    at = λ w.
        rw (answers (r ∷ w.trace))
          (refl, ledger-deliver_all (env.signals (r ∷ w.trace)) (record w { trace = r ∷ w.trace }));
  }

  escalate-Posts : (b : String) → Posts same (escalate env b)
  unfolding escalate
  escalate-Posts b =
      Posts-then same same _ _
        (Posts-then same same _ _ (Posts-assign same _ (λ s. refl)) (Posts-perform _))
        (Posts-assign same _ (λ s. refl))

  module _ (config : ForemanInput) (b : String) where
    handle_failure-Posts :
        (result : DispatchResult) (at : ℕ)
        → Posts
            (λ l.
              (update_retry_ledger l b result config.max_retries_per_bead config.retry_backoff_ms
                at).1)
            (handle_failure env config b result at)
    unfolding handle_failure world assign ◌>>=◌
    handle_failure-Posts result at = record {
      at = λ w.
          let updated =
            update_retry_ledger (ledger_of w) b result config.max_retries_per_bead
              config.retry_backoff_ms at in
          (Posts-then (λ l. updated.1) same (assign (λ s. record s { retry_ledger = updated.1 }))
              (if not updated.0.exhausted && is_retryable result
                then assign (λ s. record s { phase = retrying })
                  >> perform env (update_bead_status b ready) env.done
                else escalate env b)
              (Posts-assign (λ l. updated.1) _ (λ s. refl))
              (Posts-if same _ _ _
                (Posts-then same same _ _ (Posts-assign same _ (λ s. refl)) (Posts-perform _))
                (escalate-Posts b))).at
            (record w { state = record w.state { phase = failing } });
    }

    handle_success-Posts :
        (o : DispatchOutcome) → Posts (λ l. remove_from_retry_ledger l b) (handle_success env b o)
    unfolding handle_success
    handle_success-Posts o =
        Posts-then same (λ l. remove_from_retry_ledger l b) _ _
          (Posts-then same same _ _ (Posts-assign same _ (λ s. refl)) (Posts-perform _))
          (Posts-assign (λ l. remove_from_retry_ledger l b) _ (λ s. refl))

    handle_result-Posts :
        (result : DispatchResult) (o : DispatchOutcome) (at : ℕ)
        → Posts
            (λ l. handle config.max_retries_per_bead config.retry_backoff_ms l b result at)
            (handle_result env config b result o at)
    unfolding handle_result handle
    handle_result-Posts completed o at = handle_success-Posts o
    handle_result-Posts (failed e r) o at = handle_failure-Posts (failed e r) at
    handle_result-Posts (timeout e t) o at = handle_failure-Posts (timeout e t) at
    handle_result-Posts (validation_failed m v) o at =
        handle_failure-Posts (validation_failed m v) at
    handle_result-Posts (budget_exceeded s l) o at = escalate-Posts b
    handle_result-Posts (aborted r) o at = Posts-perform _

  -- a dispatch with what is recorded of it
  handle_dispatch_outcome-Posts :
      (config : ForemanInput) (candidate : BeadCandidate) (result : DispatchResult)
      (o : DispatchOutcome) (at : ℕ)
      → Posts
          (λ l.
            handle config.max_retries_per_bead config.retry_backoff_ms l candidate.bead_id result
              at)
          (handle_dispatch_outcome env config candidate result o at)
  unfolding handle_dispatch_outcome
  handle_dispatch_outcome-Posts config candidate result o at =
      Posts-then same
        (λ l.
          handle config.max_retries_per_bead config.retry_backoff_ms l candidate.bead_id result at)
        _ _ (Posts-assign same _ (λ s. refl))
        (handle_result-Posts config candidate.bead_id result o at)

-- an outcome as it is handled
pub record Handled : Type 0 where
  pub candidate : BeadCandidate
  pub result : DispatchResult
  pub outcome : DispatchOutcome
  pub at : ℕ

-- the outcomes of the iterations, one after the other
pub handle_outcomes : Env → ForemanInput → List Handled → M (Unit {0})
handle_outcomes env config [] = pure tt
handle_outcomes env config (h ∷ hs) =
    handle_dispatch_outcome env config h.candidate h.result h.outcome h.at
    >> handle_outcomes env config hs

abbrev pub dispatched_of : List Handled → List Dispatched
dispatched_of [] = []
dispatched_of (h ∷ hs) =
    record { bead_id = h.candidate.bead_id; result = h.result; at = h.at } ∷ dispatched_of hs

module _ (env : Env) (answers : (t : List Request) → env.done t ≡ value tt)
    (config : ForemanInput) where
  handle_outcomes-Posts :
      (hs : List Handled)
      → Posts
          (λ l. handle_all config.max_retries_per_bead config.retry_backoff_ms l (dispatched_of hs))
          (handle_outcomes env config hs)
  unfolding handle_outcomes handle_all pure
  handle_outcomes-Posts [] = record { at = λ w. (refl, refl) }
  handle_outcomes-Posts (h ∷ hs) =
      Posts-then
        (λ l.
          handle config.max_retries_per_bead config.retry_backoff_ms l h.candidate.bead_id h.result
            h.at)
        (λ l. handle_all config.max_retries_per_bead config.retry_backoff_ms l (dispatched_of hs)) _
        _ (handle_dispatch_outcome-Posts env answers config h.candidate h.result h.outcome h.at)
        (handle_outcomes-Posts hs)

  -- Where the requests to close a bead and to set its status are answered, any sequence of outcomes is
  -- handled without an exception, signals between included. From an empty ledger, the entry of a bead
  -- then counts its failures, timeouts and failed validations since its last completion, where an
  -- exceeded budget or an abort changes nothing; no bead has two entries; and an entry is marked as
  -- exhausted exactly where that count has reached the retries allowed and one.
  pub handle_outcomes-counts :
      (hs : List Handled) (w : World) (b : String)
      → w.state.retry_ledger ≡ []
      → let run = handle_outcomes env config hs w in
        let after = run.1.state.retry_ledger in
        (run.0 ≡ returns tt)
        × (attempts_of (find_entry after b) ≡ failures b 0 (dispatched_of hs))
        × Distinct (beads_of after)
        × ((e : RetryLedgerEntry)
            → find_entry after b ≡ some e
            → e.exhausted ≡ leb (config.max_retries_per_bead + 1) (failures b 0 (dispatched_of hs)))
  handle_outcomes-counts hs w b empty =
      let (back, left) = (handle_outcomes-Posts hs).at w in
      let all = λ (l : List RetryLedgerEntry).
        handle_all config.max_retries_per_bead config.retry_backoff_ms l (dispatched_of hs) in
      let (count, distinct, marked) =
        subst
          (λ l.
            (attempts_of (find_entry l b) ≡ failures b 0 (dispatched_of hs))
            × Distinct (beads_of l)
            × ((e : RetryLedgerEntry)
                → find_entry l b ≡ some e
                → e.exhausted
                  ≡ leb (config.max_retries_per_bead + 1) (failures b 0 (dispatched_of hs))))
          (sym (left ∙ ap all empty))
          (handle_all-counts config.max_retries_per_bead config.retry_backoff_ms (dispatched_of hs)
            b) in
      (back, count, distinct, marked)
