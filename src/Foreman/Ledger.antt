-- ===== src/Foreman/Ledger.antt =====
-- The ring buffer of outcomes, the retry decisions and the retry ledger of
-- daemon/src/temporal/foreman.workflows.ts. The ledger is mutated in place there; here the functions
-- return the new one.
mod Tests
pub mod Outcomes
pub mod Retries
pub mod Failures
use Prim.Native.String
use repomap_core.Prelude.{
  ℕ, zero, suc, ◌+◌, ◌-◌, String, Bool, true, false, ◌&&◌, ◌||◌, Option, none, some, List, [], ◌∷◌,
  ◌++◌, str_eq, ltb, leb, if◌then◌else◌, or_else, length, drop,
}
use repomap_core.Prelude.Text.{codes, to_lower, includes}
use repomap_core.Foreman.Types.{
  DispatchResult, completed, failed, validation_failed, budget_exceeded, timeout, aborted,
  AgentStatus, agent_completed, agent_failed, agent_aborted, agent_validation_failed,
  agent_budget_exceeded, agent_other, AgentTaskResult, DispatchOutcome, RetryLedgerEntry,
}

abbrev pub max_recent_outcomes : ℕ
max_recent_outcomes = 20

unfoldable pub push_outcome : List DispatchOutcome → DispatchOutcome → List DispatchOutcome
push_outcome outcomes outcome =
    let next = outcomes ++ outcome ∷ [] in
    if ltb max_recent_outcomes (length next)
    then drop (length next - max_recent_outcomes) next
    else next

unfoldable pub is_retryable : DispatchResult → Bool
is_retryable (timeout elapsed_ms timeout_ms) = true
is_retryable (failed error retryable) = retryable
is_retryable (validation_failed missing violations) = true
is_retryable (budget_exceeded actual_cost budget) = false
is_retryable (aborted reason) = false
is_retryable completed = false

unfoldable pub classify_error_retryability : String → Bool
unfolding to_lower includes
classify_error_retryability error =
    let lower = to_lower (codes error) in
    let has = λ (part : String). includes lower (codes part) in
    if has "timeout" || has "timed out"
    then true
    else if has "econnrefused" || has "enotfound"
    then true
    else if has "session" && has "not found"
    then true
    else if has "rate limit" || has "429"
    then true
    else false

dispatch_result : AgentStatus → AgentTaskResult → DispatchResult
dispatch_result agent_completed r = completed
dispatch_result agent_failed r =
    let err = or_else r.error "unknown error" in failed err (classify_error_retryability err)
dispatch_result agent_aborted r = aborted (or_else r.error "aborted")
dispatch_result agent_validation_failed r = validation_failed [] []
dispatch_result agent_budget_exceeded r = budget_exceeded r.total_cost 0
dispatch_result (agent_other status) r = failed (String.◌++◌ "unknown status: " status) false

-- the `switch` on the status
unfoldable pub to_dispatch_result : AgentTaskResult → DispatchResult
unfolding dispatch_result
to_dispatch_result r = dispatch_result r.status r

-- `ledger.find((e) => e.beadId === beadId)`
unfoldable pub find_entry : List RetryLedgerEntry → String → Option RetryLedgerEntry
find_entry [] bead_id = none
find_entry (e ∷ ledger) bead_id =
    if str_eq e.bead_id bead_id then some e else find_entry ledger bead_id

-- `Object.assign(existing, entry)`, or a push where there is none
unfoldable pub put_entry : List RetryLedgerEntry → RetryLedgerEntry → List RetryLedgerEntry
put_entry [] entry = entry ∷ []
put_entry (e ∷ ledger) entry =
    if str_eq e.bead_id entry.bead_id then entry ∷ ledger else e ∷ put_entry ledger entry

-- `existing?.attempts ?? 0`
abbrev pub attempts_of : Option RetryLedgerEntry → ℕ
attempts_of none = 0
attempts_of (some e) = e.attempts

-- `"error" in result ? result.error : result.kind`
abbrev pub error_of : DispatchResult → String
error_of (failed error retryable) = error
error_of completed = "completed"
error_of (validation_failed missing violations) = "validation_failed"
error_of (budget_exceeded actual_cost budget) = "budget_exceeded"
error_of (timeout elapsed_ms timeout_ms) = "timeout"
error_of (aborted reason) = "aborted"

unfoldable pub new_entry :
    List RetryLedgerEntry → String → DispatchResult → ℕ → ℕ → ℕ → RetryLedgerEntry
new_entry ledger bead_id result max_retries backoff_ms now =
    let attempts = attempts_of (find_entry ledger bead_id) + 1 in
    let max_attempts = max_retries + 1 in
    record {
      bead_id = bead_id;
      attempts = attempts;
      max_attempts = max_attempts;
      last_attempt_at = now;
      last_error = error_of result;
      last_result = result;
      next_retry_after = now + backoff_ms;
      exhausted = leb max_attempts attempts;
    }

-- the updated entry, and the ledger with it
unfoldable pub update_retry_ledger :
    List RetryLedgerEntry
    → String
    → DispatchResult
    → ℕ
    → ℕ
    → ℕ
    → RetryLedgerEntry × List RetryLedgerEntry
unfolding new_entry
update_retry_ledger ledger bead_id result max_retries backoff_ms now =
    let entry = new_entry ledger bead_id result max_retries backoff_ms now in
    (entry, put_entry ledger entry)

unfoldable pub remove_from_retry_ledger : List RetryLedgerEntry → String → List RetryLedgerEntry
remove_from_retry_ledger [] bead_id = []
remove_from_retry_ledger (e ∷ ledger) bead_id =
    if str_eq e.bead_id bead_id then ledger else e ∷ remove_from_retry_ledger ledger bead_id
