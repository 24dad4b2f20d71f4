-- ===== src/Foreman/Ledger/Failures.antt =====
-- The retry ledger of daemon/src/temporal/foreman.workflows.ts over a sequence of outcomes, as the
-- `switch` of `handleDispatchOutcome` changes it.
use repomap_core.Prelude.{
  ℕ, ◌+◌, ◌≡◌, refl, sym, ap, ◌∙◌, String, some, List, [], ◌∷◌, arith, str_eq, eq_iff, leb,
  if◌then◌else◌, Distinct,
}
use repomap_core.Foreman.Types.{
  DispatchResult, completed, failed, timeout, validation_failed, budget_exceeded, aborted,
  RetryLedgerEntry,
}
use repomap_core.Foreman.Ledger.{
  find_entry, attempts_of, new_entry, update_retry_ledger, remove_from_retry_ledger,
}
use repomap_core.Foreman.Ledger.Retries.{
  beads_of, find_entry-put_entry, find_entry-remove, Distinct-put_entry, Distinct-remove,
}

-- a dispatch of a bead that came to a result, at some time
pub record Dispatched : Type 0 where
  pub bead_id : String
  pub result : DispatchResult
  pub at : ℕ

-- What an outcome does to the ledger: a completed bead is removed, a failure of one of three kinds is
-- recorded, and an exceeded budget or an abort leaves the ledger alone.
module _ (max_retries backoff_ms : ℕ) where
  unfoldable pub handle :
      List RetryLedgerEntry → String → DispatchResult → ℕ → List RetryLedgerEntry
  handle ledger b completed now = remove_from_retry_ledger ledger b
  handle ledger b (failed e r) now =
      (update_retry_ledger ledger b (failed e r) max_retries backoff_ms now).1
  handle ledger b (timeout e t) now =
      (update_retry_ledger ledger b (timeout e t) max_retries backoff_ms now).1
  handle ledger b (validation_failed m v) now =
      (update_retry_ledger ledger b (validation_failed m v) max_retries backoff_ms now).1
  handle ledger b (budget_exceeded c l) now = ledger
  handle ledger b (aborted r) now = ledger

  unfoldable pub handle_all : List RetryLedgerEntry → List Dispatched → List RetryLedgerEntry
  handle_all ledger [] = ledger
  handle_all ledger (d ∷ ds) = handle_all (handle ledger d.bead_id d.result d.at) ds

-- a failure more of a bead, where it is the one that is counted
abbrev pub one_more : String → String → ℕ → ℕ
one_more b c n = if str_eq c b then n + 1 else n

-- The failures, timeouts and failed validations of a bead since its last completion, counted from `n`.
abbrev pub failures_of : String → ℕ → String → DispatchResult → ℕ
failures_of b n c completed = if str_eq c b then 0 else n
failures_of b n c (failed e r) = one_more b c n
failures_of b n c (timeout e t) = one_more b c n
failures_of b n c (validation_failed m v) = one_more b c n
failures_of b n c (budget_exceeded s l) = n
failures_of b n c (aborted r) = n

abbrev pub failures : String → ℕ → List Dispatched → ℕ
failures b n [] = n
failures b n (d ∷ ds) = failures b (failures_of b n d.bead_id d.result) ds

module _ (max_retries backoff_ms : ℕ) where
  update-Distinct :
      (ledger : List RetryLedgerEntry) (c : String) (result : DispatchResult) (now : ℕ)
      → Distinct (beads_of ledger)
      → Distinct (beads_of (update_retry_ledger ledger c result max_retries backoff_ms now).1)
  unfolding update_retry_ledger
  update-Distinct ledger c result now d = Distinct-put_entry ledger _ d

  handle-Distinct :
      (ledger : List RetryLedgerEntry) (c : String) (result : DispatchResult) (now : ℕ)
      → Distinct (beads_of ledger)
      → Distinct (beads_of (handle max_retries backoff_ms ledger c result now))
  unfolding handle
  handle-Distinct ledger c completed now d = Distinct-remove ledger c d
  handle-Distinct ledger c (failed e r) now d = update-Distinct ledger c _ now d
  handle-Distinct ledger c (timeout e t) now d = update-Distinct ledger c _ now d
  handle-Distinct ledger c (validation_failed m v) now d = update-Distinct ledger c _ now d
  handle-Distinct ledger c (budget_exceeded s l) now d = d
  handle-Distinct ledger c (aborted r) now d = d

  new_entry_count :
      (ledger : List RetryLedgerEntry) (c : String) (result : DispatchResult) (now : ℕ)
      → let entry = new_entry ledger c result max_retries backoff_ms now in
        (entry.bead_id ≡ c)
        × (entry.attempts ≡ attempts_of (find_entry ledger c) + 1)
        × (entry.exhausted ≡ leb (max_retries + 1) entry.attempts)
  unfolding new_entry
  new_entry_count ledger c result now = (refl, refl, refl)

  attempts-update :
      (ledger : List RetryLedgerEntry) (c : String) (result : DispatchResult) (now : ℕ) (b : String)
      → attempts_of
          (find_entry (update_retry_ledger ledger c result max_retries backoff_ms now).1 b)
        ≡ one_more b c (attempts_of (find_entry ledger b))
  unfolding update_retry_ledger
  attempts-update ledger c result now b =
      let entry = new_entry ledger c result max_retries backoff_ms now in
      let count = new_entry_count ledger c result now in
      rw (find_entry-put_entry ledger entry b) (ground (arith, eq_iff c b, count.0, count.1))

  attempts-handle :
      (ledger : List RetryLedgerEntry) (c : String) (result : DispatchResult) (now : ℕ) (b : String)
      → Distinct (beads_of ledger)
      → attempts_of (find_entry (handle max_retries backoff_ms ledger c result now) b)
        ≡ failures_of b (attempts_of (find_entry ledger b)) c result
  unfolding handle
  attempts-handle ledger c completed now b d = ground (arith, find_entry-remove ledger c b d)
  attempts-handle ledger c (failed e r) now b d = attempts-update ledger c _ now b
  attempts-handle ledger c (timeout e t) now b d = attempts-update ledger c _ now b
  attempts-handle ledger c (validation_failed m v) now b d = attempts-update ledger c _ now b
  attempts-handle ledger c (budget_exceeded s l) now b d = refl
  attempts-handle ledger c (aborted r) now b d = refl

  -- the mark of every entry agrees with its count
  abbrev pub IsMarked : List RetryLedgerEntry → Type 0
  IsMarked ledger =
      (b : String) (e : RetryLedgerEntry)
      → find_entry ledger b ≡ some e
      → e.exhausted ≡ leb (max_retries + 1) e.attempts

  update-IsMarked :
      (ledger : List RetryLedgerEntry) (c : String) (result : DispatchResult) (now : ℕ)
      → IsMarked ledger
      → IsMarked (update_retry_ledger ledger c result max_retries backoff_ms now).1
  unfolding update_retry_ledger
  update-IsMarked ledger c result now m b e h =
      let entry = new_entry ledger c result max_retries backoff_ms now in
      let count = new_entry_count ledger c result now in
      ground (arith, find_entry-put_entry ledger entry b, count.2, m b e)

  remove-IsMarked :
      (ledger : List RetryLedgerEntry) (c : String)
      → Distinct (beads_of ledger)
      → IsMarked ledger
      → IsMarked (remove_from_retry_ledger ledger c)
  remove-IsMarked ledger c d m b e h = ground (arith, find_entry-remove ledger c b d, m b e)

  handle-IsMarked :
      (ledger : List RetryLedgerEntry) (c : String) (result : DispatchResult) (now : ℕ)
      → Distinct (beads_of ledger)
      → IsMarked ledger
      → IsMarked (handle max_retries backoff_ms ledger c result now)
  unfolding handle
  handle-IsMarked ledger c completed now d m = remove-IsMarked ledger c d m
  handle-IsMarked ledger c (failed x r) now d m = update-IsMarked ledger c _ now m
  handle-IsMarked ledger c (timeout x t) now d m = update-IsMarked ledger c _ now m
  handle-IsMarked ledger c (validation_failed x v) now d m = update-IsMarked ledger c _ now m
  handle-IsMarked ledger c (budget_exceeded s l) now d m = m
  handle-IsMarked ledger c (aborted r) now d m = m

  handle_all-ledger :
      (ledger : List RetryLedgerEntry) (ds : List Dispatched) (b : String)
      → Distinct (beads_of ledger)
      → IsMarked ledger
      → let after = handle_all max_retries backoff_ms ledger ds in
        (attempts_of (find_entry after b) ≡ failures b (attempts_of (find_entry ledger b)) ds)
        × Distinct (beads_of after)
        × IsMarked after
  unfolding handle_all
  handle_all-ledger ledger [] b d m = (refl, d, m)
  handle_all-ledger ledger (x ∷ ds) b d m =
      let next = handle max_retries backoff_ms ledger x.bead_id x.result x.at in
      let (count, distinct, marked) =
        handle_all-ledger next ds b (handle-Distinct ledger x.bead_id x.result x.at d)
          (handle-IsMarked ledger x.bead_id x.result x.at d m) in
      (
        count
            ∙ ap (λ (n : ℕ). failures b n ds) (attempts-handle ledger x.bead_id x.result x.at b d),
        distinct,
        marked,
      )

  -- from an empty ledger
  pub handle_all-counts :
      (ds : List Dispatched) (b : String)
      → let after = handle_all max_retries backoff_ms [] ds in
        (attempts_of (find_entry after b) ≡ failures b 0 ds)
        × Distinct (beads_of after)
        × ((e : RetryLedgerEntry)
            → find_entry after b ≡ some e
            → e.exhausted ≡ leb (max_retries + 1) (failures b 0 ds))
  unfolding find_entry
  handle_all-counts ds b =
      let (count, distinct, marked) = handle_all-ledger [] ds b tt (λ c e h. cc) in
      (
        count,
        distinct,
        λ e h. marked b e h ∙ ap (leb (max_retries + 1)) (ap attempts_of (sym h) ∙ count),
      )
