-- ===== src/Foreman/Selection/Tests.antt =====
-- A selection of daemon/src/temporal/foreman.activities.ts from four items: one is skipped, one waits
-- for its retry, one may be retried and one is fresh with a higher priority.
use repomap_core.Prelude.{ℕ, ◌≡◌, refl, ◌≤◌, String, false, none, some, List, [], ◌∷◌, All}
use repomap_core.Foreman.Types.{p2, unknown, BeadCandidate, RetryLedgerEntry, timeout}
use repomap_core.Foreman.Ledger.{find_entry}
use repomap_core.Foreman.Selection.{
  BdReadyItem, to_bead_candidate, fill_sets, build_retry_selection_sets,
  classify_eligible_candidates, sort, insert, choose_bead,
}
use repomap_core.Foreman.Selection.Order.{IsIn}
use repomap_core.Foreman.Selection.Best.{eligible, rank, choose_bead_best}

abbrev item : String → String → BdReadyItem
item id priority = record {
  id = some id;
  title = some "fix";
  priority = some priority;
  labels = none;
  depends_on = none;
  estimated_complexity = none;
}

abbrev entry : String → ℕ → RetryLedgerEntry
entry bead_id due = record {
  bead_id = bead_id;
  attempts = 1;
  max_attempts = 3;
  last_attempt_at = 0;
  last_error = "timeout";
  last_result = timeout 1 1;
  next_retry_after = due;
  exhausted = false;
}

abbrev ledger : List RetryLedgerEntry
ledger = entry "waiting" 90 ∷ entry "retried" 10 ∷ []

abbrev items : List BdReadyItem
items = item "skipped" "P0" ∷ item "waiting" "P0" ∷ item "retried" "P2" ∷ item "new" "P0" ∷ []

abbrev retried : BeadCandidate
retried = record {
  bead_id = "retried";
  title = "fix";
  priority = p2;
  labels = [];
  depends_on = [];
  estimated_complexity = unknown;
  description = none;
}

chosen : choose_bead ledger ("skipped" ∷ []) 50 items ≡ some retried
unfolding choose_bead build_retry_selection_sets fill_sets classify_eligible_candidates
    to_bead_candidate sort insert find_entry
chosen = refl

nothing_chosen : choose_bead ledger ("skipped" ∷ []) 50 (item "skipped" "P0" ∷ []) ≡ none
unfolding choose_bead build_retry_selection_sets fill_sets classify_eligible_candidates
    to_bead_candidate sort
nothing_chosen = refl

choose_bead_best_example :
    IsIn retried (eligible ledger ("skipped" ∷ []) 50 items)
    × All (λ d. rank ledger retried ≤ rank ledger d) (eligible ledger ("skipped" ∷ []) 50 items)
choose_bead_best_example = choose_bead_best ledger ("skipped" ∷ []) 50 items retried chosen
