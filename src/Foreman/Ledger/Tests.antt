-- ===== src/Foreman/Ledger/Tests.antt =====
-- The ring buffer and the retry ledger of daemon/src/temporal/foreman.workflows.ts on small runs.
use repomap_core.Prelude.{
  ℕ, zero, suc, ◌≡◌, ◌+◌, ◌-◌, none, List, [], ◌∷◌, ◌++◌, arith, length, drop,
}
use repomap_core.Foreman.Types.{DispatchOutcome, completed}
use repomap_core.Foreman.Ledger.{max_recent_outcomes}
use repomap_core.Foreman.Ledger.Outcomes.{push_all, push_all-drop}

abbrev outcome : ℕ → DispatchOutcome
outcome n = record {
  bead_id = "bd-1";
  workflow_id = "w";
  session_id = none;
  started_at = n;
  completed_at = n + 5;
  duration_ms = 5;
  total_cost = 0;
  tokens_input = 0;
  tokens_output = 0;
  result = completed;
  audit = none;
  attempt = 1;
}

-- n outcomes, the oldest first
abbrev outcomes : ℕ → List DispatchOutcome
outcomes zero = []
outcomes (suc n) = outcomes n ++ outcome n ∷ []

push_all-drop_example :
    push_all (outcomes 18) (outcomes 5)
    ≡ drop (length (outcomes 18 ++ outcomes 5) - max_recent_outcomes) (outcomes 18 ++ outcomes 5)
push_all-drop_example = push_all-drop (outcomes 18) (outcomes 5) (omega arith)
