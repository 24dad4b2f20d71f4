-- ===== src/Foreman/Ledger/Outcomes.antt =====
-- The ring buffer `recentOutcomes` of daemon/src/temporal/foreman.workflows.ts.
use mathlib.Core.List.{append-nil, append_assoc}
use repomap_core.Prelude.{
  ◌-◌, ◌≤◌, ◌≡◌, List, [], ◌∷◌, ◌++◌, arith, length, length-append, length-drop, drop,
  drop-excess_short, drop-excess-append, sym, ap, ◌∙◌,
}
use repomap_core.Foreman.Types.{DispatchOutcome}
use repomap_core.Foreman.Ledger.{max_recent_outcomes, push_outcome}

-- a history of outcomes, pushed one by one
unfoldable pub push_all : List DispatchOutcome → List DispatchOutcome → List DispatchOutcome
push_all outcomes [] = outcomes
push_all outcomes (o ∷ os) = push_all (push_outcome outcomes o) os

pub length-push_outcome :
    (outcomes : List DispatchOutcome) (o : DispatchOutcome)
    → length outcomes ≤ max_recent_outcomes
    → length (push_outcome outcomes o) ≤ max_recent_outcomes
unfolding push_outcome
length-push_outcome outcomes o h = ground (
  arith,
  length-append outcomes (o ∷ []),
  length-drop (length (outcomes ++ o ∷ []) - max_recent_outcomes) (outcomes ++ o ∷ []),
)

push_outcome-drop :
    (outcomes : List DispatchOutcome) (o : DispatchOutcome)
    → push_outcome outcomes o
      ≡ drop (length (outcomes ++ o ∷ []) - max_recent_outcomes) (outcomes ++ o ∷ [])
unfolding push_outcome
push_outcome-drop outcomes o =
    ground (arith, drop-excess_short max_recent_outcomes (outcomes ++ o ∷ []))

-- However many outcomes are pushed, the buffer holds the last 20 of all that it held and was given,
-- in their order, where it held at most 20 before.
pub push_all-drop :
    (outcomes os : List DispatchOutcome)
    → length outcomes ≤ max_recent_outcomes
    → push_all outcomes os ≡ drop (length (outcomes ++ os) - max_recent_outcomes) (outcomes ++ os)
unfolding push_all
push_all-drop outcomes [] h = rw append-nil (sym (drop-excess_short max_recent_outcomes outcomes h))
push_all-drop outcomes (o ∷ os) h =
    push_all-drop (push_outcome outcomes o) os (length-push_outcome outcomes o h)
    ∙ ap (λ l. drop (length (l ++ os) - max_recent_outcomes) (l ++ os))
        (push_outcome-drop outcomes o)
    ∙ drop-excess-append max_recent_outcomes (outcomes ++ o ∷ []) os
    ∙ ap (λ l. drop (length l - max_recent_outcomes) l) (append_assoc outcomes (o ∷ []) os)
