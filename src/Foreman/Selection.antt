-- ===== src/Foreman/Selection.antt =====
-- The selection of the next bead in daemon/src/temporal/foreman.activities.ts, from the items that
-- `bd ready --json` printed, and the aggregation of health. The fields of an item are as its type
-- declares them; a field that is absent is `none`.
pub mod Order
pub mod Kept
pub mod Best
mod Tests
use repomap_core.Prelude.{
  ℕ, String, Bool, true, false, ◌||◌, Option, none, some, List, [], ◌∷◌, ◌++◌, str_eq, ltb, leb,
  if◌then◌else◌, or_else, is_some, contains, add_new, set_of,
}
use repomap_core.Foreman.Types.{
  Priority, p0, p1, p2, p3, Complexity, trivial, small, medium, large, unknown, BeadCandidate,
  RetryLedgerEntry, SubsystemStatus, up, reduced, down, Subsystems, Overall, pass, degraded, fail,
}
use repomap_core.Foreman.Ledger.{find_entry}

pub record BdReadyItem : Type 0 where
  pub id : Option String
  pub title : Option String
  pub priority : Option String
  pub labels : Option (List String)
  pub depends_on : Option (List String)
  pub estimated_complexity : Option String

-- `VALID_PRIORITIES.has(raw.priority ?? "") ? raw.priority : "P3"`
abbrev pub valid_priority : String → Priority
valid_priority s =
    if str_eq s "P0" then p0 else if str_eq s "P1" then p1 else if str_eq s "P2" then p2 else p3

abbrev pub valid_complexity : String → Complexity
valid_complexity s =
    if str_eq s "trivial"
    then trivial
    else if str_eq s "small"
    then small
    else if str_eq s "medium"
    then medium
    else if str_eq s "large"
    then large
    else unknown

-- an absent and an empty string fail the test `!raw.id`
abbrev pub given : Option String → Bool
given none = false
given (some s) = if str_eq s "" then false else true

unfoldable pub to_bead_candidate : BdReadyItem → Option BeadCandidate
to_bead_candidate raw =
    if given raw.id
    then if given raw.title
      then some (record {
        bead_id = or_else raw.id "";
        title = or_else raw.title "";
        priority = valid_priority (or_else raw.priority "");
        labels = or_else raw.labels [];
        depends_on = or_else raw.depends_on [];
        estimated_complexity = valid_complexity (or_else raw.estimated_complexity "");
        description = none;
      })
      else none
    else none

abbrev pub priority_order : Priority → ℕ
priority_order p0 = 0
priority_order p1 = 1
priority_order p2 = 2
priority_order p3 = 3

-- the two sets that the loop over the ledger fills
unfoldable pub fill_sets :
    List RetryLedgerEntry → ℕ → List String → List String → List String × List String
fill_sets [] now skip_set pending = (skip_set, pending)
fill_sets (e ∷ ledger) now skip_set pending =
    fill_sets ledger now (if e.exhausted then add_new skip_set e.bead_id else skip_set) (
      if e.exhausted
      then pending
      else if ltb now e.next_retry_after
      then add_new pending e.bead_id
      else pending)

unfoldable pub build_retry_selection_sets :
    List RetryLedgerEntry → List String → ℕ → List String × List String
unfolding fill_sets
build_retry_selection_sets ledger skip_list now = fill_sets ledger now (set_of skip_list) []

-- the body of the loop over the items, before the items that follow
abbrev pub classify_one :
    List RetryLedgerEntry
    → List String
    → List String
    → Option BeadCandidate
    → List BeadCandidate × List BeadCandidate
    → List BeadCandidate × List BeadCandidate
classify_one ledger skip_set pending none rest = rest
classify_one ledger skip_set pending (some c) rest =
    if contains skip_set c.bead_id
    then rest
    else if contains pending c.bead_id
    then rest
    else if is_some (find_entry ledger c.bead_id)
    then (c ∷ rest.0, rest.1)
    else (rest.0, c ∷ rest.1)

-- `retryEligible` and `freshCandidates`
unfoldable pub classify_eligible_candidates :
    List RetryLedgerEntry
    → List String
    → List String
    → List BdReadyItem
    → List BeadCandidate × List BeadCandidate
unfolding to_bead_candidate find_entry
classify_eligible_candidates ledger skip_set pending [] = ([], [])
classify_eligible_candidates ledger skip_set pending (raw ∷ items) =
    classify_one ledger skip_set pending (to_bead_candidate raw)
      (classify_eligible_candidates ledger skip_set pending items)

-- `pool.sort(comparePriority)` is stable.
unfoldable pub insert : BeadCandidate → List BeadCandidate → List BeadCandidate
insert c [] = c ∷ []
insert c (d ∷ ds) =
    let rest = insert c ds in
    if leb (priority_order c.priority) (priority_order d.priority) then c ∷ d ∷ ds else d ∷ rest

unfoldable pub sort : List BeadCandidate → List BeadCandidate
unfolding insert
sort [] = []
sort (c ∷ cs) = insert c (sort cs)

-- `pool[0] ?? null`
abbrev pub head? : List BeadCandidate → Option BeadCandidate
head? [] = none
head? (c ∷ cs) = some c

-- retries whose time has come go before the others
abbrev pub pool_of : List BeadCandidate → List BeadCandidate → List BeadCandidate
pool_of [] fresh = fresh
pool_of (c ∷ cs) fresh = c ∷ cs

-- `selectNextBead` on the items that were parsed
unfoldable pub choose_bead :
    List RetryLedgerEntry → List String → ℕ → List BdReadyItem → Option BeadCandidate
unfolding build_retry_selection_sets classify_eligible_candidates sort
choose_bead ledger skip_list now items =
    let sets = build_retry_selection_sets ledger skip_list now in
    let found = classify_eligible_candidates ledger sets.0 sets.1 items in
    head? (sort (pool_of found.0 found.1))

abbrev is_down : SubsystemStatus → Bool
is_down down = true
is_down _ = false

abbrev is_reduced : SubsystemStatus → Bool
is_reduced reduced = true
is_reduced _ = false

-- `new Set(statuses).has(status)` over the five subsystems
abbrev pub some_status : (SubsystemStatus → Bool) → Subsystems → Bool
some_status has s =
    has s.kilo_serve.status
    || (has s.dolt.status || (has s.git.status || (has s.temporal.status || has s.beads.status)))

unfoldable pub aggregate_health : Subsystems → Overall
aggregate_health s =
    if some_status is_down s then fail else if some_status is_reduced s then degraded else pass
