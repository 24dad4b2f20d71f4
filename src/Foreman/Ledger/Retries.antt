-- ===== src/Foreman/Ledger/Retries.antt =====
-- The retry ledger of daemon/src/temporal/foreman.workflows.ts: one entry for a bead, and what an
-- update and a removal change.
use repomap_core.Prelude.{
  ◌≡◌, refl, String, true, false, none, some, List, [], ◌∷◌, arith, str_eq, eq_iff, if◌then◌else◌,
  contains, Distinct,
}
use repomap_core.Foreman.Types.{RetryLedgerEntry}
use repomap_core.Foreman.Ledger.{find_entry, put_entry, remove_from_retry_ledger}

abbrev pub beads_of : List RetryLedgerEntry → List String
beads_of [] = []
beads_of (e ∷ ledger) = e.bead_id ∷ beads_of ledger

pub find_entry-put_entry :
    (ledger : List RetryLedgerEntry) (entry : RetryLedgerEntry) (b : String)
    → find_entry (put_entry ledger entry) b
      ≡ (if str_eq entry.bead_id b then some entry else find_entry ledger b)
unfolding find_entry put_entry
find_entry-put_entry [] entry b = refl
find_entry-put_entry (e ∷ ledger) entry b = ground (
  arith,
  eq_iff e.bead_id entry.bead_id,
  eq_iff entry.bead_id b,
  eq_iff e.bead_id b,
  find_entry-put_entry ledger entry b,
)

contains-put_entry :
    (ledger : List RetryLedgerEntry) (entry : RetryLedgerEntry) (b : String)
    → contains (beads_of (put_entry ledger entry)) b ≡ true
    → contains (beads_of ledger) b ≡ false
    → entry.bead_id ≡ b
unfolding put_entry
contains-put_entry [] entry b h k = ground (arith, eq_iff entry.bead_id b)
contains-put_entry (e ∷ ledger) entry b h k = ground (
  arith,
  eq_iff e.bead_id entry.bead_id,
  eq_iff entry.bead_id b,
  eq_iff e.bead_id b,
  contains-put_entry ledger entry b,
)

pub Distinct-put_entry :
    (ledger : List RetryLedgerEntry) (entry : RetryLedgerEntry)
    → Distinct (beads_of ledger)
    → Distinct (beads_of (put_entry ledger entry))
unfolding put_entry
Distinct-put_entry [] entry d = (refl, tt)
Distinct-put_entry (e ∷ ledger) entry d = ground (
  arith,
  eq_iff e.bead_id entry.bead_id,
  contains-put_entry ledger entry e.bead_id,
  Distinct-put_entry ledger entry d.1,
)

find_entry-absent :
    (ledger : List RetryLedgerEntry) (b : String)
    → contains (beads_of ledger) b ≡ false
    → find_entry ledger b ≡ none
unfolding find_entry
find_entry-absent [] b h = refl
find_entry-absent (e ∷ ledger) b h = ground (arith, find_entry-absent ledger b)

pub find_entry-remove :
    (ledger : List RetryLedgerEntry) (b c : String)
    → Distinct (beads_of ledger)
    → find_entry (remove_from_retry_ledger ledger b) c
      ≡ (if str_eq b c then none else find_entry ledger c)
unfolding find_entry remove_from_retry_ledger
find_entry-remove [] b c d = ground arith
find_entry-remove (e ∷ ledger) b c d = ground (
  arith,
  eq_iff e.bead_id b,
  eq_iff e.bead_id c,
  eq_iff b c,
  find_entry-absent ledger c,
  find_entry-remove ledger b c d.1,
)

contains-remove :
    (ledger : List RetryLedgerEntry) (b c : String)
    → contains (beads_of ledger) c ≡ false
    → contains (beads_of (remove_from_retry_ledger ledger b)) c ≡ false
unfolding remove_from_retry_ledger
contains-remove [] b c h = refl
contains-remove (e ∷ ledger) b c h = ground (arith, contains-remove ledger b c)

pub Distinct-remove :
    (ledger : List RetryLedgerEntry) (b : String)
    → Distinct (beads_of ledger)
    → Distinct (beads_of (remove_from_retry_ledger ledger b))
unfolding remove_from_retry_ledger
Distinct-remove [] b d = tt
Distinct-remove (e ∷ ledger) b d =
    ground (arith, contains-remove ledger b e.bead_id, Distinct-remove ledger b d.1)
