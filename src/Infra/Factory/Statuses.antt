-- ===== src/Infra/Factory/Statuses.antt =====
-- What the report of a molecule's dispatch in daemon/src/infra/factory-dispatch.ts has to say of its
-- steps, by the answers of their dispatches.
use repomap_core.Prelude.{
  ℕ, suc, ◌+◌, ◌≡◌, String, Bool, true, false, List, [], ◌∷◌, ◌++◌, length, keep, if◌then◌else◌,
}
use repomap_core.Infra.Factory.{FactoryDispatchConfig, ExitCode, MoleculeStep}
use repomap_core.Infra.Factory.Molecule.{
  StepStatus, StepEntry, MoleculeDispatchResult, SingleReply, Dependencies, exit, outcome, threw,
  is_parent, step_config,
}

abbrev pub is_skipped : StepEntry → Bool
is_skipped e = elim e.status [ StepStatus.skipped ↦ true | _ ↦ false ]

abbrev pub is_failed : StepEntry → Bool
is_failed e = elim e.status [ StepStatus.failed ↦ true | _ ↦ false ]

-- dispatched or completed
abbrev pub is_sent : StepEntry → Bool
is_sent e = elim e.status [ StepStatus.dispatched ↦ true | StepStatus.completed ↦ true | _ ↦ false ]

abbrev pub entry_ids : List StepEntry → List String
entry_ids [] = []
entry_ids (e ∷ es) = e.step_id ∷ entry_ids es

abbrev pub step_ids : List MoleculeStep → List String
step_ids [] = []
step_ids (s ∷ ss) = s.id ∷ step_ids ss

abbrev pub skips : List StepEntry → List Bool
skips [] = []
skips (e ∷ es) = is_skipped e ∷ skips es

abbrev pub parents : List MoleculeStep → List Bool
parents [] = []
parents (s ∷ ss) = is_parent s ∷ parents ss

abbrev pub statuses : List StepEntry → List StepStatus
statuses [] = []
statuses (e ∷ es) = e.status ∷ statuses es

-- The status that a dispatched step has by the code of its dispatch: failed where it is not success, or
-- else sent or, where the dispatch was monitored, completed.
abbrev pub code_status : FactoryDispatchConfig → ExitCode → StepStatus
code_status config ExitCode.success =
    if config.no_monitor then StepStatus.dispatched else StepStatus.completed
code_status config _ = StepStatus.failed

-- The status by the answer: a dispatch that throws has failed.
abbrev pub status_for : FactoryDispatchConfig → SingleReply → StepStatus
status_for config (exit code) = code_status config code
status_for config (outcome o) = code_status config o.code
status_for config (threw error) = StepStatus.failed

-- the statuses of the steps by the answers, where the first step that is no parent has the answer n
unfoldable pub expected :
    {Num : Type 0}
    → Dependencies Num
    → FactoryDispatchConfig
    → ℕ
    → List MoleculeStep
    → List StepStatus
expected deps config n [] = []
expected deps config n (step ∷ steps) =
    let after_parent = expected deps config n steps in
    let after_child = expected deps config (suc n) steps in
    if is_parent step
    then StepStatus.skipped ∷ after_parent
    else status_for config (deps.run_single_dispatch n (step_config config step) true) ∷ after_child

-- The entries are those of the steps, in their order, with the statuses that are wanted; the skipped ones
-- are the parents; the counters count the entries by their status.
pub record Accounts (before r : MoleculeDispatchResult) (steps : List MoleculeStep)
    (wanted : List StepStatus) : Type 0 where
  pub entries : List StepEntry
  pub appended : r.steps ≡ before.steps ++ entries
  pub ids_kept : entry_ids entries ≡ step_ids steps
  pub parents_skipped : skips entries ≡ parents steps
  pub statuses_wanted : statuses entries ≡ wanted
  pub sent_counted : r.dispatched_steps ≡ before.dispatched_steps + length (keep is_sent entries)
  pub skipped_counted : r.skipped_steps ≡ before.skipped_steps + length (keep is_skipped entries)
  pub failed_counted : r.failed_steps ≡ before.failed_steps + length (keep is_failed entries)
  pub total_kept : r.total_steps ≡ before.total_steps
  pub formula_kept : r.molecule_id ≡ before.molecule_id
