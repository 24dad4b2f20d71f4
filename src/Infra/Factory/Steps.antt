-- ===== src/Infra/Factory/Steps.antt =====
-- What a molecule's dispatch in daemon/src/infra/factory-dispatch.ts reports of its steps.
use mathlib.Core.List.{append_assoc, append-nil}
use repomap_core.Prelude.{
  ℕ, suc, ◌+◌, ◌≡◌, refl, sym, ◌∙◌, ap, ap₂, arith, String, Bool, true, false, List, [], ◌∷◌, ◌++◌,
  length, keep, Option, if◌then◌else◌, subst,
}
use repomap_core.Infra.Factory.{FactoryDispatchConfig, ExitCode, MoleculeStep}
use repomap_core.Infra.Factory.Molecule.{
  StepStatus, StepEntry, StepError, StepOutcome, MoleculeDispatchResult, SingleReply, Dependencies,
  exit, outcome, threw, on_code, entry_of, mode_of, card_of, on_reply, skip_step, is_parent,
  step_config, dispatch_molecule_steps, no_details, extract_outcome_details,
}
use repomap_core.Infra.Factory.Statuses.{
  Accounts, is_sent, is_skipped, is_failed, code_status, status_for, expected,
}

abbrev details_of : ExitCode → Option String → Option String → Option ℕ → StepOutcome
details_of code session_id result elapsed = record {
  code = code;
  session_id = session_id;
  result = result;
  elapsed_seconds = elapsed;
}

-- nothing was done yet
none-Accounts : (r : MoleculeDispatchResult) → Accounts r r [] []
none-Accounts r = record {
  entries = [];
  appended = sym (append-nil r.steps);
  ids_kept = refl;
  parents_skipped = refl;
  statuses_wanted = refl;
  sent_counted = omega arith;
  skipped_counted = omega arith;
  failed_counted = omega arith;
  total_kept = refl;
  formula_kept = refl;
}

-- an entry that a step adds
record Adds (r r1 : MoleculeDispatchResult) (step : MoleculeStep) (status : StepStatus)
    : Type 0 where
  entry : StepEntry
  added : r1.steps ≡ r.steps ++ entry ∷ []
  id_kept : entry.step_id ≡ step.id
  skip_kept : is_skipped entry ≡ is_parent step
  status_kept : entry.status ≡ status
  sent : r1.dispatched_steps ≡ r.dispatched_steps + length (keep is_sent (entry ∷ []))
  skipped : r1.skipped_steps ≡ r.skipped_steps + length (keep is_skipped (entry ∷ []))
  failed : r1.failed_steps ≡ r.failed_steps + length (keep is_failed (entry ∷ []))
  total : r1.total_steps ≡ r.total_steps
  molecule : r1.molecule_id ≡ r.molecule_id

module _ (config : FactoryDispatchConfig) (step : MoleculeStep) where
  skip_step-Adds :
      (r : MoleculeDispatchResult)
      → is_parent step ≡ true
      → Adds r (skip_step config step r) step StepStatus.skipped
  unfolding skip_step
  skip_step-Adds r h = record {
    entry = _;
    added = refl;
    id_kept = refl;
    skip_kept = sym h;
    status_kept = refl;
    sent = omega arith;
    skipped = omega arith;
    failed = omega arith;
    total = refl;
    molecule = refl;
  }

  module _ (r : MoleculeDispatchResult) (h : is_parent step ≡ false) where
    failed_entry :
        (r1 : MoleculeDispatchResult) (details : StepOutcome) (error : Option StepError)
        → r1 ≡ record r {
          failed_steps = r.failed_steps + 1;
          steps =
              r.steps
              ++ entry_of step
                  (mode_of config step)
                  (card_of config step)
                  StepStatus.failed
                  details
                  error
                ∷ [];
        }
        → Adds r r1 step StepStatus.failed
    failed_entry r1 details error e =
        subst (λ r1. Adds r r1 step StepStatus.failed) (sym e)
          (record {
            entry = _;
            added = refl;
            id_kept = refl;
            skip_kept = sym h;
            status_kept = refl;
            sent = omega arith;
            skipped = omega arith;
            failed = omega arith;
            total = refl;
            molecule = refl;
          })

    coded-Adds :
        (code : ExitCode) (session_id result : Option String) (elapsed : Option ℕ)
        → Adds r
            (on_code config step (details_of code session_id result elapsed) r)
            step
            (code_status config code)
    unfolding on_code
    coded-Adds ExitCode.success session_id result elapsed = record {
      entry = _;
      added = refl;
      id_kept = refl;
      skip_kept = ground (arith, h);
      status_kept = refl;
      sent = ground arith;
      skipped = ground arith;
      failed = ground arith;
      total = refl;
      molecule = refl;
    }
    coded-Adds ExitCode.general_error session_id result elapsed =
        failed_entry _ (details_of ExitCode.general_error session_id result elapsed) _ refl
    coded-Adds ExitCode.health_check_failed session_id result elapsed =
        failed_entry _ (details_of ExitCode.health_check_failed session_id result elapsed) _ refl
    coded-Adds ExitCode.session_creation_failed session_id result elapsed =
        failed_entry _ (details_of ExitCode.session_creation_failed session_id result elapsed) _
          refl
    coded-Adds ExitCode.prompt_dispatch_failed session_id result elapsed =
        failed_entry _ (details_of ExitCode.prompt_dispatch_failed session_id result elapsed) _ refl
    coded-Adds ExitCode.timeout session_id result elapsed =
        failed_entry _ (details_of ExitCode.timeout session_id result elapsed) _ refl
    coded-Adds ExitCode.no_response session_id result elapsed =
        failed_entry _ (details_of ExitCode.no_response session_id result elapsed) _ refl

    on_code-Adds :
        (details : StepOutcome)
        → Adds r (on_code config step details r) step (code_status config details.code)
    on_code-Adds details =
        coded-Adds details.code details.session_id details.result details.elapsed_seconds

    on_reply-Adds :
        (reply : SingleReply) → Adds r (on_reply config step reply r) step (status_for config reply)
    unfolding on_reply
    on_reply-Adds (exit code) = on_code-Adds (no_details code)
    on_reply-Adds (outcome o) = on_code-Adds (extract_outcome_details o)
    on_reply-Adds (threw error) = failed_entry _ (no_details ExitCode.general_error) _ refl

-- two conditionals on one test
if_both :
    {A B : Type 0} (P : A → B → Type 0) (b : Bool) (x y : A) (u v : B)
    → (b ≡ true → P x u)
    → (b ≡ false → P y v)
    → P (if b then x else y) (if b then u else v)
if_both P true x y u v h k = h refl
if_both P false x y u v h k = k refl

-- counting an entry before the others
one_more :
    (p : StepEntry → Bool) (e : StepEntry) (es : List StepEntry) (a b c : ℕ)
    → b ≡ a + length (keep p (e ∷ []))
    → c ≡ b + length (keep p es)
    → c ≡ a + length (keep p (e ∷ es))
one_more p e es a b c h k = ground arith

-- a step, and then the others
then-Accounts :
    (r r1 r2 : MoleculeDispatchResult) (step : MoleculeStep) (steps : List MoleculeStep)
    (status : StepStatus) (wanted : List StepStatus)
    → Adds r r1 step status
    → Accounts r1 r2 steps wanted
    → Accounts r r2 (step ∷ steps) (status ∷ wanted)
then-Accounts r r1 r2 step steps status wanted a t = record {
  entries = a.entry ∷ t.entries;
  appended =
      t.appended
      ∙ ap (λ es. es ++ t.entries) a.added
      ∙ append_assoc r.steps (a.entry ∷ []) t.entries;
  ids_kept = ap₂ ◌∷◌ a.id_kept t.ids_kept;
  parents_skipped = ap₂ ◌∷◌ a.skip_kept t.parents_skipped;
  statuses_wanted = ap₂ ◌∷◌ a.status_kept t.statuses_wanted;
  sent_counted = one_more is_sent a.entry t.entries _ _ _ a.sent t.sent_counted;
  skipped_counted = one_more is_skipped a.entry t.entries _ _ _ a.skipped t.skipped_counted;
  failed_counted = one_more is_failed a.entry t.entries _ _ _ a.failed t.failed_counted;
  total_kept = t.total_kept ∙ a.total;
  formula_kept = t.formula_kept ∙ a.molecule;
}

module _ {Num : Type 0} (deps : Dependencies Num) (config : FactoryDispatchConfig) where
  pub dispatch_molecule_steps-Accounts :
      (n : ℕ) (steps : List MoleculeStep) (r : MoleculeDispatchResult)
      → Accounts r
          (dispatch_molecule_steps deps config n steps r)
          steps
          (expected deps config n steps)
  unfolding dispatch_molecule_steps expected
  dispatch_molecule_steps-Accounts n [] r = none-Accounts r
  dispatch_molecule_steps-Accounts n (step ∷ steps) r =
      if_both (λ r2 wanted. Accounts r r2 (step ∷ steps) wanted) (is_parent step) _ _ _ _
        (λ parent.
          then-Accounts r (skip_step config step r) _ step steps _ _
            (skip_step-Adds config step r parent)
            (dispatch_molecule_steps-Accounts n steps (skip_step config step r)))
        (λ child.
          let reply = deps.run_single_dispatch n (step_config config step) true in
          then-Accounts r (on_reply config step reply r) _ step steps _ _
            (on_reply-Adds config step r child reply)
            (dispatch_molecule_steps-Accounts (suc n) steps (on_reply config step reply r)))
