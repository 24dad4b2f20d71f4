-- ===== src/Infra/Factory/Report.antt =====
-- The exit code and the report of a molecule's dispatch in daemon/src/infra/factory-dispatch.ts.
use repomap_core.Prelude.{
  ℕ, suc, ◌+◌, ◌≡◌, ◌⊎◌, ◌↔◌, inl, inr, refl, ap, ◌∙◌, arith, String, Bool, true, false, List, [],
  ◌∷◌, Option, none, some, length, keep,
}
use repomap_core.Prelude.Json.{Json}
use repomap_core.Infra.Factory.{
  FactoryDispatchConfig, ExitCode, MoleculeStep, resolve_effective_steps, build_cook_command,
  build_pour_command, build_show_command, parse_cook_proto_id, parse_molecule_id,
}
use repomap_core.Infra.Factory.Molecule.{
  StepEntry, MoleculeDispatchResult, Dependencies, BdPipelineResult, Attempt, got, gave_up, ◌>>=◌,
  required, required_object, run_bd_pipeline, dispatch_all, exit_of, no_result,
  run_molecule_dispatch, finish,
}
use repomap_core.Infra.Factory.Statuses.{
  Accounts, expected, is_sent, is_skipped, is_failed, entry_ids, step_ids,
}
use repomap_core.Infra.Factory.Steps.{dispatch_molecule_steps-Accounts}

-- an entry has one of the three kinds of status
tally :
    (es : List StepEntry)
    → length es
      ≡ length (keep is_sent es) + length (keep is_skipped es) + length (keep is_failed es)
tally [] = omega arith
tally (e ∷ es) = ground (arith, tally es)

length-entry_ids : (es : List StepEntry) → length (entry_ids es) ≡ length es
length-entry_ids [] = refl
length-entry_ids (e ∷ es) = ap suc (length-entry_ids es)

length-step_ids : (ss : List MoleculeStep) → length (step_ids ss) ≡ length ss
length-step_ids [] = refl
length-step_ids (s ∷ ss) = ap suc (length-step_ids ss)

-- a pipeline that gives up does so with a general error
data FailsGenerally {A : Type 0} : Attempt A → Type 0 where
  arrived : (a : A) → FailsGenerally (got a)
  failed : FailsGenerally (gave_up ExitCode.general_error)

then_FailsGenerally :
    {A B : Type 0} (o : Option A) (f : A → Attempt B)
    → ((a : A) → FailsGenerally (f a))
    → FailsGenerally (required o >>= f)
then_FailsGenerally none f k = failed
then_FailsGenerally (some a) f k = k a

object_FailsGenerally :
    {Num B : Type 0} (j : Json Num) (f : Json Num → Attempt B)
    → ((a : Json Num) → FailsGenerally (f a))
    → FailsGenerally (required_object j >>= f)
object_FailsGenerally (Json.obj fs) f k = k (Json.obj fs)
object_FailsGenerally (Json.arr xs) f k = k (Json.arr xs)
object_FailsGenerally Json.null f k = failed
object_FailsGenerally (Json.bool b) f k = failed
object_FailsGenerally (Json.num x) f k = failed
object_FailsGenerally (Json.str s) f k = failed

code_of_failed :
    {A : Type 0} {x : Attempt A} {code : ExitCode}
    → FailsGenerally x
    → x ≡ gave_up code
    → code ≡ ExitCode.general_error
code_of_failed (arrived a) e = cc
code_of_failed failed e = cc

module _ {Num : Type 0} (deps : Dependencies Num) (config : FactoryDispatchConfig) (n : ℕ) where
  abbrev cook : Bool → List String
  cook persist = build_cook_command config.formula config.vars persist

  run_bd_pipeline-FailsGenerally : FailsGenerally (run_bd_pipeline deps config n)
  unfolding run_bd_pipeline
  run_bd_pipeline-FailsGenerally = then_FailsGenerally (deps.exec_bd n (cook false)) _ λ cooked.
      then_FailsGenerally (deps.exec_bd (n + 1) (cook true)) _ λ persisted.
        then_FailsGenerally (parse_cook_proto_id persisted) _ λ proto_id.
          then_FailsGenerally (deps.exec_bd (n + 2) (build_pour_command proto_id config.vars)) _
            λ poured. then_FailsGenerally (parse_molecule_id poured) _ λ molecule_id.
              then_FailsGenerally (deps.exec_bd (n + 3) (build_show_command molecule_id)) _
                λ answer. object_FailsGenerally answer _ λ showed. arrived _

  -- the steps that are dispatched
  abbrev pub steps_of : BdPipelineResult Num → List MoleculeStep
  steps_of p = resolve_effective_steps p.cooked_output p.poured_output p.showed_output p.proto_id

  -- what is reported of a pipeline that came to its end
  pub record IsReport (p : BdPipelineResult Num) (r : MoleculeDispatchResult) : Type 0 where
    pub accounts :
        Accounts
          (no_result config p.molecule_id (length (steps_of p)))
          r
          (steps_of p)
          (expected deps config (n + 4) (steps_of p))
    pub adds_up : r.total_steps ≡ r.dispatched_steps + r.skipped_steps + r.failed_steps
    pub succeeds : (exit_of r ≡ ExitCode.success) ↔ (r.failed_steps ≡ 0)

  adds_up_of :
      (p : BdPipelineResult Num) (r : MoleculeDispatchResult)
      → Accounts
          (no_result config p.molecule_id (length (steps_of p)))
          r
          (steps_of p)
          (expected deps config (n + 4) (steps_of p))
      → r.total_steps ≡ r.dispatched_steps + r.skipped_steps + r.failed_steps
  adds_up_of p r a = omega (
    arith,
    a.total_kept,
    a.sent_counted,
    a.skipped_counted,
    a.failed_counted,
    tally a.entries,
    length-entry_ids a.entries,
    length-step_ids (steps_of p),
    ap length a.ids_kept,
  )

  exit_of_iff :
      (r : MoleculeDispatchResult)
      → r.total_steps ≡ r.dispatched_steps + r.skipped_steps + r.failed_steps
      → (exit_of r ≡ ExitCode.success) ↔ (r.failed_steps ≡ 0)
  unfolding exit_of
  exit_of_iff r h = ground arith

  dispatch_all-IsReport : (p : BdPipelineResult Num) → IsReport p (dispatch_all deps config n p)
  unfolding dispatch_all
  dispatch_all-IsReport p =
      let a =
        dispatch_molecule_steps-Accounts deps config (n + 4) (steps_of p)
          (no_result config p.molecule_id (length (steps_of p))) in
      record {
        accounts = a;
        adds_up = adds_up_of p _ a;
        succeeds = exit_of_iff _ (adds_up_of p _ a);
      }

  -- how a run ends: the pipeline gave up, or its steps were dispatched and reported
  abbrev pub Ends : ExitCode × Option MoleculeDispatchResult → Type 0
  Ends o =
      ((run_bd_pipeline deps config n ≡ gave_up ExitCode.general_error)
        × (o ≡ (ExitCode.general_error, none)))
      ⊎ ((p : BdPipelineResult Num) × (r : MoleculeDispatchResult) × (run_bd_pipeline deps config n
            ≡ got p)
          × (o ≡ (exit_of r, some r))
          × IsReport p r)

  Ends-of :
      (x : Attempt (BdPipelineResult Num))
      → run_bd_pipeline deps config n ≡ x
      → FailsGenerally x
      → Ends (finish (x >>= λ p. got (dispatch_all deps config n p)))
  Ends-of (got p) e f = inr (p, dispatch_all deps config n p, e, refl, dispatch_all-IsReport p)
  Ends-of (gave_up code) e f =
      let general = code_of_failed f refl in
      inl (e ∙ ap gave_up general, ap (λ (c : ExitCode). (c, none)) general)

  -- A molecule's dispatch ends with a general error before any step, where its pipeline gives up, or with a
  -- report, where the pipeline comes to its end. The entries of the report are those of the molecule's
  -- steps, in their order; exactly the parent steps are skipped; another step has failed where its
  -- dispatch throws or gives a code other than success, and is dispatched or, with monitoring, completed
  -- where it succeeds; the counters count the entries by their status and add up to the number of
  -- steps; and the exit code is success exactly where no step failed.
  pub run_molecule_dispatch-Ends : Ends (run_molecule_dispatch deps config n)
  unfolding run_molecule_dispatch
  run_molecule_dispatch-Ends =
      Ends-of (run_bd_pipeline deps config n) refl run_bd_pipeline-FailsGenerally
