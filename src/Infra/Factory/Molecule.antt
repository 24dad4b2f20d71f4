-- ===== src/Infra/Factory/Molecule.antt =====
-- The dispatch of a molecule in daemon/src/infra/factory-dispatch.ts. The bd command line and the dispatch
-- of one prompt, which the code takes as `DispatchDependencies`, are the record `Dependencies` of functions
-- of the number of calls made before.
use repomap_core.Prelude.{
  ℕ, suc, ◌+◌, ◌-◌, String, Bool, true, false, ◌&&◌, List, [], ◌∷◌, ◌++◌, Option, none, some, ltb,
  length, if◌then◌else◌, or_else,
}
use repomap_core.Prelude.Json.{Json}
use repomap_core.Infra.Factory.{
  FactoryDispatchConfig, ExitCode, MoleculeStep, extract_step_config, filled, build_cook_command,
  build_pour_command, build_show_command, parse_cook_proto_id, parse_molecule_id, is_object_like,
  resolve_effective_steps,
}

pub data StepStatus : Type 0 where
  dispatched skipped failed completed : StepStatus

-- `dispatch exit code ${code}`, or the message of an exception
pub data StepError : Type 0 where
  dispatch_exit_code : ExitCode → StepError
  message : String → StepError

pub record StepEntry : Type 0 where
  pub step_id : String
  pub bead_id : String
  pub mode : String
  pub card : Option String
  pub session_id : Option String
  pub status : StepStatus
  pub result : Option String
  pub elapsed_seconds : Option ℕ
  pub error : Option StepError

pub record MoleculeDispatchResult : Type 0 where
  pub molecule_id : String
  pub formula : String
  pub steps : List StepEntry
  pub total_steps : ℕ
  pub dispatched_steps : ℕ
  pub skipped_steps : ℕ
  pub failed_steps : ℕ

-- `MoleculeStepDispatchOutcome`
pub record StepOutcome : Type 0 where
  pub code : ExitCode
  pub session_id : Option String
  pub result : Option String
  pub elapsed_seconds : Option ℕ

-- what the dispatch of one prompt gives: an exit code, an outcome, or an exception with its message
pub data SingleReply : Type 0 where
  exit : ExitCode → SingleReply
  outcome : StepOutcome → SingleReply
  threw : String → SingleReply

pub record Dependencies (Num : Type 0) : Type 0 where
  -- none where the command fails or prints no JSON
  pub exec_bd : ℕ → List String → Option (Json Num)
  pub run_single_dispatch : ℕ → FactoryDispatchConfig → Bool → SingleReply

-- the fields that are left out where they are empty
abbrev pub filled_only : Option String → Option String
filled_only none = none
filled_only (some text) = filled text

unfoldable pub extract_outcome_details : StepOutcome → StepOutcome
extract_outcome_details o = record {
  code = o.code;
  session_id = filled_only o.session_id;
  result = filled_only o.result;
  elapsed_seconds = o.elapsed_seconds;
}

abbrev pub no_details : ExitCode → StepOutcome
no_details code = record { code = code; session_id = none; result = none; elapsed_seconds = none }

abbrev pub entry_of :
    MoleculeStep → String → String → StepStatus → StepOutcome → Option StepError → StepEntry
entry_of step mode card status details error = record {
  step_id = step.id;
  bead_id = step.id;
  mode = mode;
  card = filled card;
  session_id = details.session_id;
  status = status;
  result = details.result;
  elapsed_seconds = details.elapsed_seconds;
  error = error;
}

abbrev pub mode_of : FactoryDispatchConfig → MoleculeStep → String
mode_of config step = or_else (extract_step_config step.labels).mode config.mode

abbrev pub card_of : FactoryDispatchConfig → MoleculeStep → String
card_of config step = or_else (extract_step_config step.labels).card config.card_id

unfoldable pub step_config : FactoryDispatchConfig → MoleculeStep → FactoryDispatchConfig
step_config config step = record config {
  mode = mode_of config step;
  card_id = card_of config step;
  bead_id = step.id;
  prompt_arg = step.description;
  title = step.title;
}

abbrev pub is_success : ExitCode → Bool
is_success ExitCode.success = true
is_success _ = false

-- what becomes of the result where the dispatch of a step came to an exit code
unfoldable pub on_code :
    FactoryDispatchConfig
    → MoleculeStep
    → StepOutcome
    → MoleculeDispatchResult
    → MoleculeDispatchResult
on_code config step details r =
    let mode = mode_of config step in
    let card = card_of config step in
    if is_success details.code
    then record r {
      dispatched_steps = r.dispatched_steps + 1;
      steps =
          r.steps
          ++ entry_of step mode card
              (if config.no_monitor then StepStatus.dispatched else StepStatus.completed) details
              none
            ∷ [];
    }
    else record r {
      failed_steps = r.failed_steps + 1;
      steps =
          r.steps
          ++ entry_of step mode card StepStatus.failed details
              (some (dispatch_exit_code details.code))
            ∷ [];
    }

unfoldable pub on_reply :
    FactoryDispatchConfig
    → MoleculeStep
    → SingleReply
    → MoleculeDispatchResult
    → MoleculeDispatchResult
unfolding on_code extract_outcome_details
on_reply config step (exit code) r = on_code config step (no_details code) r
on_reply config step (outcome o) r = on_code config step (extract_outcome_details o) r
on_reply config step (threw error) r = record r {
  failed_steps = r.failed_steps + 1;
  steps =
      r.steps
      ++ entry_of step (mode_of config step) (card_of config step) StepStatus.failed
          (no_details ExitCode.general_error) (some (message error))
        ∷ [];
}

unfoldable pub skip_step :
    FactoryDispatchConfig → MoleculeStep → MoleculeDispatchResult → MoleculeDispatchResult
skip_step config step r = record r {
  skipped_steps = r.skipped_steps + 1;
  steps =
      r.steps
      ++ entry_of step (mode_of config step) (card_of config step) StepStatus.skipped
          (no_details ExitCode.success) none
        ∷ [];
}

abbrev pub is_parent : MoleculeStep → Bool
is_parent step = (extract_step_config step.labels).is_parent

-- a value, or the exit code with which the pipeline gives up
pub data Attempt (A : Type 0) : Type 0 where
  got : A → Attempt A
  gave_up : ExitCode → Attempt A

infixl 5 ◌>>=◌
abbrev pub ◌>>=◌ : {A B : Type 0} → Attempt A → (A → Attempt B) → Attempt B
got a >>= f = f a
gave_up code >>= f = gave_up code

-- what is missing ends the pipeline with a general error
abbrev pub required : {A : Type 0} → Option A → Attempt A
required none = gave_up ExitCode.general_error
required (some a) = got a

abbrev pub no_result : FactoryDispatchConfig → String → ℕ → MoleculeDispatchResult
no_result config molecule_id total = record {
  molecule_id = molecule_id;
  formula = config.formula;
  steps = [];
  total_steps = total;
  dispatched_steps = 0;
  skipped_steps = 0;
  failed_steps = 0;
}

unfoldable pub exit_of : MoleculeDispatchResult → ExitCode
exit_of r =
    if ltb 0 (r.total_steps - r.skipped_steps) && ltb 0 r.failed_steps
    then ExitCode.general_error
    else ExitCode.success

-- the exit code, and the result that is printed
abbrev pub finish : Attempt MoleculeDispatchResult → ExitCode × Option MoleculeDispatchResult
finish (got r) = (exit_of r, some r)
finish (gave_up code) = (code, none)

-- `BdPipelineResult`
pub record BdPipelineResult (Num : Type 0) : Type 0 where
  pub cooked_output : Json Num
  pub poured_output : Json Num
  pub showed_output : Json Num
  pub proto_id : String
  pub molecule_id : String

module _ {Num : Type 0} where
  -- the loop, with the number of dispatches made before
  unfoldable pub dispatch_molecule_steps :
      Dependencies Num
      → FactoryDispatchConfig
      → ℕ
      → List MoleculeStep
      → MoleculeDispatchResult
      → MoleculeDispatchResult
  unfolding on_reply skip_step step_config
  dispatch_molecule_steps deps config n [] r = r
  dispatch_molecule_steps deps config n (step ∷ steps) r =
      let passed = dispatch_molecule_steps deps config n steps (skip_step config step r) in
      let rest =
        dispatch_molecule_steps deps config (suc n) steps
          (on_reply config step (deps.run_single_dispatch n (step_config config step) true) r) in
      if is_parent step then passed else rest

  abbrev pub required_object : Json Num → Attempt (Json Num)
  required_object j = if is_object_like j then got j else gave_up ExitCode.general_error

  unfoldable pub run_bd_pipeline :
      Dependencies Num → FactoryDispatchConfig → ℕ → Attempt (BdPipelineResult Num)
  unfolding build_cook_command build_pour_command parse_cook_proto_id parse_molecule_id
  run_bd_pipeline deps config n = do
    cooked ← required (deps.exec_bd n (build_cook_command config.formula config.vars false))
    persisted ← required (deps.exec_bd (n + 1) (build_cook_command config.formula config.vars true))
    proto_id ← required (parse_cook_proto_id persisted)
    poured ← required (deps.exec_bd (n + 2) (build_pour_command proto_id config.vars))
    molecule_id ← required (parse_molecule_id poured)
    answer ← required (deps.exec_bd (n + 3) (build_show_command molecule_id))
    showed ← required_object answer
    got (record {
      cooked_output = cooked;
      poured_output = poured;
      showed_output = showed;
      proto_id = proto_id;
      molecule_id = molecule_id;
    })

  unfoldable pub dispatch_all :
      Dependencies Num → FactoryDispatchConfig → ℕ → BdPipelineResult Num → MoleculeDispatchResult
  unfolding dispatch_molecule_steps resolve_effective_steps
  dispatch_all deps config n p =
      let steps =
        resolve_effective_steps p.cooked_output p.poured_output p.showed_output p.proto_id in
      dispatch_molecule_steps deps config (n + 4) steps
        (no_result config p.molecule_id (length steps))

  unfoldable pub run_molecule_dispatch :
      Dependencies Num → FactoryDispatchConfig → ℕ → ExitCode × Option MoleculeDispatchResult
  unfolding run_bd_pipeline dispatch_all exit_of extract_step_config
  run_molecule_dispatch deps config n =
      finish (run_bd_pipeline deps config n >>= λ p. got (dispatch_all deps config n p))
