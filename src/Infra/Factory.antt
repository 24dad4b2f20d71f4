-- ===== src/Infra/Factory.antt =====
-- daemon/src/infra/factory-dispatch.ts: the data of a dispatch, what is read from the labels of a step and
-- from the JSON of the bd command line, and its arguments. Of the configuration the fields stand here that
-- the control flow reads. The children have the dispatch of one prompt and that of a molecule.
pub mod Molecule
pub mod Single
pub mod Whole
mod Statuses
mod Steps
mod Report
mod Zero
mod Tests
use Prim.Native.String
use repomap_core.Prelude.{
  ℕ, String, Bool, true, false, List, [], ◌∷◌, ◌++◌, Option, none, some, str_eq, if◌then◌else◌,
  or_else, contains, first_some,
}
use repomap_core.Prelude.Words.{strip, strip_prefix}
use repomap_core.Prelude.Json.{
  Json, Items, Fields, nil, cons, as_record, as_items, as_filled_text, get, get_string_field,
  get_array_field, texts,
}

pub record FactoryDispatchConfig : Type 0 where
  pub mode : String
  pub title : String
  pub max_wait : ℕ
  pub poll_interval : ℕ
  pub no_monitor : Bool
  pub json_output : Bool
  pub prompt_arg : String
  pub formula : String
  pub vars : List String
  pub idle_confirm : ℕ
  pub card_id : String
  pub bead_id : String

-- `ExitCode`; a usage error has the number of a general error
pub data ExitCode : Type 0 where
  success general_error health_check_failed session_creation_failed : ExitCode
  prompt_dispatch_failed timeout no_response : ExitCode

abbrev pub exit_number : ExitCode → ℕ
exit_number ExitCode.success = 0
exit_number ExitCode.general_error = 1
exit_number ExitCode.health_check_failed = 2
exit_number ExitCode.session_creation_failed = 3
exit_number ExitCode.prompt_dispatch_failed = 4
exit_number ExitCode.timeout = 5
exit_number ExitCode.no_response = 6

pub record MoleculeStep : Type 0 where
  pub id : String
  pub title : String
  pub description : String
  pub labels : List String
  pub status : Option String

-- the value, if it is not the empty text
abbrev pub filled : String → Option String
filled text = if str_eq text "" then none else some text

-- the value of the first label with the prefix, which may be empty
unfoldable pub first_labelled : List String → String → Option String
first_labelled [] needle = none
first_labelled (label ∷ labels) needle =
    first_some (strip_prefix label needle) (first_labelled labels needle)

abbrev stripped : Option String → Option String
stripped none = none
stripped (some value) = filled (strip value)

unfoldable pub parse_label_value : List String → String → Option String
unfolding first_labelled strip
parse_label_value labels p = stripped (first_labelled labels (String.◌++◌ p ":"))

abbrev pub is_parent_only_step : List String → Bool
is_parent_only_step labels = contains labels "action:parent"

pub record StepConfig : Type 0 where
  pub mode : Option String
  pub card : Option String
  pub is_parent : Bool

unfoldable pub extract_step_config : List String → StepConfig
unfolding parse_label_value
extract_step_config labels = record {
  mode = parse_label_value labels "mode";
  card = parse_label_value labels "card";
  is_parent = is_parent_only_step labels;
}

-- `--var` before each variable
unfoldable pub var_args : List String → List String
var_args [] = []
var_args (v ∷ vars) = "--var" ∷ v ∷ var_args vars

abbrev pub persist_args : Bool → List String
persist_args true = "--persist" ∷ "--force" ∷ []
persist_args false = []

unfoldable pub build_cook_command : String → List String → Bool → List String
unfolding var_args
build_cook_command formula vars persist =
    "cook" ∷ formula ∷ persist_args persist ++ (var_args vars ++ "--json" ∷ [])

unfoldable pub build_pour_command : String → List String → List String
unfolding var_args
build_pour_command proto_id vars = "mol" ∷ "pour" ∷ proto_id ∷ var_args vars ++ "--json" ∷ []

abbrev pub build_show_command : String → List String
build_show_command molecule_id = "mol" ∷ "show" ∷ molecule_id ∷ "--json" ∷ []

abbrev pub keep_step : Option MoleculeStep → List MoleculeStep → List MoleculeStep
keep_step none steps = steps
keep_step (some step) steps = step ∷ steps

-- the first list of steps that is not empty
abbrev pub or_steps : List MoleculeStep → List MoleculeStep → List MoleculeStep
or_steps [] other = other
or_steps (step ∷ steps) other = step ∷ steps

module _ {Num : Type 0} where
  -- the labels of a step that are texts
  abbrev pub labels_of : Fields Num → List String
  labels_of step = texts Num (or_else (as_items Num (get Num step "labels")) nil)

  abbrev pub titled : Fields Num → String → String
  titled step id = or_else (get_string_field Num step ("title" ∷ "name" ∷ [])) id

  abbrev pub described : Fields Num → String
  described step = or_else (get_string_field Num step ("description" ∷ "prompt" ∷ "body" ∷ [])) ""

  unfoldable pub step_with : Fields Num → Option String → Option MoleculeStep
  step_with step none = none
  step_with step (some id) = some (record {
    id = id;
    title = titled step id;
    description = described step;
    labels = labels_of step;
    status = get_string_field Num step ("status" ∷ []);
  })

  unfoldable pub normalize_step : Json Num → Option MoleculeStep
  unfolding step_with
  normalize_step item =
      let step = as_record Num (some item) in
      step_with step (get_string_field Num step ("bead_id" ∷ "beadId" ∷ "id" ∷ []))

  unfoldable pub normalize_items : Items Num → List MoleculeStep
  unfolding normalize_step
  normalize_items nil = []
  normalize_items (cons item items) = keep_step (normalize_step item) (normalize_items items)

  unfoldable pub normalize_molecule_steps : Json Num → List MoleculeStep
  unfolding normalize_items
  normalize_molecule_steps raw = normalize_items (
      get_array_field Num (as_record Num (some raw))
        ("steps" ∷ "poured_steps" ∷ "pouredSteps" ∷ []))

  -- a step of the cooked formula under the id that pouring gave it
  unfoldable pub mapped_step :
      Fields Num → String → Fields Num → Option String → Option MoleculeStep
  mapped_step id_mapping proto_id step none = none
  mapped_step id_mapping proto_id step (some step_id) =
      let mapping_key = String.◌++◌ proto_id (String.◌++◌ "." step_id) in
      some (record {
        id = or_else (get_string_field Num id_mapping (mapping_key ∷ [])) step_id;
        title = titled step step_id;
        description = described step;
        labels = labels_of step;
        status = none;
      })

  unfoldable pub cooked_items : Fields Num → String → Items Num → List MoleculeStep
  unfolding mapped_step
  cooked_items id_mapping proto_id nil = []
  cooked_items id_mapping proto_id (cons item items) =
      let step = as_record Num (some item) in
      keep_step (mapped_step id_mapping proto_id step (get_string_field Num step ("id" ∷ [])))
        (cooked_items id_mapping proto_id items)

  unfoldable pub build_steps_from_cook_and_pour : Json Num → Json Num → String → List MoleculeStep
  unfolding cooked_items
  build_steps_from_cook_and_pour cooked_output poured_output proto_id =
      cooked_items (as_record Num (get Num (as_record Num (some poured_output)) "id_mapping"))
        proto_id (get_array_field Num (as_record Num (some cooked_output)) ("steps" ∷ []))

  unfoldable pub parse_cook_proto_id : Json Num → Option String
  parse_cook_proto_id raw =
      let fields = as_record Num (some raw) in
      first_some (get_string_field Num fields ("id" ∷ "proto_id" ∷ "protoId" ∷ [])) (
        get_string_field Num (as_record Num (get Num fields "proto"))
          ("id" ∷ "proto_id" ∷ "protoId" ∷ []))

  unfoldable pub parse_molecule_id : Json Num → Option String
  parse_molecule_id raw =
      let fields = as_record Num (some raw) in
      first_some
        (get_string_field Num fields ("molecule_id" ∷ "moleculeId" ∷ "id" ∷ "new_epic_id" ∷ []))
        (get_string_field Num (as_record Num (get Num fields "molecule"))
          ("id" ∷ "molecule_id" ∷ "moleculeId" ∷ []))

  abbrev pub is_object_like : Json Num → Bool
  is_object_like (Json.obj fs) = true
  is_object_like (Json.arr xs) = true
  is_object_like _ = false

  unfoldable pub resolve_effective_steps :
      Json Num → Json Num → Json Num → String → List MoleculeStep
  unfolding build_steps_from_cook_and_pour normalize_molecule_steps
  resolve_effective_steps cooked_output poured_output showed_output proto_id =
      or_steps (build_steps_from_cook_and_pour cooked_output poured_output proto_id)
        (or_steps (normalize_molecule_steps showed_output) (normalize_molecule_steps poured_output))
