-- ===== src/Infra/Factory/Tests.antt =====
-- Runs of the factory dispatch, and its theorems at concrete inputs.
use repomap_core.Prelude.{ℕ, ◌≡◌, ◌↔◌, refl, String, true, false, List, [], ◌∷◌, Option, none, some}
use repomap_core.Prelude.Json.{Json, null, str, arr, obj, nil, cons, end, field}
use repomap_core.Infra.CardPrompt.{Prompts}
use repomap_core.Infra.Kilo.{Reply, listed, SessionMessage}
use repomap_core.Infra.Kilo.Rounds.{monitor_session}
use repomap_core.Infra.Factory.{
  FactoryDispatchConfig, ExitCode, parse_label_value, build_cook_command,
}
use repomap_core.Infra.Factory.Molecule.{Dependencies, exit, run_molecule_dispatch}
use repomap_core.Infra.Factory.Report.{Ends, run_molecule_dispatch-Ends}
use repomap_core.Infra.Factory.Single.{
  Host, PromptFile, PromptPart, inject_session_id, plain_payload, bead_depth, ends_with,
  run_single_dispatch,
}
use repomap_core.Infra.Factory.Whole.{
  KiloAnswer, Probes, run_dispatch, default_dispatch_dependencies, code_of_run,
}
use repomap_core.Infra.Factory.Zero.{IsUp, IsDispatched, run_dispatch-Zero}

label_value :
    parse_label_value ("x" ∷ "mode: architect " ∷ "mode:code" ∷ []) "mode" ≡ some "architect"
unfolding parse_label_value
label_value = refl

blank_value : parse_label_value ("card: " ∷ "card:x" ∷ []) "card" ≡ none
unfolding parse_label_value
blank_value = refl

cook :
    build_cook_command "f" ("a=1" ∷ []) true
    ≡ "cook" ∷ "f" ∷ "--persist" ∷ "--force" ∷ "--var" ∷ "a=1" ∷ "--json" ∷ []
unfolding build_cook_command
cook = refl

abbrev config : FactoryDispatchConfig
config = record {
  mode = "code";
  title = "";
  max_wait = 60;
  poll_interval = 10;
  no_monitor = false;
  json_output = false;
  prompt_arg = "Do it";
  formula = "";
  vars = [];
  idle_confirm = 1;
  card_id = "";
  bead_id = "repomap-core-1ax.3";
}

depth_two : bead_depth "repomap-core-1ax.3" ≡ 2
unfolding bead_depth
depth_two = refl

is_json : ends_with "prompt.json" ".json" ≡ true
unfolding ends_with
is_json = refl

abbrev first_text : List PromptPart → Option String
first_text [] = none
first_text (p ∷ ps) = p.text

injected :
    first_text (inject_session_id "ses_1" (plain_payload "In $SESSION_ID" "code")).parts
    ≡ some
        "Dispatch context:\n- SESSION_ID: ses_1\nUse this exact SESSION_ID when running punch card self-check commands.\n\nIn ses_1"
unfolding inject_session_id
injected = refl

abbrev steps_json : Json ℕ
steps_json = obj (
    field "id" (str "proto") (
      field "steps"
        (arr (
          cons
            (obj
              (field "id" (str "plan") (field "labels" (arr (cons (str "action:parent") nil)) end)))
            (cons (obj (field "id" (str "build") (field "title" (str "Build") end)))
              (cons null nil))))
        end))

abbrev deps : Dependencies ℕ
deps = record {
  exec_bd = λ n args. some steps_json;
  run_single_dispatch = λ n c quiet. exit ExitCode.timeout;
}

failed_step : (run_molecule_dispatch deps config 0).0 ≡ ExitCode.general_error
unfolding run_molecule_dispatch
failed_step = refl

run_molecule_dispatch-Ends_example : Ends deps config 0 (run_molecule_dispatch deps config 0)
run_molecule_dispatch-Ends_example = run_molecule_dispatch-Ends deps config 0

abbrev finished_session : List SessionMessage
finished_session =
    record {
      role = some "assistant";
      parts =
          record { kind = "text"; text = some "Done."; reason = none; status = none }
          ∷ record { kind = "step-finish"; text = none; reason = some "stop"; status = none }
          ∷ [];
    }
    ∷ []

abbrev prompts : Prompts
prompts = record {
  card_of_mode = λ mode. none;
  read_card_exit_prompt = λ ids. none;
  modes_content = "";
  numeral = λ n. "2";
}

abbrev host : Host
host = record {
  prompt_file = λ path. PromptFile.missing;
  create_session = λ title. some "ses_1";
  default_title = λ mode. "factory";
  formula_of_bead = λ bead. none;
  prompts = prompts;
  accepts_prompt = λ id payload. true;
  server = record {
    children = λ n id. Reply.body [];
    messages = λ n id. Reply.body (listed finished_session);
  };
  audit = λ id card. none;
}

abbrev probes : Probes
probes = record {
  kilo = KiloAnswer.status 401;
  dolt_port = true;
  daemon_online = true;
  temporal_port = true;
  worker_online = true;
}

landed :
    code_of_run (
      run_dispatch (default_dispatch_dependencies {Num = ℕ} deps.exec_bd (λ n. host)) probes config)
    ≡ some ExitCode.success
unfolding run_dispatch run_single_dispatch monitor_session
landed = refl

run_dispatch-Zero_example :
    (code_of_run
        (run_dispatch (default_dispatch_dependencies deps.exec_bd (λ n. host)) probes config)
      ≡ some ExitCode.success)
    ↔ (IsUp probes × IsDispatched host config)
run_dispatch-Zero_example = run_dispatch-Zero deps.exec_bd (λ n. host) probes config refl
