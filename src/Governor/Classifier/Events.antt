-- ===== src/Governor/Classifier/Events.antt =====
-- The classification of events in daemon/src/classifier/index.ts. A part, an input or an info that is no
-- object has no fields, which is how the code reads it; no part type is the name of a field that every
-- JavaScript object inherits.
use Prim.Native.String
use repomap_core.Prelude.{
  ℕ, String, Bool, false, ◌||◌, List, [], ◌∷◌, Option, none, some, str_eq, if◌then◌else◌,
  first_some, or_else, contains,
}
use repomap_core.Prelude.Words.{has_prefix, starting_at, up_to}
use repomap_core.Prelude.Number.{Number}
use repomap_core.Prelude.Json.{
  Json, Fields, null, bool, num, str, obj, end, field, get, as_record, as_text, as_filled_text,
  as_number,
}
use repomap_core.Governor.Types.{Punch}
use repomap_core.Governor.Classifier.{RawEvent, Runtime}
use repomap_core.Governor.Classifier.SortKeys.{sort_keys_deep}
use repomap_core.Governor.Classifier.Commands.{classify_gate_from_command, GateClassification}
use repomap_core.Governor.Classifier.Names.{
  is_mcp_tool_name, canonical_mcp_punch_key, to_snake_case,
}

module _ (N : Number) where
  -- a field that is read as a record, and a field of it
  abbrev pub record_in : Fields N.Carrier → String → Fields N.Carrier
  record_in fs key = as_record N.Carrier (get N.Carrier fs key)

  abbrev pub text_in : Fields N.Carrier → String → Option String
  text_in fs key = as_text N.Carrier (get N.Carrier fs key)

  unfoldable pub compute_source_hash : Runtime N → RawEvent N → String
  unfolding sort_keys_deep
  compute_source_hash rt event = rt.sha256 (
      rt.stringify (
        sort_keys_deep rt.locale_le
          (obj (field "type" (str event.kind) (field "properties" (obj event.properties) end)))))

  abbrev when : Bool → Option String → Option String
  when b o = if b then o else none

  unfoldable pub extract_task_id : RawEvent N → String
  extract_task_id event =
      let props = event.properties in
      or_else
        (first_some
          (when (str_eq event.kind "message.part.updated")
            (text_in (record_in props "part") "sessionID"))
          (first_some
            (when (str_eq event.kind "message.updated")
              (text_in (record_in props "info") "sessionID"))
            (first_some (when (str_eq event.kind "message.removed") (text_in props "sessionID"))
              (when (has_prefix event.kind "session.") (text_in (record_in props "info") "id")))))
        "unknown"

  pub record Metrics : Type 0 where
    pub cost : Option N.Carrier
    pub tokens_input : Option N.Carrier
    pub tokens_output : Option N.Carrier
    pub tokens_reasoning : Option N.Carrier

  abbrev pub number_in : Fields N.Carrier → String → Option N.Carrier
  number_in fs key = as_number N.Carrier (get N.Carrier fs key)

  unfoldable pub extract_metrics : Fields N.Carrier → Metrics
  extract_metrics part =
      let tokens = record_in part "tokens" in
      record {
        cost = number_in part "cost";
        tokens_input = number_in tokens "input";
        tokens_output = number_in tokens "output";
        tokens_reasoning = number_in tokens "reasoning";
      }

  abbrev pub no_metrics : Metrics
  no_metrics = record {
    cost = none;
    tokens_input = none;
    tokens_output = none;
    tokens_reasoning = none;
  }

  unfoldable pub extract_bash_command : Fields N.Carrier → Option String
  extract_bash_command part =
      let input = record_in part "input" in
      let state_input = record_in (record_in part "state") "input" in
      first_some (text_in part "input") (
        first_some (text_in input "command") (
          first_some (text_in input "cmd")
            (first_some (text_in state_input "command") (text_in state_input "cmd"))))

  abbrev pub filled_in : Fields N.Carrier → String → Option String
  filled_in fs key = as_filled_text N.Carrier (get N.Carrier fs key)

  unfoldable pub extract_subagent_type : Fields N.Carrier → String
  extract_subagent_type part =
      or_else
        (first_some (filled_in (record_in part "input") "subagent_type")
          (filled_in (record_in (record_in part "state") "input") "subagent_type"))
        "unknown_child"

  -- the fields that all punches of an event share
  pub record Base : Type 0 where
    pub task_id : String
    pub observed_at : ℕ
    pub source_hash : String

  unfoldable pub base_of : Runtime N → RawEvent N → ℕ → Base
  unfolding compute_source_hash extract_task_id
  base_of rt event now = record {
    task_id = extract_task_id event;
    observed_at = now;
    source_hash = compute_source_hash rt event;
  }

  abbrev pub mint : Base → String → String → Metrics → Punch N
  mint base punch_type punch_key m = record {
    task_id = base.task_id;
    punch_type = punch_type;
    punch_key = punch_key;
    observed_at = base.observed_at;
    source_hash = base.source_hash;
    content_hash = none;
    cost = m.cost;
    tokens_input = m.tokens_input;
    tokens_output = m.tokens_output;
    tokens_reasoning = m.tokens_reasoning;
  }

  abbrev pub gate_or_exec : Base → Metrics → Option GateClassification → Punch N
  gate_or_exec base m none = mint base "command_exec" "bash" m
  gate_or_exec base m (some g) = mint base g.punch_type g.punch_key m

  -- a command that is missing or empty runs no gate
  abbrev pub gate_run : Option String → String → Option GateClassification
  gate_run none status = none
  gate_run (some command) status =
      if str_eq command "" then none else classify_gate_from_command command status

  -- a tool part with a terminal status
  unfoldable pub classify_terminal : Fields N.Carrier → Base → String → String → Punch N
  unfolding extract_subagent_type extract_metrics extract_bash_command classify_gate_from_command
      canonical_mcp_punch_key is_mcp_tool_name to_snake_case
  classify_terminal part base status tool_name =
      let m = extract_metrics part in
      if str_eq tool_name "task"
      then mint base "child_spawn" (extract_subagent_type part) m
      else if str_eq tool_name "bash"
      then gate_or_exec base m (gate_run (extract_bash_command part) status)
      else if is_mcp_tool_name tool_name
      then mint base "mcp_call" (canonical_mcp_punch_key tool_name) m
      else mint base "tool_call" (to_snake_case tool_name) m

  abbrev pub tool_name_of : Fields N.Carrier → String
  tool_name_of part = or_else (text_in part "tool") "unknown_tool"

  abbrev pub is_terminal : String → Bool
  is_terminal status = str_eq status "completed" || str_eq status "error"

  unfoldable pub with_status : Fields N.Carrier → Base → Option String → Option (Punch N)
  unfolding classify_terminal
  with_status part base none = none
  with_status part base (some status) =
      if is_terminal status
      then some (classify_terminal part base status (tool_name_of part))
      else none

  unfoldable pub classify_tool_part : Fields N.Carrier → Base → Option (Punch N)
  unfolding with_status
  classify_tool_part part base = with_status part base (text_in (record_in part "state") "status")

  -- `staticMap[part.type]`
  unfoldable pub static_punch : Fields N.Carrier → Base → String → Option (Punch N)
  unfolding extract_metrics
  static_punch part base kind =
      if str_eq kind "step-start"
      then some (mint base "step_complete" "step_start_observed" no_metrics)
      else if str_eq kind "step-finish"
      then some (mint base "step_complete" "step_finished" (extract_metrics part))
      else if str_eq kind "text"
      then some (mint base "message" "text_response" (extract_metrics part))
      else none

  unfoldable pub with_part_type : Fields N.Carrier → Base → Option String → Option (Punch N)
  unfolding classify_tool_part static_punch
  with_part_type part base none = none
  with_part_type part base (some kind) =
      if str_eq kind "tool" then classify_tool_part part base else static_punch part base kind

  unfoldable pub classify_part_updated : Runtime N → RawEvent N → ℕ → Option (Punch N)
  unfolding with_part_type base_of
  classify_part_updated rt event now =
      let part = record_in event.properties "part" in
      with_part_type part (base_of rt event now) (text_in part "type")

  abbrev pub is_value : Option String → String → Bool
  is_value none text = false
  is_value (some s) text = str_eq s text

  unfoldable pub classify_session_updated : Runtime N → RawEvent N → ℕ → Option (Punch N)
  unfolding base_of
  classify_session_updated rt event now =
      if is_value (text_in (record_in event.properties "info") "status") "completed"
      then some (mint (base_of rt event now) "step_complete" "session_completed" no_metrics)
      else some (mint (base_of rt event now) "session_lifecycle" "session_updated" no_metrics)

  -- the text of a value in a template; a text is itself
  abbrev pub template_text : Runtime N → Json N.Carrier → String
  template_text rt (str s) = s
  template_text rt v = rt.to_text v

  -- a value that is not falsy; a number is falsy where it is 0 or no number
  abbrev pub truthy : Runtime N → Option (Json N.Carrier) → Option (Json N.Carrier)
  truthy rt none = none
  truthy rt (some null) = none
  truthy rt (some (bool b)) = if b then some (bool b) else none
  truthy rt (some (str s)) = if str_eq s "" then none else some (str s)
  truthy rt (some (num x)) = if rt.is_falsy x then none else some (num x)
  truthy rt (some v) = some v

  -- `value ?? fallback`, as a text
  abbrev pub text_or : Runtime N → Option (Json N.Carrier) → String → String
  text_or rt none fallback = fallback
  text_or rt (some null) fallback = fallback
  text_or rt (some v) fallback = template_text rt v

  abbrev pub is_end : Json N.Carrier → Bool
  is_end (str s) = str_eq s "end"
  is_end _ = false

  unfoldable pub on_finish : Runtime N → Base → Option (Json N.Carrier) → Option (Punch N)
  on_finish rt base none = none
  on_finish rt base (some finish) =
      if is_end finish
      then some (mint base "step_complete" "session_completed" no_metrics)
      else some (
          mint base "session_lifecycle" (String.◌++◌ "session_" (template_text rt finish))
            no_metrics)

  unfoldable pub classify_message_updated : Runtime N → RawEvent N → ℕ → Option (Punch N)
  unfolding base_of on_finish
  classify_message_updated rt event now =
      let info = record_in event.properties "info" in
      let base = base_of rt event now in
      if is_value (text_in info "role") "assistant"
      then on_finish rt
          (record base { task_id = text_or rt (get N.Carrier info "sessionID") base.task_id })
          (truthy rt (get N.Carrier info "finish"))
      else none

  abbrev pub session_lifecycle_events : List String
  session_lifecycle_events =
      "session.created" ∷ "session.deleted" ∷ "session.idle" ∷ "session.error" ∷ []

  abbrev pub behind_dot : Option String → String
  behind_dot none = ""
  behind_dot (some String.[]) = ""
  behind_dot (some (String.◌∷◌ c cs)) = up_to cs "."

  -- `event.type.split(".")[1]`
  unfoldable pub key_suffix : String → String
  unfolding starting_at up_to
  key_suffix kind = behind_dot (starting_at kind ".")

  unfoldable pub classify_session_lifecycle : Runtime N → RawEvent N → ℕ → Option (Punch N)
  unfolding base_of key_suffix
  classify_session_lifecycle rt event now =
      if contains session_lifecycle_events event.kind
      then some (
          mint (base_of rt event now) "session_lifecycle"
            (String.◌++◌ "session_" (key_suffix event.kind)) no_metrics)
      else none

  unfoldable pub classify_event : Runtime N → RawEvent N → ℕ → Option (Punch N)
  unfolding classify_part_updated classify_message_updated classify_session_updated
      classify_session_lifecycle
  classify_event rt event now =
      if str_eq event.kind "message.part.updated"
      then classify_part_updated rt event now
      else if str_eq event.kind "message.updated"
      then classify_message_updated rt event now
      else if str_eq event.kind "session.updated"
      then classify_session_updated rt event now
      else classify_session_lifecycle rt event now
