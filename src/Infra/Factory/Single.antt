-- ===== src/Infra/Factory/Single.antt =====
-- The dispatch of one prompt in daemon/src/infra/factory-dispatch.ts: the payload, the session, the
-- monitoring and the result. What is outside (the prompt file, Kilo, the database, the audit) is the
-- record `Host`; writing the task row has no influence, since its errors are caught. Of a result that
-- is printed the output is left out.

use repomap_core.Prelude.{
  ltb, ℕ, ◌+◌, String, Bool, true, false, ◌||◌, List, [], ◌∷◌, Option, none, some, str_eq,
  if◌then◌else◌, or_else, first_some,
}
use repomap_core.Prelude.Words.{strip_prefix, has_prefix, replace_all}
use repomap_core.Infra.CardPrompt.{
  ◌<>◌, given, Prompts, CardExitPromptResolution, resolve_card_exit_prompt, inject_card_exit_prompt,
}
use repomap_core.Infra.Kilo.{
  ChildSession, fetch_children, Server, Messages, listed, malformed, fetch_messages, extract_result,
}
use repomap_core.Infra.Kilo.Rounds.{
  MonitorConfig, MonitorResult, Outcome, ended, threw, out_of_fuel, monitor_session,
}
use repomap_core.Infra.Factory.{FactoryDispatchConfig, ExitCode, filled}
use repomap_core.Infra.Factory.Molecule.{SingleReply, exit, outcome}

pub record PromptPart : Type 0 where
  pub kind : String
  pub text : Option String

pub record PromptPayload : Type 0 where
  pub agent : Option String
  pub parts : List PromptPart
  pub bead_id : Option String

-- the file is not there, cannot be read as a payload, or is one
pub data PromptFile : Type 0 where
  missing unusable : PromptFile
  loaded : PromptPayload → PromptFile

-- an answer of the audit: the card and whether it passed
pub record AuditResult : Type 0 where
  pub card_id : String
  pub passed : Bool

pub record Host : Type 0 where
  pub prompt_file : String → PromptFile
  -- none where the request fails
  pub create_session : String → Option String
  pub default_title : String → String
  pub formula_of_bead : String → Option String
  pub prompts : Prompts
  pub accepts_prompt : String → PromptPayload → Bool
  pub server : Server
  pub audit : String → String → Option AuditResult

-- `promptArg.endsWith(".json")`: the text ends where the suffix does
unfoldable pub ends_with : String → String → Bool
ends_with String.[] suffix = str_eq String.[] suffix
ends_with (String.◌∷◌ c cs) suffix =
    let rest = ends_with cs suffix in str_eq (String.◌∷◌ c cs) suffix || rest

abbrev pub text_part : String → PromptPart
text_part text = record { kind = "text"; text = some text }

abbrev pub plain_payload : String → String → PromptPayload
plain_payload prompt_arg mode = record {
  agent = some mode;
  parts = text_part prompt_arg ∷ [];
  bead_id = none;
}

-- the payload of the file, with the mode where it names no agent; an empty agent is none
abbrev pub payload_of : PromptFile → String → String → Option PromptPayload
payload_of missing prompt_arg mode = none
payload_of unusable prompt_arg mode = some (plain_payload prompt_arg mode)
payload_of (loaded p) prompt_arg mode =
    some (record p { agent = some (or_else (given p.agent) mode) })

unfoldable pub build_prompt_payload : Host → String → String → Option PromptPayload
unfolding ends_with
build_prompt_payload host prompt_arg mode =
    if ends_with prompt_arg ".json"
    then payload_of (host.prompt_file prompt_arg) prompt_arg mode
    else some (plain_payload prompt_arg mode)

abbrev pub session_context : String → String
session_context session_id =
    "Dispatch context:\n- SESSION_ID: "
    <> (session_id <> "\nUse this exact SESSION_ID when running punch card self-check commands.")

unfoldable pub fill_in : String → String → String
unfolding replace_all
fill_in session_id text =
    replace_all (replace_all (replace_all text "$SESSION_ID" session_id) "${SESSION_ID}" session_id)
      "{{SESSION_ID}}" session_id

-- the text of a part that is a text
abbrev pub text_of : PromptPart → Option String
text_of p = if str_eq p.kind "text" then p.text else none

-- the loop, with the flag `injected`
unfoldable pub inject_part : String → Bool → Option String → PromptPart → PromptPart
unfolding fill_in
inject_part session_id injected none p = p
inject_part session_id true (some text) p = record p { text = some (fill_in session_id text) }
inject_part session_id false (some text) p = record p {
  text = some (session_context session_id <> ("\n\n" <> fill_in session_id text));
}

abbrev pub is_given : Option String → Bool
is_given none = false
is_given (some text) = true

unfoldable pub inject_parts : String → Bool → List PromptPart → List PromptPart
unfolding inject_part
inject_parts session_id injected [] = []
inject_parts session_id injected (p ∷ ps) =
    inject_part session_id injected (text_of p) p
    ∷ inject_parts session_id (injected || is_given (text_of p)) ps

abbrev pub has_text : List PromptPart → Bool
has_text [] = false
has_text (p ∷ ps) = let rest = has_text ps in is_given (text_of p) || rest

unfoldable pub inject_session_id : String → PromptPayload → PromptPayload
unfolding inject_parts
inject_session_id session_id payload =
    let parts = inject_parts session_id false payload.parts in
    record payload {
      parts =
          if has_text payload.parts then parts else text_part (session_context session_id) ∷ parts;
    }

-- `beadId.replace(/^repomap-core-/, "")`, and the full stops in it
unfoldable pub dots : String → ℕ
dots String.[] = 0
dots (String.◌∷◌ c cs) =
    let rest = dots cs in if has_prefix (String.◌∷◌ c cs) "." then 1 + rest else rest

unfoldable pub bead_depth : String → ℕ
unfolding dots
bead_depth bead_id = dots (or_else (strip_prefix bead_id "repomap-core-") bead_id) + 1

-- an empty formula and the text "null" are none
abbrev pub formula_given : Option String → Option String
formula_given none = none
formula_given (some formula) = if str_eq formula "null" then none else filled formula

abbrev pub card_resolution : Host → FactoryDispatchConfig → CardExitPromptResolution
card_resolution host config =
    if str_eq config.bead_id ""
    then resolve_card_exit_prompt host.prompts config.mode (filled config.card_id) none none
    else resolve_card_exit_prompt host.prompts config.mode (filled config.card_id)
        (some (bead_depth config.bead_id)) (formula_given (host.formula_of_bead config.bead_id))

abbrev pub put_text : Option String → String → PromptPart → PromptPart
put_text none prompt p = p
put_text (some text) prompt p = record p {
  text = some (inject_card_exit_prompt text (some prompt));
}

-- the first text part gets the exit prompt
unfoldable pub inject_first : String → List PromptPart → List PromptPart
unfolding inject_card_exit_prompt
inject_first prompt [] = []
inject_first prompt (p ∷ ps) =
    let rest = inject_first prompt ps in
    if is_given (text_of p) then put_text (text_of p) prompt p ∷ ps else p ∷ rest

abbrev pub with_exit_prompt : Option String → PromptPayload → PromptPayload
with_exit_prompt none payload = payload
with_exit_prompt (some prompt) payload = record payload {
  parts = inject_first prompt payload.parts;
}

unfoldable pub maybe_inject_card_prompt :
    Host → FactoryDispatchConfig → PromptPayload → PromptPayload
unfolding inject_first bead_depth resolve_card_exit_prompt
maybe_inject_card_prompt host config payload =
    with_exit_prompt (given (card_resolution host config).prompt) payload

abbrev pub monitor_config : FactoryDispatchConfig → MonitorConfig
monitor_config config = record {
  max_wait = config.max_wait;
  poll_interval = config.poll_interval;
  idle_confirm = config.idle_confirm;
}

-- the card that is audited: the configured one, or that of the mode
abbrev pub audited_card : Host → FactoryDispatchConfig → Option String
audited_card host config =
    first_some (filled config.card_id)
      (given (resolve_card_exit_prompt host.prompts config.mode none none none).card_id)

abbrev pub audit_of : Host → String → Option String → Option AuditResult
audit_of host session_id none = none
audit_of host session_id (some card_id) = host.audit session_id card_id

-- what is written at the end
pub record Dispatched : Type 0 where
  pub session_id : String
  pub title : String
  pub result : String
  pub children : ℕ
  pub child_session_ids : List String
  pub elapsed : ℕ
  pub audit : Option AuditResult

-- How a dispatch ends: an exit code, the session of a prompt that is not monitored, the result, or an
-- exception on an answer that cannot be read.
pub data Ending : Type 0 where
  stopped : ExitCode → Ending
  unmonitored : String → Ending
  finished : Dispatched → Ending
  crashed : Ending
  still_monitoring : Ending

-- `children.map((c) => c.id).filter(Boolean)`
abbrev pub ids_of : List ChildSession → List String
ids_of [] = []
ids_of (c ∷ cs) = let rest = ids_of cs in if str_eq c.id "" then rest else c.id ∷ rest

-- the second request for the children, where the monitoring saw one
unfoldable pub child_ids_of : Host → String → MonitorResult → ℕ → List String
unfolding fetch_children
child_ids_of host session_id monitor asked =
    if ltb 0 monitor.child_count
    then ids_of (fetch_children (host.server.children asked session_id))
    else []

-- After so many requests; an empty response is none.
unfoldable pub on_response :
    Host → FactoryDispatchConfig → String → String → MonitorResult → ℕ → Option String → Ending
unfolding child_ids_of
on_response host config session_id title monitor asked none = stopped ExitCode.no_response
on_response host config session_id title monitor asked (some result) = finished (record {
  session_id = session_id;
  title = title;
  result = result;
  children = monitor.child_count;
  child_session_ids = child_ids_of host session_id monitor asked;
  elapsed = monitor.elapsed;
  audit = audit_of host session_id (audited_card host config);
})

unfoldable pub on_messages :
    Host → FactoryDispatchConfig → String → String → MonitorResult → ℕ → Messages → Ending
unfolding on_response extract_result
on_messages host config session_id title monitor asked (listed messages) =
    on_response host config session_id title monitor asked (given (extract_result messages))
on_messages host config session_id title monitor asked malformed = crashed

unfoldable pub on_monitored : Host → FactoryDispatchConfig → String → String → Outcome → Ending
unfolding on_messages
on_monitored host config session_id title (ended monitor asked) =
    if monitor.completed
    then on_messages host config session_id title monitor (asked + 1)
        (fetch_messages (host.server.messages asked session_id))
    else stopped ExitCode.timeout
on_monitored host config session_id title threw = crashed
on_monitored host config session_id title out_of_fuel = still_monitoring

abbrev pub title_of : Host → FactoryDispatchConfig → String
title_of host config = or_else (filled config.title) (host.default_title config.mode)

-- the payload as it is sent
unfoldable pub sent_payload : Host → FactoryDispatchConfig → String → PromptPayload → PromptPayload
unfolding maybe_inject_card_prompt inject_session_id
sent_payload host config session_id payload =
    let p = inject_session_id session_id payload in
    maybe_inject_card_prompt host config
      (record p { bead_id = first_some (filled config.bead_id) p.bead_id })

unfoldable pub with_session : Host → FactoryDispatchConfig → PromptPayload → Option String → Ending
unfolding sent_payload on_monitored
with_session host config payload none = stopped ExitCode.session_creation_failed
with_session host config payload (some session_id) =
    if host.accepts_prompt session_id (sent_payload host config session_id payload)
    then (if config.no_monitor
        then unmonitored session_id
        else on_monitored host config session_id (title_of host config)
            (monitor_session host.server (monitor_config config) session_id 0))
    else stopped ExitCode.prompt_dispatch_failed

-- a prompt file that is missing is a usage error, with the number of a general one
unfoldable pub with_payload : Host → FactoryDispatchConfig → Option PromptPayload → Ending
unfolding with_session
with_payload host config none = stopped ExitCode.general_error
with_payload host config (some payload) =
    with_session host config payload (given (host.create_session (title_of host config)))

unfoldable pub dispatch_one : Host → FactoryDispatchConfig → Ending
unfolding with_payload build_prompt_payload
dispatch_one host config =
    with_payload host config (build_prompt_payload host config.prompt_arg config.mode)

-- The answer of `runSingleDispatch`, by whether the output is suppressed. A call that never returns, which
-- takes a poll interval of 0, stands as an exception.
abbrev pub reply_of : Bool → Ending → SingleReply
reply_of suppress_output (stopped code) = exit code
reply_of true (unmonitored session_id) = outcome (record {
  code = ExitCode.success;
  session_id = some session_id;
  result = none;
  elapsed_seconds = none;
})
reply_of true (finished d) = outcome (record {
  code = ExitCode.success;
  session_id = some d.session_id;
  result = some d.result;
  elapsed_seconds = some d.elapsed;
})
reply_of false (unmonitored session_id) = exit ExitCode.success
reply_of false (finished d) = exit ExitCode.success
reply_of suppress_output crashed = SingleReply.threw "unreadable answer"
reply_of suppress_output still_monitoring = SingleReply.threw "monitoring without end"

unfoldable pub run_single_dispatch : Host → FactoryDispatchConfig → Bool → SingleReply
unfolding dispatch_one
run_single_dispatch host config suppress_output =
    reply_of suppress_output (dispatch_one host config)
