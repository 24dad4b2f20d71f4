-- ===== src/Infra/Kilo.antt =====
-- daemon/src/infra/kilo-client.ts: what a session's messages say of it, and `monitorSession`. The
-- server is the record `Server` of functions of the number of requests that were made before, so it
-- may answer each request in any way. A message has the documented fields; a body is malformed where
-- reading it throws. The answer to a request
-- for children is taken to be a list, as the code casts it. A text is its characters. Log lines are left out; the waits are the seconds that are added up.
pub mod Rounds
mod Ends
mod Confirms
mod Settles
mod Eventually
mod Tests
use mathlib.Core.List.{reverse}
use repomap_core.Prelude.{
  ℕ, zero, suc, ◌+◌, String, Bool, true, false, not, ◌&&◌, ◌||◌, List, [], ◌∷◌, ◌++◌, Option, none,
  some, ltb, leb, length, str_eq, if◌then◌else◌, or_else, any,
}
use repomap_core.Prelude.Words.{size, strip}

pub record MessagePart : Type 0 where
  pub kind : String
  pub text : Option String
  pub reason : Option String
  pub status : Option String

pub record SessionMessage : Type 0 where
  pub role : Option String
  pub parts : List MessagePart

pub record ChildSession : Type 0 where
  pub id : String

-- `data === text` where data may be undefined
abbrev pub is_word : Option String → String → Bool
is_word none text = false
is_word (some s) text = str_eq s text

unfoldable pub is_tool_running : MessagePart → Bool
is_tool_running p =
    str_eq p.kind "tool" && (is_word p.status "running" || is_word p.status "pending")

unfoldable pub is_terminal_finish_reason : String → Bool
is_terminal_finish_reason reason =
    str_eq reason "end_turn"
    || str_eq reason "stop"
    || str_eq reason "max_tokens"
    || str_eq reason ""

-- the two flags of `isSessionDone`
pub record Flags : Type 0 where
  pub has_terminal_finish : Bool
  pub has_running_tools : Bool

abbrev pub finish_flag : String → Bool → Bool
finish_flag reason flag =
    if str_eq reason "tool-calls"
    then false
    else if is_terminal_finish_reason reason
    then true
    else flag

unfoldable pub read_part : Flags → MessagePart → Flags
unfolding is_tool_running is_terminal_finish_reason
read_part f p = record {
  has_terminal_finish =
      if str_eq p.kind "step-finish"
      then finish_flag (or_else p.reason "") f.has_terminal_finish
      else f.has_terminal_finish;
  has_running_tools = if is_tool_running p then true else f.has_running_tools;
}

unfoldable pub read_parts : Flags → List MessagePart → Flags
unfolding read_part
read_parts f [] = f
read_parts f (p ∷ ps) = read_parts (read_part f p) ps

unfoldable pub read_messages : Flags → List SessionMessage → Flags
unfolding read_parts
read_messages f [] = f
read_messages f (m ∷ ms) = read_messages (read_parts f m.parts) ms

unfoldable pub is_session_done : List SessionMessage → Bool
unfolding read_messages
is_session_done messages =
    let f =
      read_messages (record { has_terminal_finish = false; has_running_tools = false }) messages in
    f.has_terminal_finish && not f.has_running_tools

-- a request that fails, a status that is not a success, or a body
pub data Reply (A : Type 0) : Type 0 where
  unreachable : Reply A
  not_ok : Reply A
  body : A → Reply A

pub data Messages : Type 0 where
  listed : List SessionMessage → Messages
  malformed : Messages

pub record Server : Type 0 where
  pub children : ℕ → String → Reply (List ChildSession)
  pub messages : ℕ → String → Reply Messages

unfoldable pub fetch_children : Reply (List ChildSession) → List ChildSession
fetch_children unreachable = []
fetch_children not_ok = []
fetch_children (body children) = children

unfoldable pub fetch_messages : Reply Messages → Messages
fetch_messages unreachable = listed []
fetch_messages not_ok = listed []
fetch_messages (body messages) = messages

pub data DoneStatus : Type 0 where
  done not_done unclear : DoneStatus

unfoldable pub resolve_done_status : Messages → DoneStatus
unfolding is_session_done
resolve_done_status (listed messages) = if is_session_done messages then done else not_done
resolve_done_status malformed = unclear

abbrev pub has_running : List SessionMessage → Bool
has_running = any (λ m. any is_tool_running m.parts)

-- the answer of `areAllChildrenDone` and the requests made until then, or an exception
pub data Checked : Type 0 where
  all_done : ℕ → Checked
  still_running : ℕ → Checked
  unreadable : Checked

-- the next child is asked only if this one has nothing running
abbrev pub after_child : Messages → ℕ → Checked → Checked
after_child (listed messages) asked rest =
    if has_running messages then still_running asked else rest
after_child malformed asked rest = unreadable

unfoldable pub are_all_children_done : Server → ℕ → List ChildSession → Checked
unfolding fetch_messages is_tool_running
are_all_children_done server asked [] = all_done asked
are_all_children_done server asked (child ∷ children) =
    let passed = are_all_children_done server asked children in
    let rest =
      after_child (fetch_messages (server.messages asked child.id)) (suc asked)
        (are_all_children_done server (suc asked) children) in
    if str_eq child.id "" then passed else rest

-- `extractResult`: the last assistant message with a text that fits, long texts first
abbrev pub fitting : (String → Bool) → Option String → Option String
fitting fits none = none
fitting fits (some text) = if fits text then some text else none

abbrev pub or_next : Option String → Option String → Option String
or_next none next = next
or_next (some text) next = some text

unfoldable pub find_in_parts : (String → Bool) → List MessagePart → Option String
find_in_parts fits [] = none
find_in_parts fits (p ∷ ps) =
    or_next (if str_eq p.kind "text" then fitting fits p.text else none) (find_in_parts fits ps)

unfoldable pub find_in_messages : (String → Bool) → List SessionMessage → Option String
unfolding find_in_parts
find_in_messages fits [] = none
find_in_messages fits (m ∷ ms) =
    or_next (if is_word m.role "assistant" then find_in_parts fits m.parts else none)
      (find_in_messages fits ms)

unfoldable pub find_assistant_text : (String → Bool) → List SessionMessage → Option String
unfolding find_in_messages
find_assistant_text fits messages = find_in_messages fits (reverse messages)

abbrev pub is_substantial : String → Bool
is_substantial text = ltb 100 (size text)

unfoldable pub is_not_blank : String → Bool
unfolding strip
is_not_blank text = not (str_eq (strip text) "")

unfoldable pub extract_result : List SessionMessage → Option String
unfolding find_assistant_text is_not_blank
extract_result messages =
    or_next (find_assistant_text is_substantial messages)
      (find_assistant_text is_not_blank messages)
