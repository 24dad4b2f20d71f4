-- ===== src/Governor/Diagnosis.antt =====
-- daemon/src/governor/diagnosis-engine.ts: why a killed session was running away, with the types of
-- daemon/src/governor/types.ts that it uses. The messages of the session are the answer of its
-- server, in the shape that the code reads them in. A confidence is its number of hundredths, and the
-- ratios of counts are compared multiplied out. A `summary` and a `suggestedAction` are the case of
-- the code that writes them, with the values that are printed into the text. Texts that are searched
-- or cut are lists of their units.
pub mod Detectors
mod Chosen
mod Patterns
mod Tests
use mathlib.Core.List.{reverse}
use repomap_core.Prelude.{
  ℕ, ◌+◌, ◌-◌, String, Bool, false, ◌&&◌, List, [], ◌∷◌, ◌++◌, Option, none, some, leb, length,
  take, str_eq, if◌then◌else◌, or_else,
}

pub data DiagnosisCategory : Type 0 where
  stuck_on_approval infinite_retry scope_creep context_exhaustion model_confusion :
      DiagnosisCategory

pub record ToolPattern : Type 0 where
  pub tool : String
  pub count : ℕ
  pub error_count : ℕ
  pub last_status : String

pub record PartInfo : Type 0 where
  pub kind : String
  pub tool : Option String
  pub status : Option String
  pub error : Option (List ℕ)
  pub content : Option (List ℕ)

-- which text, and the values in it
pub data Summary : Type 0 where
  no_tool_calls_in_tail : Summary
  mentions_approval_keywords : Summary
  failing_repeatedly : String → ℕ → List ℕ → Summary
  has_errors : String → ℕ → ℕ → Summary
  cache_plateau_seen : Summary
  share_of_reads : ℕ → ℕ → Summary
  edit_operations : ℕ → Summary
  possible_scope_creep : ℕ → Summary
  flip_flop_cycles : ℕ → Summary
  tools_with_errors : ℕ → Summary
  unable_to_classify : Summary

pub data SuggestedAction : Type 0 where
  auto_approve_file_operations auto_approve : SuggestedAction
  include_fix_hint : String → SuggestedAction
  include_error_context : String → SuggestedAction
  split_into_subtasks split_with_file_paths : SuggestedAction
  narrow_scope_and_constraints narrow_scope : SuggestedAction
  switch_model_and_simplify switch_model_with_examples : SuggestedAction
  simplify_and_switch_model : SuggestedAction

pub record DiagnosisCandidate : Type 0 where
  pub category : DiagnosisCategory
  pub confidence : ℕ
  pub summary : Summary
  pub suggested_action : SuggestedAction

pub record DiagnosisReport : Type 0 where
  pub session_id : String
  pub category : DiagnosisCategory
  pub confidence : ℕ
  pub summary : Summary
  pub suggested_action : SuggestedAction
  pub tool_patterns : List ToolPattern
  pub diagnosed_at : ℕ

-- `x === text` where x may be undefined
abbrev pub is_text : Option String → String → Bool
is_text none text = false
is_text (some s) text = str_eq s text

abbrev pub is_type : String → PartInfo → Bool
is_type kind p = str_eq p.kind kind

abbrev pub is_error : PartInfo → Bool
is_error p = is_text p.status "error"

-- The session's messages as the server gives them. An entry is a message or a list of them; a
-- message is no object, has no parts, or has a list of parts.
pub record RawState : Type 0 where
  pub status : Option String
  pub error : Option (List ℕ)

pub record RawPart : Type 0 where
  pub kind : Option String
  pub tool : Option String
  pub state : Option RawState
  pub content : Option (List ℕ)

pub data Message : Type 0 where
  not_object : Message
  no_parts : Message
  with_parts : List RawPart → Message

pub data Group : Type 0 where
  one : Message → Group
  many : List Message → Group

pub data Reply : Type 0 where
  unreachable : Reply
  no_data : Reply
  messages : List Group → Reply

abbrev status_of : Option RawState → Option String
status_of none = none
status_of (some s) = s.status

abbrev error_of : Option RawState → Option (List ℕ)
error_of none = none
error_of (some s) = s.error

unfoldable pub to_part_info : RawPart → PartInfo
to_part_info p = record {
  kind = or_else p.kind "unknown";
  tool = p.tool;
  status = status_of p.state;
  error = error_of p.state;
  content = p.content;
}

unfoldable pub parts_of_list : List RawPart → List PartInfo
unfolding to_part_info
parts_of_list [] = []
parts_of_list (p ∷ ps) = to_part_info p ∷ parts_of_list ps

unfoldable pub parts_of_message : Message → List PartInfo
unfolding parts_of_list
parts_of_message not_object = []
parts_of_message no_parts = []
parts_of_message (with_parts ps) = parts_of_list ps

unfoldable pub parts_of_items : List Message → List PartInfo
unfolding parts_of_message
parts_of_items [] = []
parts_of_items (m ∷ ms) = parts_of_message m ++ parts_of_items ms

unfoldable pub parts_of_group : Group → List PartInfo
unfolding parts_of_items
parts_of_group (one m) = parts_of_items (m ∷ [])
parts_of_group (many ms) = parts_of_items ms

unfoldable pub parts_of_groups : List Group → List PartInfo
unfolding parts_of_group
parts_of_groups [] = []
parts_of_groups (g ∷ gs) = parts_of_group g ++ parts_of_groups gs

unfoldable pub fetch_session_parts : Reply → List PartInfo
unfolding parts_of_groups
fetch_session_parts unreachable = []
fetch_session_parts no_data = []
fetch_session_parts (messages gs) = parts_of_groups gs

-- `truncate(s, maxLen)`, for limits of at least 3; 46 is the full stop
unfoldable pub truncate : List ℕ → ℕ → List ℕ
truncate s max_len = if leb (length s) max_len then s else take (max_len - 3) s ++ 46 ∷ 46 ∷ 46 ∷ []

-- one more call of a tool; a status that is missing or empty leaves the last status as it was
unfoldable pub last_status_of : Option String → String → String
last_status_of none old = old
last_status_of (some s) old = if str_eq s "" then old else s

unfoldable pub count_call : PartInfo → ToolPattern → ToolPattern
unfolding last_status_of
count_call part existing = record {
  tool = existing.tool;
  count = existing.count + 1;
  error_count = if is_error part then existing.error_count + 1 else existing.error_count;
  last_status = last_status_of part.status existing.last_status;
}

abbrev pub unused : String → ToolPattern
unused tool = record { tool = tool; count = 0; error_count = 0; last_status = "unknown" }

-- `map.set(part.tool, existing)`: a map keeps the order in which its keys came
unfoldable pub count_in : String → PartInfo → List ToolPattern → List ToolPattern
unfolding count_call
count_in tool part [] = count_call part (unused tool) ∷ []
count_in tool part (p ∷ ps) =
    let rest = count_in tool part ps in
    if str_eq p.tool tool then count_call part p ∷ ps else p ∷ rest

-- a part of no tool, or with no or an empty tool name, is passed over
unfoldable pub count_named : Option String → PartInfo → List ToolPattern → List ToolPattern
unfolding count_in
count_named none part ps = ps
count_named (some tool) part ps = if str_eq tool "" then ps else count_in tool part ps

unfoldable pub count_part : PartInfo → List ToolPattern → List ToolPattern
unfolding count_named
count_part part ps = if is_type "tool" part then count_named part.tool part ps else ps

unfoldable pub count_parts : List PartInfo → List ToolPattern → List ToolPattern
unfolding count_part
count_parts [] ps = ps
count_parts (part ∷ parts) ps = count_parts parts (count_part part ps)

unfoldable pub build_tool_patterns : List PartInfo → List ToolPattern
unfolding count_parts
build_tool_patterns parts = count_parts parts []

-- the errors at the start of the reversed list, which is the walk from the end
unfoldable pub count_errors : List PartInfo → ℕ
count_errors [] = 0
count_errors (p ∷ ps) = let rest = count_errors ps in if is_error p then 1 + rest else 0

unfoldable pub count_trailing_errors : List PartInfo → ℕ
unfolding count_errors
count_trailing_errors parts = count_errors (reverse parts)
