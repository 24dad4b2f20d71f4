-- ===== src/Governor/Diagnosis/Detectors.antt =====
-- The five classifiers of daemon/src/governor/diagnosis-engine.ts and the choice among them.
use repomap_core.Prelude.{
  ℕ, ◌+◌, ◌*◌, String, Bool, true, false, ◌&&◌, ◌||◌, List, [], ◌∷◌, Option, none, some, leb, ltb,
  ◌==◌, length, keep, any, last?, slice_last, if◌then◌else◌, or_else,
}
use repomap_core.Prelude.Text.{codes, to_lower, includes}
use repomap_core.Governor.Types.{LoopClassification}
use repomap_core.Governor.Diagnosis.{
  PartInfo, ToolPattern, DiagnosisCategory, DiagnosisCandidate, DiagnosisReport, Summary,
  SuggestedAction, is_type, is_text, Reply, fetch_session_parts, build_tool_patterns,
  count_trailing_errors, truncate,
}

abbrev pub text_parts : List PartInfo → List PartInfo
text_parts = keep (is_type "text")

abbrev pub tool_parts : List PartInfo → List PartInfo
tool_parts = keep (is_type "tool")

abbrev pub candidate : DiagnosisCategory → ℕ → Summary → SuggestedAction → Option DiagnosisCandidate
candidate category confidence summary action = some (record {
  category = category;
  confidence = confidence;
  summary = summary;
  suggested_action = action;
})

abbrev pub approval_keywords : List (List ℕ)
approval_keywords =
    codes "permission" ∷ codes "approve" ∷ codes "confirm" ∷ codes "proceed" ∷ codes "allow" ∷ []

-- a content that is missing or empty mentions nothing
unfoldable pub mentions : Option (List ℕ) → Bool
unfolding to_lower includes
mentions none = false
mentions (some []) = false
mentions (some (c ∷ cs)) = any (includes (to_lower (c ∷ cs))) approval_keywords

abbrev pub mentions_approval : List PartInfo → Bool
mentions_approval = any (λ p. mentions p.content)

unfoldable pub detect_stuck_on_approval : List PartInfo → Option DiagnosisCandidate
unfolding mentions
detect_stuck_on_approval parts =
    let tail = slice_last 10 parts in
    if ltb (length parts) 5
    then none
    else if leb 7 (length (text_parts tail)) && length (tool_parts tail) == 0
    then candidate DiagnosisCategory.stuck_on_approval 75 Summary.no_tool_calls_in_tail
        SuggestedAction.auto_approve_file_operations
    else if mentions_approval tail && leb (length (tool_parts tail)) 2
    then candidate DiagnosisCategory.stuck_on_approval 65 Summary.mentions_approval_keywords
        SuggestedAction.auto_approve
    else none

-- called three times or more, with an error in at least half of the calls
abbrev pub is_failing : ToolPattern → Bool
is_failing p = leb 3 p.count && leb p.count (2 * p.error_count)

-- the first of the highest error rate, which a stable sort by falling rate puts first
unfoldable pub worse_of : ToolPattern → List ToolPattern → ToolPattern
worse_of worst [] = worst
worse_of worst (p ∷ ps) =
    worse_of (if ltb (worst.error_count * p.count) (p.error_count * worst.count) then p else worst)
      ps

abbrev pub tool_of : Option PartInfo → String
tool_of none = "unknown"
tool_of (some p) = or_else p.tool "unknown"

abbrev pub error_of : Option PartInfo → List ℕ
error_of none = codes "unknown error"
error_of (some p) = or_else p.error (codes "unknown error")

abbrev pub retry_streak : List PartInfo → ℕ → Option DiagnosisCandidate
retry_streak last_n error_streak =
    let failing_tool = tool_of (last? last_n) in
    candidate DiagnosisCategory.infinite_retry 85
      (Summary.failing_repeatedly failing_tool error_streak
        (truncate (error_of (last? last_n)) 200))
      (SuggestedAction.include_fix_hint failing_tool)

abbrev pub retry_worst : ToolPattern → Option DiagnosisCandidate
retry_worst worst =
    candidate DiagnosisCategory.infinite_retry 60
      (Summary.has_errors worst.tool worst.error_count worst.count)
      (SuggestedAction.include_error_context worst.tool)

unfoldable pub retry_of : List PartInfo → List ToolPattern → Option DiagnosisCandidate
unfolding worse_of truncate count_trailing_errors
retry_of last_n [] = none
retry_of last_n (p ∷ ps) =
    let error_streak = count_trailing_errors last_n in
    if leb 3 error_streak then retry_streak last_n error_streak else retry_worst (worse_of p ps)

unfoldable pub detect_infinite_retry : List PartInfo → List ToolPattern → Option DiagnosisCandidate
unfolding retry_of
detect_infinite_retry parts patterns =
    retry_of (slice_last 10 (tool_parts parts)) (keep is_failing patterns)

-- `p.type === "tool"` and the tool is one of the names
abbrev pub uses : List String → PartInfo → Bool
uses names p = is_type "tool" p && any (is_text p.tool) names

abbrev pub read_names : List String
read_names = "read" ∷ "readFile" ∷ "Read" ∷ "cat" ∷ "grep" ∷ "Grep" ∷ []

abbrev pub edit_names : List String
edit_names = "edit" ∷ "editFile" ∷ "Edit" ∷ "write" ∷ "Write" ∷ "writeFile" ∷ []

abbrev pub is_cache_plateau : LoopClassification → Bool
is_cache_plateau LoopClassification.cache_plateau = true
is_cache_plateau _ = false

unfoldable pub detect_context_exhaustion :
    List PartInfo → LoopClassification → Option DiagnosisCandidate
detect_context_exhaustion parts trigger =
    let reads = length (keep (uses read_names) parts) in
    let total_tools = length (tool_parts parts) in
    if is_cache_plateau trigger
    then candidate DiagnosisCategory.context_exhaustion 90 Summary.cache_plateau_seen
        SuggestedAction.split_into_subtasks
    else if ltb reads 10
    then none
    else if ltb (7 * total_tools) (10 * reads)
    then candidate DiagnosisCategory.context_exhaustion 70
        (Summary.share_of_reads reads total_tools) SuggestedAction.split_with_file_paths
    else none

unfoldable pub detect_scope_creep : List PartInfo → Option DiagnosisCandidate
detect_scope_creep parts =
    let edits = length (keep (uses edit_names) parts) in
    if ltb 15 edits
    then candidate DiagnosisCategory.scope_creep 75 (Summary.edit_operations edits)
        SuggestedAction.narrow_scope_and_constraints
    else if ltb 8 edits
    then candidate DiagnosisCategory.scope_creep 50 (Summary.possible_scope_creep edits)
        SuggestedAction.narrow_scope
    else none

abbrev pub is_edit : PartInfo → Bool
is_edit p = is_text p.tool "edit" || is_text p.tool "Edit"

abbrev pub is_undo : PartInfo → Bool
is_undo p = is_text p.tool "undo" || is_text p.tool "revert"

-- the triples of neighbours that are an edit, an undo and an edit
unfoldable pub flip_flops : List PartInfo → ℕ
flip_flops [] = 0
flip_flops (a ∷ []) = 0
flip_flops (a ∷ b ∷ []) = 0
flip_flops (a ∷ b ∷ c ∷ ps) =
    let rest = flip_flops (b ∷ c ∷ ps) in
    if is_edit a && is_undo b && is_edit c then 1 + rest else rest

abbrev pub has_error : ToolPattern → Bool
has_error p = ltb 0 p.error_count

unfoldable pub detect_model_confusion : List PartInfo → List ToolPattern → Option DiagnosisCandidate
unfolding flip_flops
detect_model_confusion parts patterns =
    let cycles = flip_flops (tool_parts parts) in
    let failing_tool_count = length (keep has_error patterns) in
    if leb 2 cycles
    then candidate DiagnosisCategory.model_confusion 80 (Summary.flip_flop_cycles cycles)
        SuggestedAction.switch_model_and_simplify
    else if leb 4 failing_tool_count
    then candidate DiagnosisCategory.model_confusion 60
        (Summary.tools_with_errors failing_tool_count) SuggestedAction.switch_model_with_examples
    else none

-- the answers of the classifiers in the order in which they run
abbrev pub answers : List PartInfo → LoopClassification → List (Option DiagnosisCandidate)
answers parts trigger =
    let patterns = build_tool_patterns parts in
    detect_stuck_on_approval parts
    ∷ detect_infinite_retry parts patterns
    ∷ detect_context_exhaustion parts trigger
    ∷ detect_scope_creep parts
    ∷ detect_model_confusion parts patterns
    ∷ []

-- a candidate takes the place of the best only if there is none or its confidence is higher
unfoldable pub better_of : Option DiagnosisCandidate → DiagnosisCandidate → DiagnosisCandidate
better_of none c = c
better_of (some best) c = if ltb best.confidence c.confidence then c else best

unfoldable pub take_best :
    Option DiagnosisCandidate → List (Option DiagnosisCandidate) → Option DiagnosisCandidate
unfolding better_of
take_best best [] = best
take_best best (none ∷ cs) = take_best best cs
take_best best (some c ∷ cs) = take_best (some (better_of best c)) cs

abbrev pub fallback : DiagnosisCandidate
fallback = record {
  category = DiagnosisCategory.model_confusion;
  confidence = 30;
  summary = Summary.unable_to_classify;
  suggested_action = SuggestedAction.simplify_and_switch_model;
}

unfoldable pub report_of : String → ℕ → List ToolPattern → DiagnosisCandidate → DiagnosisReport
report_of session_id now patterns best = record {
  session_id = session_id;
  category = best.category;
  confidence = best.confidence;
  summary = best.summary;
  suggested_action = best.suggested_action;
  tool_patterns = patterns;
  diagnosed_at = now;
}

-- `diagnoseSession`, by the fields of the confirmation that it reads
unfoldable pub diagnose_session : Reply → String → LoopClassification → ℕ → DiagnosisReport
unfolding take_best report_of detect_stuck_on_approval detect_infinite_retry
    detect_context_exhaustion detect_scope_creep detect_model_confusion
diagnose_session reply session_id trigger now =
    let parts = fetch_session_parts reply in
    report_of session_id now (build_tool_patterns parts)
      (or_else (take_best none (answers parts trigger)) fallback)
