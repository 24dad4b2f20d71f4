-- ===== src/Governor/Diagnosis/Tests.antt =====
-- Runs of the diagnosis, and its theorems at concrete inputs.
use repomap_core.Prelude.{
  ◌≡◌, ◌≢◌, refl, arith, ◌⊎◌, String, [], ◌∷◌, none, some, All, Distinct, length, keep, eq_iff,
}
use repomap_core.Prelude.Text.{codes}
use repomap_core.Governor.Types.{LoopClassification}
use repomap_core.Governor.Diagnosis.{
  RawPart, Message, Group, Reply, fetch_session_parts, build_tool_patterns, DiagnosisCandidate,
  DiagnosisCategory, truncate, count_trailing_errors,
}
use repomap_core.Governor.Diagnosis.Detectors.{answers, report_of, fallback, diagnose_session}
use repomap_core.Governor.Diagnosis.Chosen.{IsNone, IsFirstBest, diagnose_session-IsBest}
use repomap_core.Governor.Diagnosis.Patterns.{
  names, calls_of, errors_of, is_call, is_failed_call, build_tool_patterns-counts,
}

abbrev failed_bash : RawPart
failed_bash = record {
  kind = some "tool";
  tool = some "bash";
  state = some (record { status = some "error"; error = some (codes "exit 1") });
  content = none;
}

abbrev said : RawPart
said = record { kind = some "text"; tool = none; state = none; content = some (codes "Done.") }

abbrev session : Reply
session = Reply.messages (
    Group.one (Message.with_parts (said ∷ failed_bash ∷ []))
    ∷ Group.many (
        Message.not_object
        ∷ Message.with_parts (failed_bash ∷ [])
        ∷ Message.no_parts
        ∷ Message.with_parts (failed_bash ∷ [])
        ∷ [])
    ∷ [])

parts_fetched : length (fetch_session_parts session) ≡ 4
unfolding fetch_session_parts
parts_fetched = refl

trailing : count_trailing_errors (fetch_session_parts session) ≡ 3
unfolding fetch_session_parts count_trailing_errors
trailing = refl

diagnosed :
    (diagnose_session session "s" LoopClassification.step_overflow 0).category
    ≡ DiagnosisCategory.infinite_retry
unfolding diagnose_session fetch_session_parts build_tool_patterns
diagnosed = refl

plateau :
    (diagnose_session session "s" LoopClassification.cache_plateau 0).category
    ≡ DiagnosisCategory.context_exhaustion
unfolding diagnose_session fetch_session_parts build_tool_patterns
plateau = refl

silent : (diagnose_session Reply.unreachable "s" LoopClassification.tool_cycle 0).confidence ≡ 30
unfolding diagnose_session fetch_session_parts build_tool_patterns
silent = refl

cut : truncate (codes "abcdef") 5 ≡ codes "ab..."
unfolding truncate
cut = refl

diagnose_session-IsBest_example :
    (All IsNone (answers (fetch_session_parts session) LoopClassification.step_overflow)
      × (diagnose_session session "s" LoopClassification.step_overflow 0
          ≡ report_of "s" 0 (build_tool_patterns (fetch_session_parts session)) fallback))
    ⊎ ((c : DiagnosisCandidate) × (diagnose_session session "s" LoopClassification.step_overflow 0
          ≡ report_of "s" 0 (build_tool_patterns (fetch_session_parts session)) c)
        × IsFirstBest (answers (fetch_session_parts session) LoopClassification.step_overflow) c)
diagnose_session-IsBest_example =
    diagnose_session-IsBest session "s" LoopClassification.step_overflow 0

bash_named : ◌≢◌ {A = String} "bash" ""
bash_named = ground (arith, eq_iff "bash" "")

build_tool_patterns-counts_example :
    Distinct (names (build_tool_patterns (fetch_session_parts session)))
    × (calls_of "bash" (build_tool_patterns (fetch_session_parts session))
        ≡ length (keep (is_call "bash") (fetch_session_parts session)))
    × (errors_of "bash" (build_tool_patterns (fetch_session_parts session))
        ≡ length (keep (is_failed_call "bash") (fetch_session_parts session)))
build_tool_patterns-counts_example =
    build_tool_patterns-counts (fetch_session_parts session) "bash" bash_named
