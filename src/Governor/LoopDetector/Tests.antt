-- ===== src/Governor/LoopDetector/Tests.antt =====
-- Runs of the loop detector of daemon/src/governor/loop-detector.ts on a session that edits and
-- reads in turn, with the default thresholds and with limits of its own.
use repomap_core.Prelude.{ℕ, ◌≡◌, refl, String, none, some, List, [], ◌∷◌, arith, map, length, ◌≤◌}
use repomap_core.Prelude.Number.{micros}
use repomap_core.Governor.Types.{
  Punch, tool_cycle, PartialThresholds, default_thresholds, LoopDetection, cycle_detected,
}
use repomap_core.Governor.LoopDetector.{
  LoopDetector, create, ingest_all, detect, detect_tool_cycle, detect_cost_overflow,
  detect_step_overflow, detect_cache_plateau, find_cycle, cycle_of_length, rows_repeat, row_repeats,
  make_detection,
}
use repomap_core.Governor.LoopDetector.Cycle.{EndsInCycle}
use repomap_core.Governor.LoopDetector.Detection.{
  InRange, IsFirst, detect_tool_cycle_sound, detect_tool_cycle_complete, detect-IsFirst,
}
use repomap_core.Governor.LoopDetector.Stream.{Totals, ingest_all-Totals}

abbrev no_overrides : PartialThresholds micros
no_overrides = record {
  max_steps = none;
  max_cost_usd = none;
  min_cycle_length = none;
  max_cycle_length = none;
  cycle_repetitions = none;
  cache_window_size = none;
  cache_plateau_ratio = none;
}

abbrev fresh : LoopDetector micros
fresh = record {
  session_id = "ses_1";
  thresholds = default_thresholds micros;
  step_count = 0;
  total_cost = 0;
  tool_call_count = 0;
  tool_history = [];
  source_hashes = [];
  start_time = 0;
}

fresh_created : create micros "ses_1" no_overrides 0 ≡ fresh
unfolding create
fresh_created = refl

abbrev call : String → Punch micros
call tool = record {
  task_id = "ses_1";
  punch_type = "tool_call";
  punch_key = tool;
  observed_at = 0;
  source_hash = tool;
  content_hash = none;
  tokens_input = none;
  tokens_output = none;
  tokens_reasoning = none;
  cost = some 100;
}

-- a read, then three turns of an edit and a test
abbrev stream : List (Punch micros)
stream = map call ("read" ∷ "edit" ∷ "bash" ∷ "edit" ∷ "bash" ∷ "edit" ∷ "bash" ∷ [])

abbrev looping : LoopDetector micros
looping = record fresh {
  tool_history = "read" ∷ "edit" ∷ "bash" ∷ "edit" ∷ "bash" ∷ "edit" ∷ "bash" ∷ [];
}

abbrev found_cycle : LoopDetection micros
unfolding make_detection
found_cycle = make_detection micros looping 9 tool_cycle (cycle_detected ("edit" ∷ "bash" ∷ []) 3 2)

looping_found : detect_tool_cycle micros looping 9 ≡ some found_cycle
unfolding detect_tool_cycle find_cycle cycle_of_length rows_repeat row_repeats
looping_found = refl

looping_detected : detect micros looping 9 ≡ some found_cycle
unfolding detect detect_tool_cycle find_cycle cycle_of_length rows_repeat row_repeats
    detect_cost_overflow detect_step_overflow
looping_detected = refl

fresh_quiet : detect micros fresh 9 ≡ none
unfolding detect detect_tool_cycle find_cycle cycle_of_length detect_cost_overflow
    detect_step_overflow detect_cache_plateau
fresh_quiet = refl

detect_tool_cycle_sound_example :
    (pattern : List String) × (found_cycle.reason ≡ cycle_detected pattern 3 (length pattern))
    × InRange micros looping pattern
    × EndsInCycle looping.tool_history 3 pattern
detect_tool_cycle_sound_example =
    detect_tool_cycle_sound micros looping 9 found_cycle (omega arith) (omega arith) looping_found

detect_tool_cycle_complete_example :
    (found : LoopDetection micros) × (shortest : List String) × (l : ℕ) × (detect_tool_cycle micros
        looping 9
      ≡ some found)
    × (found.reason ≡ cycle_detected shortest 3 l)
    × (l ≤ 2)
detect_tool_cycle_complete_example =
    detect_tool_cycle_complete micros looping 9 ("edit" ∷ "bash" ∷ []) (omega arith) (omega arith)
      (omega arith, omega arith) ("read" ∷ [], refl)

detect-IsFirst_example : IsFirst micros looping tool_cycle
unfolding found_cycle
detect-IsFirst_example =
    detect-IsFirst micros looping 9 found_cycle (omega arith) (omega arith) looping_detected

ingest_all-Totals_example : Totals micros fresh (ingest_all micros fresh stream) stream
ingest_all-Totals_example = ingest_all-Totals micros fresh stream
