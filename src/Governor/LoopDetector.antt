-- ===== src/Governor/LoopDetector.antt =====
-- daemon/src/governor/loop-detector.ts. A method that mutates the detector returns the new record;
-- `Date.now()` is the argument `now`.
pub mod Cycle
pub mod Detection
pub mod Stream
mod Tests
use repomap_core.Prelude.{
  ℕ, zero, suc, ◌+◌, ◌-◌, ◌*◌, String, Bool, true, false, Option, none, some, List, [], ◌∷◌, ◌++◌,
  str_eq, ltb, leb, if◌then◌else◌, or_else, first_some, length, take, get_elem?, slice_last, set_of,
}
use repomap_core.Prelude.Number.{Number}
use repomap_core.Governor.Types.{
  LoopClassification, step_overflow, cost_overflow, tool_cycle, cache_plateau, Punch,
  SessionMetrics, Reason, step_count_exceeds, cost_exceeds, cycle_detected, plateau_detected,
  LoopDetection, GovernorThresholds, PartialThresholds, default_thresholds, override,
}

-- `!==` on array reads, where a read out of range is `undefined`
abbrev pub same_tool : Option String → Option String → Bool
same_tool none none = true
same_tool none (some b) = false
same_tool (some a) none = false
same_tool (some a) (some b) = str_eq a b

-- the loop over i, from i, with the rounds left
unfoldable pub row_repeats : List String → List String → ℕ → ℕ → ℕ → Bool
row_repeats tail pattern base i zero = true
row_repeats tail pattern base i (suc rounds) =
    let rest = row_repeats tail pattern base (suc i) rounds in
    if same_tool (get_elem? tail (base + i)) (get_elem? pattern i) then rest else false

-- the loop over rep, from rep, with the rounds left
unfoldable pub rows_repeat : List String → List String → ℕ → ℕ → ℕ → Bool
rows_repeat tail pattern len rep zero = true
rows_repeat tail pattern len rep (suc rounds) =
    let rest = rows_repeat tail pattern len (suc rep) rounds in
    if row_repeats tail pattern (rep * len) 0 len then rest else false

-- the body of the loop over len: the pattern, if it repeats
unfoldable pub cycle_of_length : List String → ℕ → ℕ → Option (List String)
cycle_of_length history repetitions len =
    let tail = slice_last (len * repetitions) history in
    let pattern = take len tail in
    if ltb (length history) (len * repetitions)
    then none
    else if rows_repeat tail pattern len 1 (repetitions - 1)
    then some pattern
    else none

-- the loop over len, from len, with the rounds left: the first length that repeats, with its pattern
unfoldable pub find_cycle : List String → ℕ → ℕ → ℕ → Option (ℕ × List String)
find_cycle history repetitions len zero = none
find_cycle history repetitions len (suc rounds) = elim (cycle_of_length history repetitions len) [
  | some pattern ↦ some (len, pattern)
  | none ↦ find_cycle history repetitions (suc len) rounds
]

module _ (N : Number) where
  pub record LoopDetector : Type 0 where
    pub session_id : String
    pub thresholds : GovernorThresholds N
    pub step_count : ℕ
    pub total_cost : N.Carrier
    pub tool_call_count : ℕ
    pub tool_history : List String
    pub source_hashes : List String
    pub start_time : ℕ

  unfoldable pub create : String → PartialThresholds N → ℕ → LoopDetector
  create session_id overrides now = record {
    session_id = session_id;
    thresholds = override N (default_thresholds N) overrides;
    step_count = 0;
    total_cost = N.of_ℕ 0;
    tool_call_count = 0;
    tool_history = [];
    source_hashes = [];
    start_time = now;
  }

  count_step : Punch N → LoopDetector → LoopDetector
  count_step p d =
      if str_eq p.punch_type "step_complete" then record d { step_count = d.step_count + 1 } else d

  count_tool : Punch N → LoopDetector → LoopDetector
  count_tool p d =
      if str_eq p.punch_type "tool_call"
      then record d {
        tool_call_count = d.tool_call_count + 1;
        tool_history = d.tool_history ++ p.punch_key ∷ [];
      }
      else d

  add_cost : Punch N → LoopDetector → LoopDetector
  add_cost p d = elim p.cost [ none ↦ d | some c ↦ record d { total_cost = N.plus d.total_cost c } ]

  add_hash : Punch N → LoopDetector → LoopDetector
  add_hash p d = record d {
    source_hashes = d.source_hashes ++ or_else p.content_hash p.source_hash ∷ [];
  }

  unfoldable pub ingest : LoopDetector → Punch N → LoopDetector
  unfolding count_step count_tool add_cost add_hash
  ingest d p = add_hash p (add_cost p (count_tool p (count_step p d)))

  unfoldable pub ingest_all : LoopDetector → List (Punch N) → LoopDetector
  ingest_all d [] = d
  ingest_all d (p ∷ ps) = ingest_all (ingest d p) ps

  -- A clock that runs backwards would give a negative `elapsedMs`; here it gives 0.
  unfoldable pub get_metrics : LoopDetector → ℕ → SessionMetrics N
  get_metrics d now = record {
    step_count = d.step_count;
    total_cost = d.total_cost;
    tool_calls = d.tool_call_count;
    recent_tools = slice_last d.thresholds.cache_window_size d.tool_history;
    unique_source_hashes =
        length (set_of (slice_last d.thresholds.cache_window_size d.source_hashes));
    elapsed_ms = now - d.start_time;
  }

  make_detection : LoopDetector → ℕ → LoopClassification → Reason N → LoopDetection N
  unfolding get_metrics
  make_detection d now classification reason = record {
    session_id = d.session_id;
    classification = classification;
    reason = reason;
    metrics = get_metrics d now;
    detected_at = now;
  }

  unfoldable pub detect_step_overflow : LoopDetector → ℕ → Option (LoopDetection N)
  unfolding make_detection
  detect_step_overflow d now =
      if leb d.step_count d.thresholds.max_steps
      then none
      else some (
          make_detection d now step_overflow
            (step_count_exceeds d.step_count d.thresholds.max_steps))

  unfoldable pub detect_cost_overflow : LoopDetector → ℕ → Option (LoopDetection N)
  unfolding make_detection
  detect_cost_overflow d now =
      if N.le d.total_cost d.thresholds.max_cost_usd
      then none
      else some
          (make_detection d now cost_overflow (cost_exceeds d.total_cost d.thresholds.max_cost_usd))

  unfoldable pub detect_tool_cycle : LoopDetector → ℕ → Option (LoopDetection N)
  unfolding make_detection
  detect_tool_cycle d now =
      let t = d.thresholds in
      elim (find_cycle d.tool_history t.cycle_repetitions t.min_cycle_length
        (t.max_cycle_length + 1 - t.min_cycle_length)) [
          | none ↦ none
          | some (len, pattern) ↦
              some
                (make_detection d now tool_cycle (cycle_detected pattern t.cycle_repetitions len))
        ]

  unfoldable pub detect_cache_plateau : LoopDetector → ℕ → Option (LoopDetection N)
  unfolding make_detection
  detect_cache_plateau d now =
      let t = d.thresholds in
      let unique_count = length (set_of (slice_last t.cache_window_size d.source_hashes)) in
      let ratio = N.over (N.of_ℕ unique_count) (N.of_ℕ t.cache_window_size) in
      if ltb (length d.source_hashes) t.cache_window_size
      then none
      else if N.le t.cache_plateau_ratio ratio
      then none
      else some (
          make_detection d now cache_plateau
            (plateau_detected unique_count t.cache_window_size ratio t.cache_plateau_ratio))

  unfoldable pub detect : LoopDetector → ℕ → Option (LoopDetection N)
  detect d now = first_some (detect_cost_overflow d now) (
      first_some (detect_step_overflow d now)
        (first_some (detect_tool_cycle d now) (detect_cache_plateau d now)))
