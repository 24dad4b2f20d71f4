-- ===== src/Governor/Types.antt =====
-- daemon/src/governor/types.ts, and the `Punch` of daemon/src/classifier/index.ts.
-- A `Date` is its number of milliseconds. A `reason` keeps the values that the code prints into
-- its text, and not the English text.
use repomap_core.Prelude.{ℕ, String, Option, List, or_else}
use repomap_core.Prelude.Number.{Number}

pub data LoopClassification : Type 0 where
  step_overflow cost_overflow tool_cycle cache_plateau : LoopClassification

module _ (N : Number) where
  pub record Punch : Type 0 where
    pub task_id : String
    pub punch_type : String
    pub punch_key : String
    pub observed_at : ℕ
    pub source_hash : String
    pub content_hash : Option String
    pub cost : Option N.Carrier
    pub tokens_input : Option N.Carrier
    pub tokens_output : Option N.Carrier
    pub tokens_reasoning : Option N.Carrier

  pub record SessionMetrics : Type 0 where
    pub step_count : ℕ
    pub total_cost : N.Carrier
    pub tool_calls : ℕ
    pub recent_tools : List String
    pub unique_source_hashes : ℕ
    pub elapsed_ms : ℕ

  pub data Reason : Type 0 where
    step_count_exceeds : ℕ → ℕ → Reason
    cost_exceeds : N.Carrier → N.Carrier → Reason
    cycle_detected : List String → ℕ → ℕ → Reason
    plateau_detected : ℕ → ℕ → N.Carrier → N.Carrier → Reason

  pub record LoopDetection : Type 0 where
    pub session_id : String
    pub classification : LoopClassification
    pub reason : Reason
    pub metrics : SessionMetrics
    pub detected_at : ℕ

  pub record GovernorThresholds : Type 0 where
    pub max_steps : ℕ
    pub max_cost_usd : N.Carrier
    pub min_cycle_length : ℕ
    pub max_cycle_length : ℕ
    pub cycle_repetitions : ℕ
    pub cache_window_size : ℕ
    pub cache_plateau_ratio : N.Carrier

  -- `0.3` is the double nearest to 3 / 10, which is what the division gives.
  abbrev pub default_thresholds : GovernorThresholds
  default_thresholds = record {
    max_steps = 100;
    max_cost_usd = N.of_ℕ 10;
    min_cycle_length = 2;
    max_cycle_length = 6;
    cycle_repetitions = 3;
    cache_window_size = 20;
    cache_plateau_ratio = N.over (N.of_ℕ 3) (N.of_ℕ 10);
  }

  -- `Partial<GovernorThresholds>`
  pub record PartialThresholds : Type 0 where
    pub max_steps : Option ℕ
    pub max_cost_usd : Option N.Carrier
    pub min_cycle_length : Option ℕ
    pub max_cycle_length : Option ℕ
    pub cycle_repetitions : Option ℕ
    pub cache_window_size : Option ℕ
    pub cache_plateau_ratio : Option N.Carrier

  -- `{ ...thresholds, ...overrides }`
  abbrev pub override : GovernorThresholds → PartialThresholds → GovernorThresholds
  override t o = record {
    max_steps = or_else o.max_steps t.max_steps;
    max_cost_usd = or_else o.max_cost_usd t.max_cost_usd;
    min_cycle_length = or_else o.min_cycle_length t.min_cycle_length;
    max_cycle_length = or_else o.max_cycle_length t.max_cycle_length;
    cycle_repetitions = or_else o.cycle_repetitions t.cycle_repetitions;
    cache_window_size = or_else o.cache_window_size t.cache_window_size;
    cache_plateau_ratio = or_else o.cache_plateau_ratio t.cache_plateau_ratio;
  }
