-- ===== src/Governor/Audit.antt =====
-- daemon/src/governor/session-audit.ts, with its types of daemon/src/governor/types.ts. The database
-- is the record of what each query answers, `none` where the query is rejected. A text that the code
-- takes apart is the list of its characters; the English messages are left out, and the evidence
-- keeps their values.
pub mod Pattern
pub mod Config
pub mod Detectors
pub mod Repeats
pub mod Search
pub mod Stalls
pub mod Report
pub mod Tells
pub mod Clean
pub mod Quiet
pub mod Verdict
mod Tests
use repomap_core.Prelude.{ℕ, String, Option, List}
use repomap_core.Prelude.Number.{Number}
use repomap_core.Governor.CostBudget.{CostAgg}

pub data AuditSeverity : Type 0 where
  info warning critical : AuditSeverity

pub data AuditVerdict : Type 0 where
  pass warn fail : AuditVerdict

pub data Deviation : Type 0 where
  below_minimum above_maximum : Deviation

module _ (N : Number) where
  pub record SessionAuditConfig : Type 0 where
    pub cheap_zone_percentile_usd : N.Carrier
    pub cost_anomaly_threshold_usd : N.Carrier
    pub max_expected_steps : ℕ
    pub loop_min_pattern_length : ℕ
    pub loop_max_pattern_length : ℕ
    pub loop_min_repetitions : ℕ
    pub expected_edit_range : ℕ × ℕ
    pub max_punch_gap_seconds : ℕ
    pub required_quality_gates : List (List ℕ)

  -- the kind of a finding with its evidence
  pub data Anomaly : Type 0 where
    missing_quality_gate : (gate punch_type punch_key_pattern : List ℕ) → Anomaly
    cost_over_threshold : (total_cost threshold cost_per_100k : N.Carrier) → ℕ → Anomaly
    cost_over_cheap_zone : (total_cost cost_per_100k target : N.Carrier) → ℕ → Anomaly
    step_count_over : (step_count max_expected : ℕ) → Anomaly
    repeating_pattern : List String → (repetitions total_tool_calls : ℕ) → Anomaly
    tool_adherence_deviation : ℕ → ℕ × ℕ → Deviation → Anomaly
    child_without_punches : (parent_id child_id : String) → Anomaly
    child_without_gate : (parent_id child_id : String) → ℕ → Anomaly
    stall_detected :
        (stall_count max_gap_ms threshold_seconds : ℕ)
        → Option (ℕ × ℕ)
        → (total_punches : ℕ) → Anomaly

  pub record AuditFinding : Type 0 where
    pub severity : AuditSeverity
    pub anomaly : Anomaly

  -- a row of the punches of a session, the time in milliseconds
  pub record PunchRow : Type 0 where
    pub punch_type : String
    pub punch_key : String
    pub observed_at : ℕ

  pub record SessionMetrics : Type 0 where
    pub duration_ms : ℕ
    pub agg : CostAgg N
    pub open agg use *

  pub record SessionAuditReport : Type 0 where
    pub session_id : String
    pub audited_at : ℕ
    pub verdict : AuditVerdict
    pub findings : List AuditFinding
    pub metrics : SessionMetrics
    pub child_count : ℕ

  pub record Dolt : Type 0 where
    pub cost_agg : String → Option (CostAgg N)
    -- the least and the greatest time of a punch, as a `Date` or null
    pub time_span : String → Option (Option ℕ × Option ℕ)
    pub child_ids : String → Option (List String)
    -- the punches of type gate_pass or gate_fail whose key is LIKE the pattern
    pub gate_count : String → List ℕ → Option ℕ
    -- ordered by time
    pub punches : String → Option (List PunchRow)
    pub edit_count : String → Option ℕ
    -- the number of punches, and that of gate_pass and gate_fail among them
    pub child_status : String → Option (ℕ × ℕ)
