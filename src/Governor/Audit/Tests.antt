-- ===== src/Governor/Audit/Tests.antt =====
-- Audits of small sessions, after daemon/src/governor/session-audit.ts.
use repomap_core.Prelude.{
  ℕ, ◌≡◌, ◌↔◌, ◌⊎◌, refl, arith, String, true, none, some, List, [], ◌∷◌, if◌then◌else◌, str_eq,
}
use repomap_core.Prelude.Number.{micros}
use repomap_core.Prelude.Text.{codes}
use repomap_core.Governor.CostBudget.{done, CostAgg}
use repomap_core.Governor.CostBudget.Config.{Environment}
use repomap_core.Governor.Audit.{
  pass, fail, critical, SessionAuditConfig, SessionAuditReport, PunchRow, Dolt, stall_detected,
}
use repomap_core.Governor.Audit.Config.{default_audit_config}
use repomap_core.Governor.Audit.Pattern.{Repeating, find_repeating_pattern}
use repomap_core.Governor.Audit.Search.{Found, NoneThere, find_repeating_pattern_decides}
use repomap_core.Governor.Audit.Detectors.{
  key_pattern, detect_missing_quality_gates, detect_cost_anomalies, detect_loop_signatures,
  detect_tool_adherence_deviation, detect_incomplete_subtask_tree,
}
use repomap_core.Governor.Audit.Stalls.{stall_findings, detect_stalls}
use repomap_core.Governor.Audit.Report.{run_audit}
use repomap_core.Governor.Audit.Verdict.{IsClean, IsBad, run_audit-verdict}

abbrev config : SessionAuditConfig micros
config = default_audit_config micros

abbrev punch : String → String → ℕ → PunchRow micros
punch type key at = record { punch_type = type; punch_key = key; observed_at = at }

abbrev agg : CostAgg micros
agg = record {
  total_cost = 400000;
  step_count = 2;
  tokens_input = 90000;
  tokens_output = 10000;
  tokens_reasoning = 0;
  punch_count = 3;
}

abbrev session : List (PunchRow micros)
session =
    punch "step_complete" "step_finished" 1000
    ∷ punch "tool_call" "edit_file" 4000
    ∷ punch "step_complete" "step_finished" 9000
    ∷ []

abbrev db : Dolt micros
db = record {
  cost_agg = λ id. some agg;
  time_span = λ id. some (some 1000, some 9000);
  child_ids = λ id. some ("child" ∷ []);
  gate_count = λ id pattern. some 1;
  punches = λ id. some session;
  edit_count = λ id. some 1;
  child_status = λ id. some (5, 1);
}

abbrev report : SessionAuditReport micros
report = record {
  session_id = "s";
  audited_at = 10000;
  verdict = pass;
  findings = [];
  metrics = record { duration_ms = 8000; agg = agg };
  child_count = 1;
}

session_passes : run_audit micros config db "s" 10000 ≡ done report
unfolding run_audit detect_missing_quality_gates detect_cost_anomalies detect_loop_signatures
    detect_tool_adherence_deviation detect_incomplete_subtask_tree detect_stalls
session_passes = refl

run_audit-verdict_example :
    ((pass ≡ pass) ↔ IsClean micros config db "s" report.metrics)
    × ((pass ≡ fail) ↔ IsBad micros config db "s" report.metrics)
run_audit-verdict_example =
    run_audit-verdict micros config db "s" (omega arith) (omega arith) 10000 report session_passes

abbrev tools : List String
tools = "ls" ∷ "read" ∷ "edit" ∷ "read" ∷ "edit" ∷ "read" ∷ "edit" ∷ "read" ∷ []

repeats :
    find_repeating_pattern tools 2 6 3 9
    ≡ some (some (record { pattern = "read" ∷ "edit" ∷ []; repetitions = 3 }))
unfolding find_repeating_pattern
repeats = refl

find_repeating_pattern_decides_example :
    ((r : Repeating) × (find_repeating_pattern tools 2 6 3 9 ≡ some (some r)) × Found tools 2 6 3 r)
    ⊎ ((find_repeating_pattern tools 2 6 3 9 ≡ some none) × NoneThere tools 2 6 3)
find_repeating_pattern_decides_example =
    find_repeating_pattern_decides tools 2 6 3 9 (omega arith) (omega arith) (omega arith)

stalls :
    stall_findings micros 60 (0 ∷ 61000 ∷ 62000 ∷ 252000 ∷ [])
    ≡ record { severity = critical; anomaly = stall_detected 2 190000 60 (some (62000, 252000)) 4 }
      ∷ []
unfolding stall_findings
stalls = refl

gate_key : key_pattern (codes "gate_pass:lint") ≡ codes "lint%"
unfolding key_pattern
gate_key = refl

no_gate_key : key_pattern (codes ":lint") ≡ codes "%"
unfolding key_pattern
no_gate_key = refl

abbrev environment : Environment micros
environment = record {
  get = λ key. if str_eq key "AUDIT_MAX_EXPECTED_STEPS" then some "-5" else none;
  parse_float = λ text. none;
  parse_int = λ text. some (true, 5);
}
