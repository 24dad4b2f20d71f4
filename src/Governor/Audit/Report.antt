-- ===== src/Governor/Audit/Report.antt =====
-- `runAudit` of daemon/src/governor/session-audit.ts. The detectors that run in parallel only read, so
-- they are asked in turn.
use repomap_core.Prelude.{
  ℕ, ◌-◌, String, Bool, true, false, ◌&&◌, Option, none, some, List, ◌++◌, length, any, ltb,
  if◌then◌else◌,
}
use repomap_core.Prelude.Number.{Number}
use repomap_core.Governor.CostBudget.{Answer, done, ◌>>=◌, query}
use repomap_core.Governor.Audit.{
  AuditSeverity, info, warning, critical, AuditVerdict, pass, warn, fail, SessionAuditConfig,
  AuditFinding, SessionMetrics, SessionAuditReport, Dolt,
}
use repomap_core.Governor.Audit.Detectors.{
  detect_missing_quality_gates, detect_cost_anomalies, detect_loop_signatures,
  detect_tool_adherence_deviation, detect_incomplete_subtask_tree,
}
use repomap_core.Governor.Audit.Stalls.{detect_stalls}

-- `tsRow?.min_at ? new Date(tsRow.min_at).getTime() : 0`
abbrev pub time_or_zero : Option ℕ → ℕ
time_or_zero none = 0
time_or_zero (some t) = t

-- `minAt > 0 && maxAt > 0 ? maxAt - minAt : 0`, where the least time is at most the greatest
abbrev pub duration : Option ℕ × Option ℕ → ℕ
duration (first, final) =
    let min_at = time_or_zero first in
    let max_at = time_or_zero final in if ltb 0 min_at && ltb 0 max_at then max_at - min_at else 0

abbrev pub is_critical_severity : AuditSeverity → Bool
is_critical_severity info = false
is_critical_severity warning = false
is_critical_severity critical = true

module _ (N : Number) where
  unfoldable pub get_session_metrics : Dolt N → String → Answer (SessionMetrics N)
  get_session_metrics db session_id = do
    agg ← query (db.cost_agg session_id)
    span ← query (db.time_span session_id)
    done (record { duration_ms = duration span; agg = agg })

  abbrev pub is_critical : AuditFinding N → Bool
  is_critical f = is_critical_severity f.severity

  unfoldable pub verdict_of : List (AuditFinding N) → AuditVerdict
  verdict_of findings =
      if any is_critical findings then fail else if ltb 0 (length findings) then warn else pass

  unfoldable pub run_detectors :
      SessionAuditConfig N → Dolt N → String → SessionMetrics N → Answer (List (AuditFinding N))
  run_detectors c db session_id metrics = do
    quality_gates ← detect_missing_quality_gates N db c.required_quality_gates session_id
    loops ← detect_loop_signatures N c db session_id
    tool_adherence ← detect_tool_adherence_deviation N c db session_id
    subtree ← detect_incomplete_subtask_tree N db session_id
    stalls ← detect_stalls N c db session_id
    done (
        quality_gates
        ++ (detect_cost_anomalies N c metrics
            ++ (loops ++ (tool_adherence ++ (subtree ++ stalls)))))

  unfoldable pub run_audit :
      SessionAuditConfig N → Dolt N → String → ℕ → Answer (SessionAuditReport N)
  unfolding get_session_metrics verdict_of run_detectors
  run_audit c db session_id now = do
    metrics ← get_session_metrics db session_id
    children ← query (db.child_ids session_id)
    findings ← run_detectors c db session_id metrics
    done (record {
      session_id = session_id;
      audited_at = now;
      verdict = verdict_of findings;
      findings = findings;
      metrics = metrics;
      child_count = length children;
    })
