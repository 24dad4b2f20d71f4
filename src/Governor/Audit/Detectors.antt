-- ===== src/Governor/Audit/Detectors.antt =====
-- The detectors and `runAudit` of daemon/src/governor/session-audit.ts.
use repomap_core.Prelude.{
  ℕ, zero, suc, ◌+◌, ◌*◌, String, Bool, ◌&&◌, Option, none, some, List, [], ◌∷◌, ◌++◌, map, length,
  take, drop, keep, ltb, leb, ◌==◌, str_eq, if◌then◌else◌,
}
use repomap_core.Prelude.Number.{Number}
use repomap_core.Governor.CostBudget.{Answer, done, ◌>>=◌, query, out_of_fuel}
use repomap_core.Governor.Audit.{
  AuditSeverity, warning, critical, below_minimum, above_maximum, SessionAuditConfig, Anomaly,
  missing_quality_gate, cost_over_threshold, cost_over_cheap_zone, step_count_over,
  repeating_pattern, tool_adherence_deviation, child_without_punches, child_without_gate,
  AuditFinding, PunchRow, SessionMetrics, Dolt,
}
use repomap_core.Governor.Audit.Pattern.{Repeating, find_repeating_pattern}

abbrev pub next_index : Option ℕ → Option ℕ
next_index none = none
next_index (some i) = some (suc i)

-- `text.indexOf(c)`
unfoldable pub index_of : ℕ → List ℕ → Option ℕ
index_of c [] = none
index_of c (x ∷ xs) = let rest = index_of c xs in if x == c then some 0 else next_index rest

-- `colonIdx > 0 ? gate.substring(0, colonIdx) : gate`
abbrev pub type_part : List ℕ → Option ℕ → List ℕ
type_part gate none = gate
type_part gate (some zero) = gate
type_part gate (some (suc i)) = take (suc i) gate

abbrev pub percent : ℕ
percent = b'%'

abbrev pub key_part : List ℕ → Option ℕ → List ℕ
key_part gate none = percent ∷ []
key_part gate (some zero) = percent ∷ []
key_part gate (some (suc i)) = drop (suc (suc i)) gate ++ percent ∷ []

unfoldable pub key_pattern : List ℕ → List ℕ
unfolding index_of
key_pattern gate = key_part gate (index_of b':' gate)

module _ (N : Number) where
  abbrev pub finding : AuditSeverity → Anomaly N → AuditFinding N
  finding severity anomaly = record { severity = severity; anomaly = anomaly }

  abbrev pub missing_gate : List ℕ → AuditFinding N
  missing_gate gate =
      finding critical
        (missing_quality_gate gate (type_part gate (index_of b':' gate)) (key_pattern gate))

  unfoldable pub detect_missing_quality_gates :
      Dolt N → List (List ℕ) → String → Answer (List (AuditFinding N))
  unfolding index_of key_pattern
  detect_missing_quality_gates db [] session_id = done []
  detect_missing_quality_gates db (gate ∷ gates) session_id =
      let rest = detect_missing_quality_gates db gates session_id in
      do
        count ← query (db.gate_count session_id (key_pattern gate))
        findings ← rest
        done (if count == 0 then missing_gate gate ∷ findings else findings)

  unfoldable pub cost_per_100k : SessionMetrics N → N.Carrier
  cost_per_100k m =
      let total_tokens = m.tokens_input + m.tokens_output in
      if ltb 0 total_tokens
      then N.times (N.over m.total_cost (N.of_ℕ total_tokens)) (N.of_ℕ 100000)
      else N.of_ℕ 0

  unfoldable pub detect_cost_anomalies :
      SessionAuditConfig N → SessionMetrics N → List (AuditFinding N)
  unfolding cost_per_100k
  detect_cost_anomalies c m =
      let total_tokens = m.tokens_input + m.tokens_output in
      if N.lt c.cost_anomaly_threshold_usd m.total_cost
      then (finding critical (
            cost_over_threshold m.total_cost c.cost_anomaly_threshold_usd (cost_per_100k m)
              total_tokens)
          ∷ [])
      else if N.lt c.cheap_zone_percentile_usd (cost_per_100k m) && leb 50000 total_tokens
      then (finding warning (
            cost_over_cheap_zone m.total_cost (cost_per_100k m) c.cheap_zone_percentile_usd
              total_tokens)
          ∷ [])
      else []

  abbrev pub is_finished_step : PunchRow N → Bool
  is_finished_step p = str_eq p.punch_type "step_complete" && str_eq p.punch_key "step_finished"

  abbrev pub finished_steps : List (PunchRow N) → ℕ
  finished_steps punches = length (keep is_finished_step punches)

  abbrev pub tool_sequence : List (PunchRow N) → List String
  tool_sequence punches =
      map (λ p. p.punch_key) (keep (λ p. str_eq p.punch_type "tool_call") punches)

  unfoldable pub step_findings : SessionAuditConfig N → List (PunchRow N) → List (AuditFinding N)
  step_findings c punches =
      if ltb c.max_expected_steps (finished_steps punches)
      then finding critical (step_count_over (finished_steps punches) c.max_expected_steps) ∷ []
      else []

  -- `if (detectedPattern)`; a search that does not end has no answer
  abbrev pub pattern_finding :
      List String → Option (Option Repeating) → Answer (List (AuditFinding N))
  pattern_finding tools none = out_of_fuel
  pattern_finding tools (some none) = done []
  pattern_finding tools (some (some r)) =
      done (finding warning (repeating_pattern r.pattern r.repetitions (length tools)) ∷ [])

  unfoldable pub pattern_findings :
      SessionAuditConfig N → List String → Answer (List (AuditFinding N))
  pattern_findings c tools =
      if leb (c.loop_min_pattern_length * c.loop_min_repetitions) (length tools)
      then (pattern_finding tools (
          find_repeating_pattern tools c.loop_min_pattern_length c.loop_max_pattern_length
            c.loop_min_repetitions (suc (length tools))))
      else done []

  unfoldable pub detect_loop_signatures :
      SessionAuditConfig N → Dolt N → String → Answer (List (AuditFinding N))
  unfolding step_findings pattern_findings
  detect_loop_signatures c db session_id = do
    punches ← query (db.punches session_id)
    patterns ← pattern_findings c (tool_sequence punches)
    done (step_findings c punches ++ patterns)

  unfoldable pub edit_findings : ℕ × ℕ → ℕ → List (AuditFinding N)
  edit_findings (min_edits, max_edits) edit_count =
      let range : ℕ × ℕ = (min_edits, max_edits) in
      if ltb edit_count min_edits
      then finding warning (tool_adherence_deviation edit_count range below_minimum) ∷ []
      else if ltb max_edits edit_count
      then finding warning (tool_adherence_deviation edit_count range above_maximum) ∷ []
      else []

  unfoldable pub detect_tool_adherence_deviation :
      SessionAuditConfig N → Dolt N → String → Answer (List (AuditFinding N))
  unfolding edit_findings
  detect_tool_adherence_deviation c db session_id = do
    edit_count ← query (db.edit_count session_id)
    done (edit_findings c.expected_edit_range edit_count)

  abbrev pub child_finding : String → String → ℕ × ℕ → List (AuditFinding N) → List (AuditFinding N)
  child_finding session_id child_id (punch_count, gates) later =
      if punch_count == 0
      then finding critical (child_without_punches session_id child_id) ∷ later
      else if gates == 0
      then finding warning (child_without_gate session_id child_id punch_count) ∷ later
      else later

  unfoldable pub check_children : Dolt N → String → List String → Answer (List (AuditFinding N))
  check_children db session_id [] = done []
  check_children db session_id (child_id ∷ ids) =
      let rest = check_children db session_id ids in
      do
        status ← query (db.child_status child_id)
        findings ← rest
        done (child_finding session_id child_id status findings)

  unfoldable pub detect_incomplete_subtask_tree : Dolt N → String → Answer (List (AuditFinding N))
  unfolding check_children
  detect_incomplete_subtask_tree db session_id = do
    child_ids ← query (db.child_ids session_id)
    check_children db session_id child_ids
