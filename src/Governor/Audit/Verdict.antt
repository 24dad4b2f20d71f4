-- ===== src/Governor/Audit/Verdict.antt =====
-- The verdict of `runAudit` of daemon/src/governor/session-audit.ts.
use repomap_core.Prelude.{
  ℕ, ◌+◌, ◌*◌, ◌≤◌, ◌<◌, ◌≡◌, ◌≢◌, ◌⊎◌, ◌↔◌, refl, sym, subst, arith, String, true, false, ◌&&◌,
  Option, none, some, List, [], ◌∷◌, map, any, All, Some, leb,
}
use repomap_core.Prelude.Number.{Number}
use repomap_core.Governor.CostBudget.{Answer, done, rejected, out_of_fuel, ◌>>=◌, query}
use repomap_core.Governor.Audit.{
  pass, fail, SessionAuditConfig, AuditFinding, SessionMetrics, SessionAuditReport, PunchRow, Dolt,
}
use repomap_core.Governor.Audit.Search.{NoneThere}
use repomap_core.Governor.Audit.Detectors.{
  cost_per_100k, detect_missing_quality_gates, detect_cost_anomalies, step_findings, finished_steps,
  pattern_findings, detect_loop_signatures, tool_sequence, detect_tool_adherence_deviation,
  check_children, detect_incomplete_subtask_tree,
}
use repomap_core.Governor.Audit.Stalls.{detect_stalls}
use repomap_core.Governor.Audit.Report.{
  is_critical, verdict_of, run_detectors, run_audit, get_session_metrics,
}
use repomap_core.Governor.Audit.Tells.{
  Ensures, Given, Given-some, Tells, Tells-iff, Tells-append, Tells-before, Tells-after,
}
use repomap_core.Governor.Audit.Clean.{
  HasGate, LacksGate, IsComplete, IsIdle, gates_lem, children_lem,
}
use repomap_core.Governor.Audit.Quiet.{
  cost_lem, steps_lem, edits_lem, patterns_lem, stalls_lem, IsSteady, IsStalled,
}

-- A chain holds what its parts hold: the answer is given, and so.
Ensures-query :
    {A B : Type 0} (o : Option A) (f : A → Answer B) (P : B → Type 0)
    → ((a : A) → o ≡ some a → Ensures (f a) P)
    → Ensures (query o >>= f) P
Ensures-query none f P h = tt
Ensures-query (some a) f P h = h a refl

Ensures-bind :
    {A B : Type 0} (m : Answer A) (f : A → Answer B) (P : A → Type 0) (Q : B → Type 0)
    → Ensures m P
    → ((a : A) → P a → Ensures (f a) Q)
    → Ensures (m >>= f) Q
Ensures-bind (done a) f P Q h k = k a h
Ensures-bind rejected f P Q h k = tt
Ensures-bind out_of_fuel f P Q h k = h

Ensures-imp :
    {A : Type 0} (m : Answer A) (P Q : A → Type 0)
    → Ensures m P
    → ((a : A) → P a → Q a)
    → Ensures m Q
Ensures-imp (done a) P Q h k = k a h
Ensures-imp rejected P Q h k = tt
Ensures-imp out_of_fuel P Q h k = h

Ensures-done : {A : Type 0} (m : Answer A) {a : A} (P : A → Type 0) → Ensures m P → m ≡ done a → P a
Ensures-done (done b) P h e = subst P (cc) h
Ensures-done rejected P h e = cc
Ensures-done out_of_fuel P h e = cc

Ensures-ends : {A : Type 0} (m : Answer A) (P : A → Type 0) → Ensures m P → m ≢ out_of_fuel
Ensures-ends (done a) P h e = cc
Ensures-ends rejected P h e = cc
Ensures-ends out_of_fuel P h e = h

Given_iff : {A : Type 0} {o : Option A} {a : A} (P : A → Type 0) → o ≡ some a → P a ↔ Given o P
Given_iff {a} P e = subst (λ o. P a ↔ Given o P) (sym e) (Given-some a P)

verdict-pass : (N : Number) (fs : List (AuditFinding N)) → (verdict_of N fs ≡ pass) ↔ (fs ≡ [])
unfolding verdict_of
verdict-pass N [] = (λ h. refl, λ h. refl)
verdict-pass N (f ∷ fs) = (λ h. absurd (ground arith), λ h. cc)

verdict-fail :
    (N : Number) (fs : List (AuditFinding N))
    → (verdict_of N fs ≡ fail) ↔ (any (is_critical N) fs ≡ true)
unfolding verdict_of
verdict-fail N fs = (λ h. ground arith, λ h. ground arith)

verdict-Tells :
    (N : Number) (fs : List (AuditFinding N)) (C B : Type 0)
    → Tells N fs C B
    → ((verdict_of N fs ≡ pass) ↔ C) × ((verdict_of N fs ≡ fail) ↔ B)
verdict-Tells N fs C B t =
    let p = verdict-pass N fs in
    let f = verdict-fail N fs in
    (
      (λ h. t.empty_iff.0 (p.0 h), λ h. p.1 (t.empty_iff.1 h)),
      (λ h. t.critical_iff.0 (f.0 h), λ h. f.1 (t.critical_iff.1 h)),
    )

module _ (N : Number) (c : SessionAuditConfig N) (db : Dolt N) (sid : String) where
  abbrev times : List (PunchRow N) → List ℕ
  times ps = map (λ p. p.observed_at) ps

  -- the steps are within the limit, and no tool pattern repeats
  abbrev pub IsUnlooped : List (PunchRow N) → Type 0
  IsUnlooped ps =
      (finished_steps N ps ≤ c.max_expected_steps)
      × NoneThere (tool_sequence N ps) c.loop_min_pattern_length c.loop_max_pattern_length
          c.loop_min_repetitions

  abbrev pub IsAffordable : SessionMetrics N → Type 0
  IsAffordable m =
      (N.lt c.cost_anomaly_threshold_usd m.total_cost ≡ false)
      × ((N.lt c.cheap_zone_percentile_usd (cost_per_100k N m)
            && leb 50000 (m.tokens_input + m.tokens_output))
          ≡ false)

  -- nothing that an audit looks for is there
  abbrev pub IsClean : SessionMetrics N → Type 0
  IsClean m =
      All (HasGate N db sid) c.required_quality_gates
      × (IsAffordable m
          × (Given (db.punches sid) IsUnlooped
              × (Given (db.edit_count sid)
                    (λ n. (c.expected_edit_range.0 ≤ n) × (n ≤ c.expected_edit_range.1))
                  × (Given (db.child_ids sid) (All (IsComplete N db sid))
                      × Given (db.punches sid)
                          (λ ps. IsSteady (c.max_punch_gap_seconds * 1000) (times ps))))))

  -- a missing gate, a cost over the threshold, too many steps, an idle child or a long stall
  abbrev pub IsBad : SessionMetrics N → Type 0
  IsBad m =
      Some (LacksGate N db sid) c.required_quality_gates
      ⊎ ((N.lt c.cost_anomaly_threshold_usd m.total_cost ≡ true)
          ⊎ (Given (db.punches sid) (λ ps. c.max_expected_steps < finished_steps N ps)
              ⊎ (Given (db.child_ids sid) (Some (IsIdle N db sid))
                  ⊎ Given (db.punches sid)
                      (λ ps. IsStalled (c.max_punch_gap_seconds * 1000 * 3) (times ps)))))

  stalls_told : Ensures (detect_stalls N c db sid) (λ fs.
      Tells N fs
        (Given (db.punches sid) (λ ps. IsSteady (c.max_punch_gap_seconds * 1000) (times ps)))
        (Given (db.punches sid) (λ ps. IsStalled (c.max_punch_gap_seconds * 1000 * 3) (times ps))))
  unfolding detect_stalls
  stalls_told = Ensures-query (db.punches sid) _ _ λ ps e.
      Tells-iff N _ _ _ _ _ (stalls_lem N c.max_punch_gap_seconds (times ps))
        (Given_iff (λ ps. IsSteady (c.max_punch_gap_seconds * 1000) (times ps)) e)
        (Given_iff (λ ps. IsStalled (c.max_punch_gap_seconds * 1000 * 3) (times ps)) e)

  children_told : Ensures (detect_incomplete_subtask_tree N db sid) (λ fs.
      Tells N fs
        (Given (db.child_ids sid) (All (IsComplete N db sid)))
        (Given (db.child_ids sid) (Some (IsIdle N db sid))))
  unfolding detect_incomplete_subtask_tree
  children_told = Ensures-query (db.child_ids sid) _ _ λ ids e.
      Ensures-imp (check_children N db sid ids) _ _ (children_lem N db sid ids) λ fs t.
        Tells-iff N fs _ _ _ _ t (Given_iff (All (IsComplete N db sid)) e)
          (Given_iff (Some (IsIdle N db sid)) e)

  edits_told : Ensures (detect_tool_adherence_deviation N c db sid) (λ fs.
      Tells N fs
        (Given
          (db.edit_count sid)
          (λ n. (c.expected_edit_range.0 ≤ n) × (n ≤ c.expected_edit_range.1)))
        ⊥)
  unfolding detect_tool_adherence_deviation
  edits_told = Ensures-query (db.edit_count sid) _ _ λ n e.
      Tells-iff N _ _ _ _ _ (edits_lem N c c.expected_edit_range n)
        (Given_iff (λ n. (c.expected_edit_range.0 ≤ n) × (n ≤ c.expected_edit_range.1)) e)
        (λ h. h, λ h. h)

  module _ (some_length : 0 < c.loop_min_pattern_length)
      (some_repetition : 0 < c.loop_min_repetitions) where
    loops_told : Ensures (detect_loop_signatures N c db sid) (λ fs.
        Tells N fs
          (Given (db.punches sid) IsUnlooped)
          (Given (db.punches sid) (λ ps. c.max_expected_steps < finished_steps N ps)))
    unfolding detect_loop_signatures
    loops_told = Ensures-query (db.punches sid) _ _ λ ps e.
        Ensures-bind (pattern_findings N c (tool_sequence N ps)) _ _ _
          (patterns_lem N c (tool_sequence N ps) some_length some_repetition)
          λ fs t.
            Tells-iff N _ _ _ _ _
              (Tells-before N (step_findings N c ps) fs _ _ _ (steps_lem N c ps) t)
              (Given_iff IsUnlooped e)
              (Given_iff (λ ps. c.max_expected_steps < finished_steps N ps) e)

    findings_told :
        (m : SessionMetrics N)
        → Ensures (run_detectors N c db sid m) (λ fs. Tells N fs (IsClean m) (IsBad m))
    unfolding run_detectors
    findings_told m =
        Ensures-bind (detect_missing_quality_gates N db c.required_quality_gates sid) _ _ _
          (gates_lem N db sid c.required_quality_gates)
          λ gates tg. Ensures-bind (detect_loop_signatures N c db sid) _ _ _ loops_told λ loops tl.
            Ensures-bind (detect_tool_adherence_deviation N c db sid) _ _ _ edits_told λ edits te.
              Ensures-bind (detect_incomplete_subtask_tree N db sid) _ _ _ children_told
                λ children tc.
                  Ensures-bind (detect_stalls N c db sid) _ _ _ stalls_told λ stalls ts.
                    Tells-append N gates _ _ _ _ _ tg (
                      Tells-append N (detect_cost_anomalies N c m) _ _ _ _ _ (cost_lem N c m) (
                        Tells-append N loops _ _ _ _ _ tl (
                          Tells-after N edits _ _ _ _ te
                            (Tells-append N children stalls _ _ _ _ tc ts))))

    report_told :
        (now : ℕ)
        → Ensures
            (run_audit N c db sid now)
            (λ r. ((r.verdict ≡ pass) ↔ IsClean r.metrics) × ((r.verdict ≡ fail) ↔ IsBad r.metrics))
    unfolding run_audit get_session_metrics
    report_told now =
        Ensures-bind (get_session_metrics N db sid) _ (λ m. Unit {0}) _
          (Ensures-query (db.cost_agg sid) _ _
            λ a e. Ensures-query (db.time_span sid) _ _ λ s k. tt)
          λ m t. Ensures-query (db.child_ids sid) _ _ λ children e.
            Ensures-bind (run_detectors N c db sid m) _ _ _ (findings_told m)
              λ fs told. verdict-Tells N fs _ _ told

    -- Where the configured pattern length and repetitions are positive: a report has the verdict pass
    -- exactly where every required gate has a record, the cost is affordable, the steps are within
    -- the limit and no tool pattern of a configured length repeats, the edits are in their range,
    -- every child has punches with a gate among them, and no time between one punch and the next is
    -- over the limit. It has the verdict fail exactly where a required gate has no record, the cost
    -- is over its threshold, the steps are over their limit, a child has no punches, or a time
    -- between punches is over three times the limit.
    pub run_audit-verdict :
        (now : ℕ) (r : SessionAuditReport N)
        → run_audit N c db sid now ≡ done r
        → ((r.verdict ≡ pass) ↔ IsClean r.metrics) × ((r.verdict ≡ fail) ↔ IsBad r.metrics)
    run_audit-verdict now r h = Ensures-done (run_audit N c db sid now) _ (report_told now) h

    -- Under the same conditions on the configuration an audit always ends: it gives a report or is
    -- rejected with a query.
    pub run_audit_ends : (now : ℕ) → run_audit N c db sid now ≢ out_of_fuel
    run_audit_ends now = Ensures-ends (run_audit N c db sid now) _ (report_told now)
