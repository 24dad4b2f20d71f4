-- ===== src/Governor/Audit/Quiet.antt =====
-- The costs, the loops, the edits and the stalls of an audit, after
-- daemon/src/governor/session-audit.ts.
use mathlib.Core.List.{append_assoc}
use repomap_core.Prelude.{
  ℕ, suc, ◌+◌, ◌-◌, ◌*◌, ◌≤◌, ◌<◌, ◌≡◌, ◌↔◌, inl, inr, refl, ◌∙◌, ap, arith, String, true, false,
  ◌&&◌, List, [], ◌∷◌, ◌++◌, length, All, Some, ltb, leb, Bool-cases, length-append, length-repeat,
  repeat, repeat-add,
}
use repomap_core.Prelude.Number.{Number}
use repomap_core.Governor.Audit.{SessionAuditConfig, AuditFinding, SessionMetrics, PunchRow}
use repomap_core.Governor.Audit.Search.{NoneThere, Holds, find_repeating_pattern_decides}
use repomap_core.Governor.Audit.Detectors.{
  cost_per_100k, detect_cost_anomalies, step_findings, finished_steps, pattern_findings,
  edit_findings,
}
use repomap_core.Governor.Audit.Stalls.{
  StallScan, no_stall, scan_gaps_lem, stall_findings, stall_finding, gaps, over, greatest,
}
use repomap_core.Governor.Audit.Report.{is_critical}
use repomap_core.Governor.Audit.Tells.{
  Ensures, Tells, Tells-nil, Tells-iff, Tells-critical, Tells-warning, Tells-else, Tells-either,
}

module _ (N : Number) (c : SessionAuditConfig N) where
  pub cost_lem :
      (m : SessionMetrics N)
      → Tells N
          (detect_cost_anomalies N c m)
          ((N.lt c.cost_anomaly_threshold_usd m.total_cost ≡ false)
            × ((N.lt c.cheap_zone_percentile_usd (cost_per_100k N m)
                  && leb 50000 (m.tokens_input + m.tokens_output))
                ≡ false))
          (N.lt c.cost_anomaly_threshold_usd m.total_cost ≡ true)
  unfolding detect_cost_anomalies
  cost_lem m = Tells-else N _ _ _ _ refl refl

  pub steps_lem :
      (ps : List (PunchRow N))
      → Tells N
          (step_findings N c ps)
          (finished_steps N ps ≤ c.max_expected_steps)
          (c.max_expected_steps < finished_steps N ps)
  unfolding step_findings
  steps_lem ps =
      Tells-iff N _ _ _ _ _ (Tells-critical N _ _ refl) ((λ h. ground arith), (λ h. ground arith))
        ((λ h. ground arith), (λ h. ground arith))

  pub edits_lem :
      (range : ℕ × ℕ) (n : ℕ) → Tells N (edit_findings N range n) ((range.0 ≤ n) × (n ≤ range.1)) ⊥
  unfolding edit_findings
  edits_lem (lo, hi) n =
      Tells-iff N _ ((ltb n lo ≡ false) × (ltb hi n ≡ false)) _ ⊥ _
        (Tells-either N _ _ _ _ refl refl)
        ((λ h. (ground arith, ground arith)), (λ h. (ground arith, ground arith)))
        ((λ h. h), (λ h. h))

  Holds-fewer :
      (tools p : List String) {reps : ℕ} (n : ℕ) → reps ≤ n → Holds tools n p → Holds tools reps p
  Holds-fewer tools p {reps} n h (pre, post, e) = (
    pre,
    repeat (n - reps) p ++ post,
    e
        ∙ ap (λ (l : List String). pre ++ l)
            (ap (λ (k : ℕ). repeat k p ++ post) {x = n} (omega arith)
              ∙ ap (λ (l : List String). l ++ post) (repeat-add reps (n - reps) p)
              ∙ append_assoc (repeat reps p) (repeat (n - reps) p) post),
  )

  Holds-long :
      (tools p : List String) (least reps : ℕ)
      → least ≤ length p
      → Holds tools reps p
      → least * reps ≤ length tools
  Holds-long tools p least reps h (pre, post, e) = grind (
    arith,
    ap length e,
    length-append pre (repeat reps p ++ post),
    length-append (repeat reps p) post,
    length-repeat reps p,
  )

  module _ (tools : List String) where
    abbrev Quiet : Type 0
    Quiet =
        NoneThere tools c.loop_min_pattern_length c.loop_max_pattern_length c.loop_min_repetitions

    silent : Quiet → Tells N [] Quiet ⊥
    silent quiet =
        Tells-iff N _ _ _ _ _ (Tells-nil N) ((λ h. quiet), (λ h. tt)) ((λ h. h), (λ h. h))

    there :
        (f : AuditFinding N)
        → is_critical N f ≡ false
        → (p : List String) → c.loop_min_pattern_length ≤ length p
        → length p ≤ c.loop_max_pattern_length
        → Holds tools c.loop_min_repetitions p
        → Tells N (f ∷ []) Quiet ⊥
    there f calm p least most h =
        Tells-iff N _ (true ≡ false) _ ⊥ _ (Tells-warning N true f calm)
          ((λ e. cc), (λ quiet. absurd (quiet p least most h))) ((λ e. e), (λ e. e))

  pub patterns_lem :
      (tools : List String)
      → 0 < c.loop_min_pattern_length
      → 0 < c.loop_min_repetitions
      → Ensures (pattern_findings N c tools) (λ fs.
        Tells N fs
          (NoneThere tools c.loop_min_pattern_length c.loop_max_pattern_length
            c.loop_min_repetitions)
          ⊥)
  unfolding pattern_findings
  patterns_lem tools pos many =
      elim (Bool-cases (leb (c.loop_min_pattern_length * c.loop_min_repetitions) (length tools))) [
        | inl enough ↦
            elim (find_repeating_pattern_decides tools c.loop_min_pattern_length
              c.loop_max_pattern_length c.loop_min_repetitions (suc (length tools)) pos many
              (omega arith)) [
                | inl (r, e, (least, most, reps, (pre, post, at, stops))) ↦
                    rw (enough, e)
                      (there tools _ refl r.pattern least most
                        (Holds-fewer tools r.pattern _ reps (pre, post, at)))
                | inr (e, absent) ↦ rw (enough, e) (silent tools absent)
              ]
        | inr few ↦ rw few (
            silent tools λ p least most h.
              let long = Holds-long tools p _ c.loop_min_repetitions least h in
              absurd (ground arith))
      ]

-- no time between one punch and the next is over the limit
abbrev pub IsSteady : ℕ → List ℕ → Type 0
IsSteady limit [] = Unit
IsSteady limit (t ∷ times) = All (λ g. g ≤ limit) (gaps t times)

abbrev pub IsStalled : ℕ → List ℕ → Type 0
IsStalled limit [] = ⊥
IsStalled limit (t ∷ times) = Some (λ g. limit < g) (gaps t times)

over-empty : (limit : ℕ) (xs : List ℕ) → (length (over limit xs) ≡ 0) ↔ All (λ g. g ≤ limit) xs
over-empty limit [] = (λ h. tt, λ h. refl)
over-empty limit (x ∷ xs) =
    let ih = over-empty limit xs in
    (λ h. (ground arith, ih.0 (ground arith)), λ h. ground (arith, ih.1 h.1))

greatest-lt :
    (limit far : ℕ) (xs : List ℕ)
    → limit ≤ far
    → (far < greatest (over limit xs)) ↔ Some (λ g. far < g) xs
greatest-lt limit far [] h = (λ e. absurd (omega arith), λ e. elim e [ ])
greatest-lt limit far (x ∷ xs) h =
    let ih = greatest-lt limit far xs h in
    (
      λ e. elim (Bool-cases (ltb far x)) [
        | inl far_x ↦ inl (ground arith)
        | inr near ↦ inr (ih.0 (ground arith))
      ],
      λ e. elim e [ inl a ↦ ground arith | inr b ↦ ground (arith, ih.1 b) ],
    )

greatest-empty : (xs : List ℕ) → length xs ≡ 0 → greatest xs ≡ 0
greatest-empty [] h = refl
greatest-empty (x ∷ xs) h = absurd (omega arith)

-- the findings of a scan
module _ (N : Number) (seconds total : ℕ) (s : StallScan) (xs : List ℕ)
    (counted : s.stall_count ≡ length (over (seconds * 1000) xs))
    (longest : s.max_observed_gap_ms ≡ greatest (over (seconds * 1000) xs)) where
  scan_Tells :
      Tells N
        (stall_finding N seconds total s)
        (All (λ g. g ≤ seconds * 1000) xs)
        (Some (λ g. seconds * 1000 * 3 < g) xs)
  scan_Tells =
      let none_iff = over-empty (seconds * 1000) xs in
      let far_iff = greatest-lt (seconds * 1000) (seconds * 1000 * 3) xs (omega arith) in
      record {
        empty_iff = (λ h. none_iff.0 (ground arith), λ h. ground (arith, none_iff.1 h));
        critical_iff = (
          λ h. far_iff.0 (ground arith),
          λ h. ground (arith, far_iff.1 h, greatest-empty (over (seconds * 1000) xs)),
        );
      }

pub stalls_lem :
    (N : Number) (seconds : ℕ) (times : List ℕ)
    → Tells N
        (stall_findings N seconds times)
        (IsSteady (seconds * 1000) times)
        (IsStalled (seconds * 1000 * 3) times)
unfolding stall_findings
stalls_lem N seconds [] = Tells-nil N
stalls_lem N seconds (t ∷ []) = Tells-nil N
stalls_lem N seconds (t ∷ u ∷ times) =
    let scan = scan_gaps_lem (seconds * 1000) t (u ∷ times) no_stall in
    scan_Tells N seconds _ _ (gaps t (u ∷ times)) (omega (arith, scan.0)) (omega (arith, scan.1))
