-- ===== src/Governor/Audit/Stalls.antt =====
-- `detectStalls` of daemon/src/governor/session-audit.ts. The gap between two punches is a natural
-- number: a negative one exceeds no limit, as 0 does not.
use Prim.Native.Nat.{max}
use repomap_core.Prelude.{
  ℕ, ◌+◌, ◌-◌, ◌*◌, ◌≡◌, arith, String, Option, none, some, List, [], ◌∷◌, map, keep, length, ltb,
  if◌then◌else◌,
}
use repomap_core.Prelude.Number.{Number}
use repomap_core.Governor.CostBudget.{Answer, done, ◌>>=◌, query}
use repomap_core.Governor.Audit.{
  AuditSeverity, warning, critical, SessionAuditConfig, stall_detected, AuditFinding, Dolt,
}
use repomap_core.Governor.Audit.Detectors.{finding}

pub record StallScan : Type 0 where
  pub max_observed_gap_ms : ℕ
  pub max_gap : Option (ℕ × ℕ)
  pub stall_count : ℕ

abbrev pub no_stall : StallScan
no_stall = record { max_observed_gap_ms = 0; max_gap = none; stall_count = 0 }

-- the body of the loop
unfoldable pub scan_gap : ℕ → ℕ → ℕ → StallScan → StallScan
scan_gap max_gap_ms prev_time curr_time s =
    let gap_ms = curr_time - prev_time in
    if ltb max_gap_ms gap_ms
    then (if ltb s.max_observed_gap_ms gap_ms
        then record {
          max_observed_gap_ms = gap_ms;
          max_gap = some (prev_time, curr_time);
          stall_count = s.stall_count + 1;
        }
        else record s { stall_count = s.stall_count + 1 })
    else s

-- the loop, over the times after `prev_time`
unfoldable pub scan_gaps : ℕ → ℕ → List ℕ → StallScan → StallScan
unfolding scan_gap
scan_gaps max_gap_ms prev_time [] s = s
scan_gaps max_gap_ms prev_time (t ∷ times) s =
    scan_gaps max_gap_ms t times (scan_gap max_gap_ms prev_time t s)

module _ (N : Number) where
  abbrev pub stall_severity : ℕ → ℕ → AuditSeverity
  stall_severity max_gap_ms max_observed_gap_ms =
      if ltb (max_gap_ms * 3) max_observed_gap_ms then critical else warning

  abbrev pub stall_finding : ℕ → ℕ → StallScan → List (AuditFinding N)
  stall_finding max_gap_seconds total_punches s =
      if ltb 0 s.stall_count
      then (finding N (stall_severity (max_gap_seconds * 1000) s.max_observed_gap_ms) (
            stall_detected s.stall_count s.max_observed_gap_ms max_gap_seconds s.max_gap
              total_punches)
          ∷ [])
      else []

  -- by the times of the punches
  unfoldable pub stall_findings : ℕ → List ℕ → List (AuditFinding N)
  unfolding scan_gaps
  stall_findings max_gap_seconds [] = []
  stall_findings max_gap_seconds (t ∷ []) = []
  stall_findings max_gap_seconds (t ∷ u ∷ times) =
      stall_finding max_gap_seconds (length (t ∷ u ∷ times))
        (scan_gaps (max_gap_seconds * 1000) t (u ∷ times) no_stall)

  unfoldable pub detect_stalls :
      SessionAuditConfig N → Dolt N → String → Answer (List (AuditFinding N))
  unfolding stall_findings
  detect_stalls c db session_id = do
    punches ← query (db.punches session_id)
    done (stall_findings c.max_punch_gap_seconds (map (λ p. p.observed_at) punches))

-- the times between one punch and the next
abbrev pub gaps : ℕ → List ℕ → List ℕ
gaps prev [] = []
gaps prev (t ∷ times) = (t - prev) ∷ gaps t times

abbrev pub over : ℕ → List ℕ → List ℕ
over limit xs = keep (ltb limit) xs

abbrev pub greatest : List ℕ → ℕ
greatest [] = 0
greatest (x ∷ xs) = max x (greatest xs)

pub scan_gaps_lem :
    (limit prev : ℕ) (times : List ℕ) (s : StallScan)
    → ((scan_gaps limit prev times s).stall_count
        ≡ s.stall_count + length (over limit (gaps prev times)))
      × ((scan_gaps limit prev times s).max_observed_gap_ms
          ≡ max s.max_observed_gap_ms (greatest (over limit (gaps prev times))))
unfolding scan_gaps scan_gap
scan_gaps_lem limit prev [] s = (omega arith, omega arith)
scan_gaps_lem limit prev (t ∷ times) s =
    let ih = scan_gaps_lem limit t times (scan_gap limit prev t s) in
    (ground (arith, ih.0), ground (arith, ih.1))
