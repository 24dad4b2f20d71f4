-- ===== src/Plant.antt =====
-- The overall status of a plant health report, `aggregateOverall` of
-- daemon/src/temporal/plant-health.ts, with the statuses of daemon/src/temporal/plant-health.types.ts.
mod Tests
use Prim.Native.Nat.{max}
use repomap_core.Prelude.{
  ℕ, ◌≤◌, ◌≡◌, arith, Bool, true, false, ◌&&◌, ◌||◌, List, [], ◌∷◌, any, if◌then◌else◌,
}

pub data SectionStatus : Type 0 where
  ok degraded unhealthy unknown : SectionStatus

-- the statuses of the sections of a report
pub record Sections : Type 0 where
  pub punch_card_status : SectionStatus
  pub governor_status : SectionStatus
  pub quality_gate_results : SectionStatus
  pub cost_summary : SectionStatus
  pub subtask_tree_health : SectionStatus
  pub daemon_health : SectionStatus

pub data OverallStatus : Type 0 where
  overall_healthy overall_degraded overall_unhealthy overall_unknown : OverallStatus

abbrev pub is_unhealthy : SectionStatus → Bool
is_unhealthy unhealthy = true
is_unhealthy _ = false

abbrev pub is_degraded : SectionStatus → Bool
is_degraded degraded = true
is_degraded _ = false

abbrev pub is_unknown : SectionStatus → Bool
is_unknown unknown = true
is_unknown _ = false

-- `statuses.every((s) => s === "unknown")`
abbrev pub all_unknown : List SectionStatus → Bool
all_unknown [] = true
all_unknown (s ∷ statuses) = let rest = all_unknown statuses in is_unknown s && rest

-- the three tests
unfoldable pub overall_of : List SectionStatus → OverallStatus
overall_of statuses =
    if any is_unhealthy statuses
    then overall_unhealthy
    else if any is_degraded statuses
    then overall_degraded
    else if all_unknown statuses
    then overall_unknown
    else overall_healthy

abbrev pub statuses_of : Sections → List SectionStatus
statuses_of s =
    s.punch_card_status ∷ s.governor_status ∷ s.quality_gate_results ∷ s.cost_summary
    ∷ s.subtask_tree_health ∷ s.daemon_health ∷ []

unfoldable pub aggregate_overall : Sections → OverallStatus
unfolding overall_of
aggregate_overall s = overall_of (statuses_of s)

-- Statuses by what they say: nothing, all well, degraded, unhealthy.
abbrev pub severity : SectionStatus → ℕ
severity unknown = 0
severity ok = 1
severity degraded = 2
severity unhealthy = 3

abbrev pub overall_severity : OverallStatus → ℕ
overall_severity overall_unknown = 0
overall_severity overall_healthy = 1
overall_severity overall_degraded = 2
overall_severity overall_unhealthy = 3

abbrev pub worst : List SectionStatus → ℕ
worst [] = 0
worst (s ∷ statuses) = max (severity s) (worst statuses)

worst-overall_of :
    (statuses : List SectionStatus) → overall_severity (overall_of statuses) ≡ worst statuses
unfolding overall_of
worst-overall_of [] = ground arith
worst-overall_of (ok ∷ statuses) = ground (arith, worst-overall_of statuses)
worst-overall_of (degraded ∷ statuses) = ground (arith, worst-overall_of statuses)
worst-overall_of (unhealthy ∷ statuses) = ground (arith, worst-overall_of statuses)
worst-overall_of (unknown ∷ statuses) = ground (arith, worst-overall_of statuses)

-- The overall status of a report is the most severe of its six sections: the punch card status, the
-- governor status, the quality gates, the costs, the subtask tree and the daemon, in the order unknown,
-- ok or healthy, degraded, unhealthy.
pub aggregate_overall-worst :
    (s : Sections)
    → overall_severity (aggregate_overall s)
      ≡ max (severity s.punch_card_status) (
          max (severity s.governor_status) (
            max (severity s.quality_gate_results) (
              max
                (severity s.cost_summary)
                (max (severity s.subtask_tree_health) (severity s.daemon_health)))))
unfolding aggregate_overall
aggregate_overall-worst s = ground (arith, worst-overall_of (statuses_of s))
