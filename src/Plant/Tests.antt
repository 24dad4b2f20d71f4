-- ===== src/Plant/Tests.antt =====
-- A report of daemon/src/temporal/plant-health.ts with one degraded section.
use repomap_core.Prelude.{◌≡◌}
use repomap_core.Plant.{
  Sections, ok, degraded, unknown, aggregate_overall, overall_severity, aggregate_overall-worst,
}

abbrev sections : Sections
sections = record {
  punch_card_status = ok;
  governor_status = unknown;
  quality_gate_results = ok;
  cost_summary = degraded;
  subtask_tree_health = ok;
  daemon_health = ok;
}

aggregate_overall-worst_example : overall_severity (aggregate_overall sections) ≡ 2
aggregate_overall-worst_example = aggregate_overall-worst sections
