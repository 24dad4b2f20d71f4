-- ===== src/Governor/Audit/Config.antt =====
-- `loadAuditConfig` of daemon/src/governor/session-audit.ts.
use repomap_core.Prelude.{ℕ, ◌<◌, ◌≡◌, arith, true, Option, none, List, [], ◌∷◌, or_else}
use repomap_core.Prelude.Number.{Number}
use repomap_core.Prelude.Text.{codes}
use repomap_core.Governor.Audit.{SessionAuditConfig}
use repomap_core.Governor.CostBudget.Config.{
  Environment, parse_env_float, parse_env_int, positive_or_positive, positive_int_or_positive,
  parsed, raw,
}

module _ (N : Number) where
  -- `0.42` is the double nearest to 42 / 100.
  abbrev pub default_audit_config : SessionAuditConfig N
  default_audit_config = record {
    cheap_zone_percentile_usd = N.over (N.of_ℕ 42) (N.of_ℕ 100);
    cost_anomaly_threshold_usd = N.of_ℕ 1;
    max_expected_steps = 50;
    loop_min_pattern_length = 2;
    loop_max_pattern_length = 6;
    loop_min_repetitions = 3;
    expected_edit_range = (1, 30);
    max_punch_gap_seconds = 60;
    required_quality_gates =
        codes "gate_pass:typecheck"
        ∷ codes "gate_pass:lint"
        ∷ codes "gate_pass:test"
        ∷ codes "gate_pass:build"
        ∷ [];
  }

  -- `Partial<SessionAuditConfig>`
  pub record PartialConfig : Type 0 where
    pub cheap_zone_percentile_usd : Option N.Carrier
    pub cost_anomaly_threshold_usd : Option N.Carrier
    pub max_expected_steps : Option ℕ
    pub loop_min_pattern_length : Option ℕ
    pub loop_max_pattern_length : Option ℕ
    pub loop_min_repetitions : Option ℕ
    pub expected_edit_range : Option (ℕ × ℕ)
    pub max_punch_gap_seconds : Option ℕ
    pub required_quality_gates : Option (List (List ℕ))

  unfoldable pub load_audit_config : Environment N → PartialConfig → SessionAuditConfig N
  load_audit_config env o =
      let defaults = default_audit_config in
      record {
        cheap_zone_percentile_usd =
            or_else o.cheap_zone_percentile_usd
              (parse_env_float N env "AUDIT_CHEAP_ZONE_USD" defaults.cheap_zone_percentile_usd);
        cost_anomaly_threshold_usd =
            or_else o.cost_anomaly_threshold_usd
              (parse_env_float N env "AUDIT_COST_ANOMALY_USD" defaults.cost_anomaly_threshold_usd);
        max_expected_steps =
            or_else o.max_expected_steps
              (parse_env_int N env "AUDIT_MAX_EXPECTED_STEPS" defaults.max_expected_steps);
        loop_min_pattern_length =
            or_else o.loop_min_pattern_length defaults.loop_min_pattern_length;
        loop_max_pattern_length =
            or_else o.loop_max_pattern_length defaults.loop_max_pattern_length;
        loop_min_repetitions = or_else o.loop_min_repetitions defaults.loop_min_repetitions;
        expected_edit_range = or_else o.expected_edit_range defaults.expected_edit_range;
        max_punch_gap_seconds =
            or_else o.max_punch_gap_seconds
              (parse_env_int N env "AUDIT_MAX_PUNCH_GAP_SECONDS" defaults.max_punch_gap_seconds);
        required_quality_gates = or_else o.required_quality_gates defaults.required_quality_gates;
      }

  abbrev pub no_overrides : PartialConfig
  no_overrides = record {
    cheap_zone_percentile_usd = none;
    cost_anomaly_threshold_usd = none;
    max_expected_steps = none;
    loop_min_pattern_length = none;
    loop_max_pattern_length = none;
    loop_min_repetitions = none;
    expected_edit_range = none;
    max_punch_gap_seconds = none;
    required_quality_gates = none;
  }

  -- The limits are positive, and so are the pattern lengths and repetitions that a search needs.
  pub record IsUsable (c : SessionAuditConfig N) : Type 0 where
    pub cheap_zone : N.lt (N.of_ℕ 0) c.cheap_zone_percentile_usd ≡ true
    pub cost : N.lt (N.of_ℕ 0) c.cost_anomaly_threshold_usd ≡ true
    pub steps : 0 < c.max_expected_steps
    pub gap : 0 < c.max_punch_gap_seconds
    pub pattern_length : 0 < c.loop_min_pattern_length
    pub repetitions : 0 < c.loop_min_repetitions

  -- Whatever the environment holds and however its texts are parsed: without overrides, the limits
  -- that are loaded for an audit are positive, and the least pattern length and the least number of
  -- repetitions with them, if the two default costs are positive numbers.
  pub load_audit_config-IsUsable :
      (env : Environment N)
      → N.lt (N.of_ℕ 0) default_audit_config.cheap_zone_percentile_usd ≡ true
      → N.lt (N.of_ℕ 0) default_audit_config.cost_anomaly_threshold_usd ≡ true
      → IsUsable (load_audit_config env no_overrides)
  unfolding load_audit_config parse_env_float parse_env_int
  load_audit_config-IsUsable env a b = record {
    cheap_zone = positive_or_positive N _ _ a;
    cost = positive_or_positive N _ _ b;
    steps =
        positive_int_or_positive N _ (parsed N env.parse_int (raw N env "AUDIT_MAX_EXPECTED_STEPS"))
          (omega arith);
    gap =
        positive_int_or_positive N _
          (parsed N env.parse_int (raw N env "AUDIT_MAX_PUNCH_GAP_SECONDS")) (omega arith);
    pattern_length = omega arith;
    repetitions = omega arith;
  }
