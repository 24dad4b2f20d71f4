-- ===== src/Governor/CostBudget/Config.antt =====
-- `loadCostBudgetConfig` of daemon/src/governor/cost-budget-monitor.ts, with `parseEnvFloat` and
-- `parseEnvInt` of daemon/src/governor/dolt-utils.ts. The environment, `Number.parseFloat` and
-- `Number.parseInt` are parameters; the parsers answer `none` where the number is not finite, and
-- an integer is its sign, true where negative, and its magnitude.
use repomap_core.Prelude.{
  ℕ, ◌<◌, ◌≡◌, arith, String, Bool, true, not, ◌&&◌, Option, none, some, ltb, str_eq, or_else,
  if◌then◌else◌,
}
use repomap_core.Prelude.Number.{Number}
use repomap_core.Governor.CostBudget.{CostBudgetConfig, default_cost_budget_config}

module _ (N : Number) where
  pub record Environment : Type 0 where
    pub get : String → Option String
    pub parse_float : String → Option N.Carrier
    pub parse_int : String → Option (Bool × ℕ)

  -- `Partial<CostBudgetConfig>`
  pub record PartialConfig : Type 0 where
    pub max_session_cost_usd : Option N.Carrier
    pub max_session_steps : Option ℕ
    pub max_tree_cost_usd : Option N.Carrier
    pub warning_threshold_ratio : Option N.Carrier

  -- a variable that is set, and not to the empty text
  abbrev pub raw : Environment → String → Option String
  raw env key = elim (env.get key) [
    | none ↦ none
    | some text ↦ if str_eq text "" then none else some text
  ]

  abbrev pub positive_or : N.Carrier → Option N.Carrier → N.Carrier
  positive_or fallback none = fallback
  positive_or fallback (some x) = if N.lt (N.of_ℕ 0) x then x else fallback

  abbrev pub positive_int_or : ℕ → Option (Bool × ℕ) → ℕ
  positive_int_or fallback none = fallback
  positive_int_or fallback (some (negative, n)) = if not negative && ltb 0 n then n else fallback

  abbrev pub ratio_or : N.Carrier → Option N.Carrier → N.Carrier
  ratio_or fallback none = fallback
  ratio_or fallback (some x) = if N.le (N.of_ℕ 0) x && N.le x (N.of_ℕ 1) then x else fallback

  abbrev pub parsed {ℓ} : {A : Type ℓ} → (String → Option A) → Option String → Option A
  parsed parse none = none
  parsed parse (some text) = parse text

  unfoldable pub parse_env_float : Environment → String → N.Carrier → N.Carrier
  parse_env_float env key fallback = positive_or fallback (parsed env.parse_float (raw env key))

  unfoldable pub parse_env_int : Environment → String → ℕ → ℕ
  parse_env_int env key fallback = positive_int_or fallback (parsed env.parse_int (raw env key))

  unfoldable pub parse_ratio : Environment → String → N.Carrier → N.Carrier
  parse_ratio env key fallback = ratio_or fallback (parsed env.parse_float (raw env key))

  unfoldable pub load_cost_budget_config : Environment → PartialConfig → CostBudgetConfig N
  unfolding parse_env_float parse_env_int parse_ratio
  load_cost_budget_config env o =
      let defaults = default_cost_budget_config N in
      record {
        max_session_cost_usd =
            or_else o.max_session_cost_usd
              (parse_env_float env "GOVERNOR_MAX_SESSION_COST_USD" defaults.max_session_cost_usd);
        max_session_steps =
            or_else o.max_session_steps
              (parse_env_int env "GOVERNOR_MAX_SESSION_STEPS" defaults.max_session_steps);
        max_tree_cost_usd =
            or_else o.max_tree_cost_usd
              (parse_env_float env "GOVERNOR_MAX_TREE_COST_USD" defaults.max_tree_cost_usd);
        warning_threshold_ratio =
            or_else o.warning_threshold_ratio
              (parse_ratio env "GOVERNOR_WARNING_THRESHOLD" defaults.warning_threshold_ratio);
      }

  abbrev pub no_overrides : PartialConfig
  no_overrides = record {
    max_session_cost_usd = none;
    max_session_steps = none;
    max_tree_cost_usd = none;
    warning_threshold_ratio = none;
  }

  pub positive_or_positive :
      (fallback : N.Carrier) (o : Option N.Carrier)
      → N.lt (N.of_ℕ 0) fallback ≡ true
      → N.lt (N.of_ℕ 0) (positive_or fallback o) ≡ true
  positive_or_positive fallback none h = h
  positive_or_positive fallback (some x) h = ground arith

  pub positive_int_or_positive :
      (fallback : ℕ) (o : Option (Bool × ℕ)) → 0 < fallback → 0 < positive_int_or fallback o
  positive_int_or_positive fallback none h = h
  positive_int_or_positive fallback (some (negative, n)) h = ground arith

  abbrev pub IsRatio : N.Carrier → Type 0
  IsRatio x = (N.le (N.of_ℕ 0) x ≡ true) × (N.le x (N.of_ℕ 1) ≡ true)

  ratio_or-IsRatio :
      (fallback : N.Carrier) (o : Option N.Carrier)
      → IsRatio fallback
      → IsRatio (ratio_or fallback o)
  ratio_or-IsRatio fallback none h = h
  ratio_or-IsRatio fallback (some x) h = (ground arith, ground arith)

  -- the limits are positive and the ratio lies between 0 and 1
  abbrev pub IsUsable : CostBudgetConfig N → Type 0
  IsUsable c =
      (N.lt (N.of_ℕ 0) c.max_session_cost_usd ≡ true)
      × (0 < c.max_session_steps)
      × (N.lt (N.of_ℕ 0) c.max_tree_cost_usd ≡ true)
      × IsRatio c.warning_threshold_ratio

  -- Whatever the environment holds and however its texts are parsed: without overrides, the limits
  -- that are loaded are positive and the warning ratio lies between 0 and 1, since the defaults do.
  pub load_cost_budget_config-IsUsable :
      (env : Environment)
      → IsUsable (default_cost_budget_config N)
      → IsUsable (load_cost_budget_config env no_overrides)
  unfolding load_cost_budget_config
  load_cost_budget_config-IsUsable env (a, b, c, d) = (
    positive_or_positive _ _ a,
    positive_int_or_positive _ (parsed env.parse_int (raw env "GOVERNOR_MAX_SESSION_STEPS")) b,
    positive_or_positive _ _ c,
    ratio_or-IsRatio _ _ d,
  )
