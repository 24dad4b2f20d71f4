-- ===== src/Governor/CostBudget/Check.antt =====
-- `checkBudget` of daemon/src/governor/cost-budget-monitor.ts and the parts that it calls.
use repomap_core.Prelude.{
  ℕ, String, Bool, true, false, ◌||◌, Option, none, some, List, [], ◌∷◌, ◌++◌, ltb, if◌then◌else◌,
}
use repomap_core.Prelude.Number.{Number}
use repomap_core.Governor.Types.{LoopClassification, step_overflow, cost_overflow, SessionMetrics}
use repomap_core.Governor.CostBudget.{
  Answer, done, ◌>>=◌, CostBudgetConfig, Dolt, SessionCostSnapshot, TreeCostSnapshot,
  get_session_cost, get_tree_cost,
}

pub data BudgetStatus : Type 0 where
  ok warning breach : BudgetStatus

pub data BreachType : Type 0 where
  session_cost session_steps tree_cost : BreachType

pub data Action : Type 0 where
  kill_session abort_tree throttle : Action

-- the tests of `primaryBreach.type`
abbrev pub is_session_steps : BreachType → Bool
is_session_steps session_steps = true
is_session_steps _ = false

abbrev pub is_tree_cost : BreachType → Bool
is_tree_cost tree_cost = true
is_tree_cost _ = false

module _ (N : Number) where
  pub record CostBreach : Type 0 where
    pub type : BreachType
    pub current : N.Carrier
    pub limit : N.Carrier

  -- `detection` repeats the classification, the reason and the target, with these metrics.
  pub record GovernorIntervention : Type 0 where
    pub action : Action
    pub classification : LoopClassification
    pub target_session_id : String
    pub metrics : SessionMetrics N

  pub record CostBudgetCheckResult : Type 0 where
    pub status : BudgetStatus
    pub breaches : List CostBreach
    pub session_snapshot : SessionCostSnapshot N
    pub tree_snapshot : TreeCostSnapshot N
    pub intervention : Option GovernorIntervention

  -- `if (current > limit) breaches.push(…)`
  abbrev pub breach_if : Bool → CostBreach → List CostBreach
  breach_if b x = if b then x ∷ [] else []

  unfoldable pub detect_breaches :
      CostBudgetConfig N → SessionCostSnapshot N → TreeCostSnapshot N → List CostBreach
  detect_breaches c session tree =
      breach_if (N.lt c.max_session_cost_usd session.total_cost) (record {
        type = session_cost;
        current = session.total_cost;
        limit = c.max_session_cost_usd;
      })
      ++ (breach_if (ltb c.max_session_steps session.step_count) (record {
        type = session_steps;
        current = N.of_ℕ session.step_count;
        limit = N.of_ℕ c.max_session_steps;
      })
          ++ breach_if (N.lt c.max_tree_cost_usd tree.total_cost)
              (record { type = tree_cost; current = tree.total_cost; limit = c.max_tree_cost_usd }))

  -- called with at least one breach, the first of which is `primary`
  unfoldable pub build_breach_result :
      String → SessionCostSnapshot N → CostBreach → BudgetStatus × Option GovernorIntervention
  build_breach_result session_id session primary = (
    breach,
    some (record {
      action = if is_tree_cost primary.type then abort_tree else kill_session;
      classification = if is_session_steps primary.type then step_overflow else cost_overflow;
      target_session_id = session_id;
      metrics = record {
        step_count = session.step_count;
        total_cost = session.total_cost;
        tool_calls = session.punch_count;
        recent_tools = [];
        unique_source_hashes = 0;
        elapsed_ms = 0;
      };
    }),
  )

  -- `max > 0 ? value / max : 0`
  abbrev pub ratio : N.Carrier → N.Carrier → N.Carrier
  ratio value max = if N.lt (N.of_ℕ 0) max then N.over value max else N.of_ℕ 0

  unfoldable pub evaluate_warning_status :
      CostBudgetConfig N
      → SessionCostSnapshot N
      → TreeCostSnapshot N
      → BudgetStatus × Option GovernorIntervention
  evaluate_warning_status c session tree = (
    if N.le c.warning_threshold_ratio (ratio session.total_cost c.max_session_cost_usd)
          || (N.le c.warning_threshold_ratio (ratio tree.total_cost c.max_tree_cost_usd)
              || N.le c.warning_threshold_ratio
                  (ratio (N.of_ℕ session.step_count) (N.of_ℕ c.max_session_steps)))
        then warning
        else ok,
    none,
  )

  unfoldable pub status_of :
      CostBudgetConfig N
      → String
      → SessionCostSnapshot N
      → TreeCostSnapshot N
      → List CostBreach
      → BudgetStatus × Option GovernorIntervention
  unfolding build_breach_result evaluate_warning_status
  status_of c session_id session tree [] = evaluate_warning_status c session tree
  status_of c session_id session tree (primary ∷ _) = build_breach_result session_id session primary

  -- the part of `checkBudget` after the two queries
  unfoldable pub evaluate :
      CostBudgetConfig N
      → String
      → SessionCostSnapshot N
      → TreeCostSnapshot N
      → CostBudgetCheckResult
  unfolding detect_breaches status_of
  evaluate c session_id session tree =
      let breaches = detect_breaches c session tree in
      let verdict = status_of c session_id session tree breaches in
      record {
        status = verdict.0;
        breaches = breaches;
        session_snapshot = session;
        tree_snapshot = tree;
        intervention = verdict.1;
      }

  unfoldable pub check_budget :
      CostBudgetConfig N → Dolt N → ℕ → String → Answer CostBudgetCheckResult
  check_budget c db fuel session_id = do
    session ← get_session_cost N db session_id
    tree ← get_tree_cost N db fuel session_id
    done (evaluate c session_id session tree)
