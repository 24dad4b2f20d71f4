-- ===== src/Governor/CostBudget.antt =====
-- daemon/src/governor/cost-budget-monitor.ts, with the queries of daemon/src/governor/dolt-utils.ts
-- as the parameter `Dolt`: the database is the record of what each query answers, `none` where the
-- query is rejected. The texts of the reasons are left out.
pub mod Config
pub mod Tree
pub mod Descent
pub mod Check
pub mod Verdict
pub mod Totals
mod Tests
use repomap_core.Prelude.{
  ℕ, zero, suc, ◌+◌, ◌≡◌, String, Bool, true, false, ◌||◌, Option, none, some, List, [], ◌∷◌, ◌++◌,
  ltb, if◌then◌else◌, length, contains,
}
use repomap_core.Prelude.Number.{Number}
use repomap_core.Governor.Types.{LoopClassification, step_overflow, cost_overflow, SessionMetrics}

-- How an asynchronous chain of queries ends.
pub data Answer {ℓ} (A : Type ℓ) : Type ℓ where
  done : A → Answer A
  rejected out_of_fuel : Answer A

pub done-injective {ℓ} : {A : Type ℓ} {a b : A} → done a ≡ done b → a ≡ b
done-injective h = cc

infixl 5 ◌>>=◌
abbrev pub ◌>>=◌ {ℓ κ} : {A : Type ℓ} {B : Type κ} → Answer A → (A → Answer B) → Answer B
done a >>= f = f a
rejected >>= f = rejected
out_of_fuel >>= f = out_of_fuel

abbrev pub query {ℓ} : {A : Type ℓ} → Option A → Answer A
query none = rejected
query (some a) = done a

-- the inner loop of `getTreeSessionIds`, over the children of one session
unfoldable pub visit_children : List String → List String → List String → List String × List String
visit_children [] visited queue = (visited, queue)
visit_children (child ∷ children) visited queue =
    visit_children children (if contains visited child then visited else visited ++ child ∷ [])
      (if contains visited child then queue else queue ++ child ∷ [])

-- the outer loop
unfoldable pub walk_tree :
    (String → Option (List String)) → ℕ → List String → List String → Answer (List String)
walk_tree child_ids fuel visited [] = done visited
walk_tree child_ids zero visited (parent ∷ queue) = out_of_fuel
walk_tree child_ids (suc fuel) visited (parent ∷ queue) = elim (child_ids parent) [
  | none ↦ rejected
  | some children ↦
      walk_tree child_ids fuel (visit_children children visited queue).0
        (visit_children children visited queue).1
]

unfoldable pub get_tree_session_ids :
    (String → Option (List String)) → ℕ → String → Answer (List String)
get_tree_session_ids child_ids fuel root = walk_tree child_ids fuel (root ∷ []) (root ∷ [])

module _ (N : Number) where
  pub record CostBudgetConfig : Type 0 where
    pub max_session_cost_usd : N.Carrier
    pub max_session_steps : ℕ
    pub max_tree_cost_usd : N.Carrier
    pub warning_threshold_ratio : N.Carrier

  -- `0.8` is the double nearest to 4 / 5.
  abbrev pub default_cost_budget_config : CostBudgetConfig
  default_cost_budget_config = record {
    max_session_cost_usd = N.of_ℕ 5;
    max_session_steps = 200;
    max_tree_cost_usd = N.of_ℕ 25;
    warning_threshold_ratio = N.over (N.of_ℕ 4) (N.of_ℕ 5);
  }

  -- a row of `queryCostAgg`
  pub record CostAgg : Type 0 where
    pub total_cost : N.Carrier
    pub step_count : ℕ
    pub tokens_input : ℕ
    pub tokens_output : ℕ
    pub tokens_reasoning : ℕ
    pub punch_count : ℕ

  pub record Dolt : Type 0 where
    pub cost_agg : String → Option CostAgg
    pub child_ids : String → Option (List String)

  pub record SessionCostSnapshot : Type 0 where
    pub session_id : String
    pub agg : CostAgg
    pub open agg use *

  pub record TreeCostSnapshot : Type 0 where
    pub root_session_id : String
    pub total_cost : N.Carrier
    pub total_steps : ℕ
    pub total_tokens_input : ℕ
    pub total_tokens_output : ℕ
    pub total_tokens_reasoning : ℕ
    pub session_count : ℕ
    pub sessions : List SessionCostSnapshot

  unfoldable pub get_session_cost : Dolt → String → Answer SessionCostSnapshot
  get_session_cost db session_id = do
    agg ← query (db.cost_agg session_id)
    done (record { session_id = session_id; agg = agg })

  unfoldable pub get_session_costs : Dolt → List String → Answer (List SessionCostSnapshot)
  unfolding get_session_cost
  get_session_costs db [] = done []
  get_session_costs db (sid ∷ ids) =
      let rest = get_session_costs db ids in
      do s ← get_session_cost db sid; ss ← rest; done (s ∷ ss)

  -- `sessions.reduce((sum, s) => sum + f(s), 0)`
  unfoldable pub sum_costs : N.Carrier → List SessionCostSnapshot → N.Carrier
  sum_costs acc [] = acc
  sum_costs acc (s ∷ ss) = sum_costs (N.plus acc s.total_cost) ss

  unfoldable pub sum_counts : (SessionCostSnapshot → ℕ) → ℕ → List SessionCostSnapshot → ℕ
  sum_counts f acc [] = acc
  sum_counts f acc (s ∷ ss) = sum_counts f (acc + f s) ss

  abbrev pub tree_of : String → List SessionCostSnapshot → TreeCostSnapshot
  tree_of root sessions = record {
    root_session_id = root;
    total_cost = sum_costs (N.of_ℕ 0) sessions;
    total_steps = sum_counts (λ s. s.step_count) 0 sessions;
    total_tokens_input = sum_counts (λ s. s.tokens_input) 0 sessions;
    total_tokens_output = sum_counts (λ s. s.tokens_output) 0 sessions;
    total_tokens_reasoning = sum_counts (λ s. s.tokens_reasoning) 0 sessions;
    session_count = length sessions;
    sessions = sessions;
  }

  unfoldable pub get_tree_cost : Dolt → ℕ → String → Answer TreeCostSnapshot
  get_tree_cost db fuel root = do
    session_ids ← get_tree_session_ids db.child_ids fuel root
    sessions ← get_session_costs db session_ids
    done (tree_of root sessions)
