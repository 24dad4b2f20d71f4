-- ===== src/Governor/CostBudget/Tests.antt =====
-- A session tree with one subtask whose cost exceeds the limits of
-- daemon/src/governor/cost-budget-monitor.ts.

use repomap_core.Prelude.{
  false, ℕ, ◌≡◌, ◌≢◌, ◌≤◌, ◌↔◌, refl, String, true, some, Option, List, [], ◌∷◌, arith, str_eq,
  if◌then◌else◌, contains, Distinct, eq_iff,
}
use repomap_core.Prelude.Number.{micros}
use repomap_core.Governor.Types.{cost_overflow}
use repomap_core.Governor.CostBudget.{
  done, out_of_fuel, CostBudgetConfig, default_cost_budget_config, Dolt, CostAgg,
  SessionCostSnapshot, TreeCostSnapshot, visit_children, walk_tree, get_tree_session_ids,
  get_session_cost, get_session_costs, get_tree_cost, sum_costs, sum_counts, tree_of,
}
use repomap_core.Governor.CostBudget.Config.{
  Environment, IsUsable, load_cost_budget_config, no_overrides, load_cost_budget_config-IsUsable,
}
use repomap_core.Governor.CostBudget.Check.{
  CostBudgetCheckResult, GovernorIntervention, kill_session, evaluate, check_budget,
}
use repomap_core.Governor.CostBudget.Tree.{get_tree_session_ids_ends}
use repomap_core.Governor.CostBudget.Descent.{Descends, here, child, get_tree_session_ids_correct}
use repomap_core.Governor.CostBudget.Verdict.{
  Consistent, Directs, check_budget-breach, check_budget-intervention,
}
use repomap_core.Governor.CostBudget.Totals.{get_tree_cost-covers}

-- the root has a subtask, which lists itself and the root again
abbrev children_of : String → Option (List String)
children_of sid = if str_eq sid "root" then some ("sub" ∷ []) else some (sid ∷ "root" ∷ [])

abbrev row : ℕ → ℕ → CostAgg micros
row cost steps = record {
  total_cost = cost;
  step_count = steps;
  tokens_input = 10;
  tokens_output = 20;
  tokens_reasoning = 30;
  punch_count = 4;
}

-- six dollars in the root, one in its subtask
abbrev db : Dolt micros
db = record {
  cost_agg = λ sid. some (if str_eq sid "root" then row 6000000 3 else row 1000000 7);
  child_ids = children_of;
}

abbrev limits : CostBudgetConfig micros
limits = default_cost_budget_config micros

abbrev root_cost : SessionCostSnapshot micros
root_cost = record { session_id = "root"; agg = row 6000000 3 }

abbrev tree : TreeCostSnapshot micros
unfolding sum_costs sum_counts
tree = tree_of micros "root" (root_cost ∷ record { session_id = "sub"; agg = row 1000000 7 } ∷ [])

abbrev verdict : CostBudgetCheckResult micros
unfolding evaluate
verdict = evaluate micros limits "root" root_cost tree

walked : get_tree_session_ids children_of 2 "root" ≡ done ("root" ∷ "sub" ∷ [])
unfolding get_tree_session_ids walk_tree visit_children
walked = refl

measured : get_tree_cost micros db 2 "root" ≡ done tree
unfolding get_tree_cost get_tree_session_ids walk_tree visit_children get_session_costs tree
measured = refl

checked : check_budget micros limits db 2 "root" ≡ done verdict
unfolding check_budget get_session_cost get_tree_cost get_tree_session_ids walk_tree visit_children
    get_session_costs verdict tree
checked = refl

abbrev kill : GovernorIntervention micros
kill = record {
  action = kill_session;
  classification = cost_overflow;
  target_session_id = "root";
  metrics = record {
    step_count = 3;
    total_cost = 6000000;
    tool_calls = 4;
    recent_tools = [];
    unique_source_hashes = 0;
    elapsed_ms = 0;
  };
}

intervened : verdict.intervention ≡ some kill
unfolding verdict
intervened = refl

sub_below : Descends children_of "root" "sub"
sub_below = child here ("sub" ∷ []) refl refl

closed :
    (u : String) (cs : List String)
    → contains ("root" ∷ "sub" ∷ []) u ≡ true
    → children_of u ≡ some cs
    → (v : String) → contains cs v ≡ true
    → contains ("root" ∷ "sub" ∷ []) v ≡ true
closed u cs h e v inside = ground (
  arith,
  eq_iff u "root",
  eq_iff "root" u,
  eq_iff "sub" u,
  eq_iff "root" v,
  eq_iff "sub" v,
  eq_iff u v,
)

get_tree_session_ids_ends_example : get_tree_session_ids children_of 2 "root" ≢ out_of_fuel
get_tree_session_ids_ends_example =
    get_tree_session_ids_ends children_of ("root" ∷ "sub" ∷ []) "root" 2 closed refl (omega arith)

get_tree_session_ids_correct_example :
    ((v : String) → (contains ("root" ∷ "sub" ∷ []) v ≡ true) ↔ Descends children_of "root" v)
    × Distinct ("root" ∷ "sub" ∷ [])
get_tree_session_ids_correct_example =
    get_tree_session_ids_correct children_of 2 "root" ("root" ∷ "sub" ∷ []) walked

check_budget-breach_example : Consistent micros limits verdict
check_budget-breach_example = check_budget-breach micros limits db 2 "root" verdict checked

check_budget-intervention_example : Directs micros limits "root" verdict kill
check_budget-intervention_example =
    check_budget-intervention micros limits db 2 "root" verdict kill checked intervened

get_tree_cost-covers_example :
    (7 ≤ tree.total_steps)
    × (10 ≤ tree.total_tokens_input)
    × (20 ≤ tree.total_tokens_output)
    × (30 ≤ tree.total_tokens_reasoning)
get_tree_cost-covers_example =
    get_tree_cost-covers micros db 2 "root" tree "sub" (row 1000000 7) measured sub_below refl

-- the step limit is set to nine, and the warning ratio to two, which is out of range
abbrev variables : Environment micros
variables = record {
  get = λ key. some key;
  parse_float = λ text. some 2000000;
  parse_int = λ text. some (false, 9);
}

load_cost_budget_config-IsUsable_example :
    IsUsable micros (load_cost_budget_config micros variables (no_overrides micros))
load_cost_budget_config-IsUsable_example =
    load_cost_budget_config-IsUsable micros variables (refl, omega arith, refl, (refl, refl))
