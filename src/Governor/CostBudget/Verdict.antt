-- ===== src/Governor/CostBudget/Verdict.antt =====
-- What the result of `checkBudget` of daemon/src/governor/cost-budget-monitor.ts means.
use repomap_core.Prelude.{
  ℕ, ◌<◌, ◌≡◌, ◌≢◌, refl, ap, subst, ◌∙◌, ◌↔◌, ◌⊎◌, String, true, is_some, some, [], arith,
}
use repomap_core.Prelude.Number.{Number}
use repomap_core.Governor.Types.{step_overflow}
use repomap_core.Governor.CostBudget.{
  Answer, done, done-injective, rejected, out_of_fuel, ◌>>=◌, CostBudgetConfig, Dolt,
  SessionCostSnapshot, TreeCostSnapshot, get_session_cost, get_tree_cost,
}
use repomap_core.Governor.CostBudget.Check.{
  breach, kill_session, abort_tree, CostBudgetCheckResult, GovernorIntervention, evaluate,
  check_budget,
}

-- The value of a chain that went through came from values of its parts.
pub >>=-eq-done {ℓ κ} :
    {A : Type ℓ} {B : Type κ} (m : Answer A) (f : A → Answer B) {b : B}
    → (m >>= f) ≡ done b
    → (a : A) × (m ≡ done a) × (f a ≡ done b)
>>=-eq-done (done a) f h = (a, refl, h)
>>=-eq-done rejected f h = cc
>>=-eq-done out_of_fuel f h = cc

module _ (N : Number) (c : CostBudgetConfig N) where
  -- Which limits a result exceeds, by the snapshots in it.
  abbrev pub OverSessionCost : CostBudgetCheckResult N → Type 0
  OverSessionCost r = N.lt c.max_session_cost_usd r.session_snapshot.total_cost ≡ true

  abbrev pub OverSteps : CostBudgetCheckResult N → Type 0
  OverSteps r = c.max_session_steps < r.session_snapshot.step_count

  abbrev pub OverTreeCost : CostBudgetCheckResult N → Type 0
  OverTreeCost r = N.lt c.max_tree_cost_usd r.tree_snapshot.total_cost ≡ true

  abbrev pub Over : CostBudgetCheckResult N → Type 0
  Over r = OverSessionCost r ⊎ OverSteps r ⊎ OverTreeCost r

  abbrev pub Consistent : CostBudgetCheckResult N → Type 0
  Consistent r =
      ((r.status ≡ breach) ↔ Over r)
      × ((is_some r.intervention ≡ true) ↔ Over r)
      × ((r.breaches ≢ []) ↔ Over r)

  evaluate-Consistent :
      (session_id : String) (s : SessionCostSnapshot N) (t : TreeCostSnapshot N)
      → Consistent (evaluate N c session_id s t)
  unfolding evaluate
  evaluate-Consistent session_id s t = (
    (λ h. ground arith, λ h. ground arith),
    (λ h. ground arith, λ h. ground arith),
    (λ h. ground arith, λ o h. ground arith),
  )

  -- the target and the kind of an intervention
  abbrev pub Directs : String → CostBudgetCheckResult N → GovernorIntervention N → Type 0
  Directs session_id r i =
      (i.target_session_id ≡ session_id)
      × ((i.action ≡ abort_tree) ↔ (¬ OverSessionCost r × ¬ OverSteps r))
      × ((i.action ≡ kill_session) ↔ (OverSessionCost r ⊎ OverSteps r))
      × ((i.classification ≡ step_overflow) ↔ (¬ OverSessionCost r × OverSteps r))

  evaluate-Directs :
      (session_id : String) (s : SessionCostSnapshot N) (t : TreeCostSnapshot N)
      (i : GovernorIntervention N)
      → (evaluate N c session_id s t).intervention ≡ some i
      → Directs session_id (evaluate N c session_id s t) i
  unfolding evaluate
  evaluate-Directs session_id s t i h = (
    ground arith,
    (λ a. (λ o. ground arith, λ o. ground arith), λ (x, y). ground arith),
    (λ a. ground arith, λ o. ground arith),
    (λ a. (λ o. ground arith, ground arith), λ (x, y). ground arith),
  )

  module _ (db : Dolt N) (fuel : ℕ) (session_id : String) (r : CostBudgetCheckResult N)
      (h : check_budget N c db fuel session_id ≡ done r) where
    parts :
        (s : SessionCostSnapshot N) × (t : TreeCostSnapshot N) × (get_session_cost N db session_id
          ≡ done s)
        × (get_tree_cost N db fuel session_id ≡ done t)
        × (evaluate N c session_id s t ≡ r)
    unfolding check_budget
    parts =
        let (s, es, rest) = >>=-eq-done (get_session_cost N db session_id) _ h in
        let (t, et, e) = >>=-eq-done (get_tree_cost N db fuel session_id) _ rest in
        (s, t, es, et, done-injective e)

  -- A check that goes through has the status "breach" exactly where the session's cost, its steps or
  -- the cost of its tree exceeds the limit, and exactly then it has an intervention and lists a
  -- breach.
  pub check_budget-breach :
      (db : Dolt N) (fuel : ℕ) (session_id : String) (r : CostBudgetCheckResult N)
      → check_budget N c db fuel session_id ≡ done r
      → Consistent r
  check_budget-breach db fuel session_id r h =
      let (s, t, _, _, e) = parts db fuel session_id r h in
      subst Consistent e (evaluate-Consistent session_id s t)

  -- The intervention of a check targets the session that was checked. It aborts the tree exactly
  -- where neither the cost nor the steps of the session itself exceed their limits, it kills the
  -- session exactly where one of them does, and it is classified as a step overflow exactly where
  -- the steps exceed their limit and the cost does not.
  pub check_budget-intervention :
      (db : Dolt N) (fuel : ℕ) (session_id : String) (r : CostBudgetCheckResult N)
      (i : GovernorIntervention N)
      → check_budget N c db fuel session_id ≡ done r
      → r.intervention ≡ some i
      → Directs session_id r i
  check_budget-intervention db fuel session_id r i h e =
      let (s, t, _, _, same) = parts db fuel session_id r h in
      subst (λ q. Directs session_id q i) same
        (evaluate-Directs session_id s t i (ap (λ q. q.intervention) same ∙ e))
