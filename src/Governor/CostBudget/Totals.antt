-- ===== src/Governor/CostBudget/Totals.antt =====
-- The totals of `getTreeCost` of daemon/src/governor/cost-budget-monitor.ts against the sessions
-- below the root.
use repomap_core.Prelude.{
  ℕ, ◌+◌, ◌≤◌, ◌≡◌, ap, subst, ◌∙◌, sym, String, true, some, List, [], ◌∷◌, arith, ||-true, inl,
  inr, contains, contains-one, map,
}
use repomap_core.Prelude.Number.{Number}
use repomap_core.Governor.CostBudget.{
  done, done-injective, Dolt, CostAgg, SessionCostSnapshot, TreeCostSnapshot, get_session_cost,
  get_session_costs, get_tree_cost, get_tree_session_ids, sum_counts,
}
use repomap_core.Governor.CostBudget.Descent.{Descends, get_tree_session_ids_correct}
use repomap_core.Governor.CostBudget.Verdict.{>>=-eq-done}

module _ (N : Number) where
  le-sum_counts :
      (f : SessionCostSnapshot N → ℕ) (acc : ℕ) (ss : List (SessionCostSnapshot N))
      → acc ≤ sum_counts N f acc ss
  unfolding sum_counts
  le-sum_counts f acc [] = omega arith
  le-sum_counts f acc (s ∷ ss) = omega (arith, le-sum_counts f (acc + f s) ss)

  -- the snapshots are those of the sessions, in their order
  abbrev ids_of : List (SessionCostSnapshot N) → List String
  ids_of ss = map (λ s. s.session_id) ss

  module _ (db : Dolt N) where
    one_cost :
        (sid : String) (s : SessionCostSnapshot N)
        → get_session_cost N db sid ≡ done s
        → (s.session_id ≡ sid) × (db.cost_agg sid ≡ some s.agg)
    unfolding get_session_cost
    one_cost sid s h = (ground arith, ground arith)

    counted_here :
        (f : CostAgg N → ℕ) (acc : ℕ) (sid : String) (s : SessionCostSnapshot N)
        (others : List (SessionCostSnapshot N)) (v : String) (a : CostAgg N)
        → get_session_cost N db sid ≡ done s
        → sid ≡ v
        → db.cost_agg v ≡ some a
        → f a ≤ sum_counts N (λ s. f s.agg) (acc + f s.agg) others
    counted_here f acc sid s others v a es same e =
        let agg : s.agg ≡ a = cc (sym (one_cost sid s es).1 ∙ ap db.cost_agg same ∙ e) in
        let total = le-sum_counts (λ s. f s.agg) (acc + f s.agg) others in
        omega (arith, total, ap f agg)

    -- the counts of a session among those that are summed
    counted :
        (f : CostAgg N → ℕ) (ids : List String) (ss : List (SessionCostSnapshot N)) (acc : ℕ)
        (v : String) (a : CostAgg N)
        → get_session_costs N db ids ≡ done ss
        → contains ids v ≡ true
        → db.cost_agg v ≡ some a
        → f a ≤ sum_counts N (λ s. f s.agg) acc ss
    unfolding get_session_costs sum_counts
    counted f [] ss acc v a h inside e = cc
    counted f (sid ∷ ids) ss acc v a h inside e =
        let (s, es, rest) = >>=-eq-done (get_session_cost N db sid) _ h in
        let (others, eo, last) = >>=-eq-done (get_session_costs N db ids) _ rest in
        subst (λ l. f a ≤ sum_counts N (λ s. f s.agg) acc l) (done-injective last)
          (elim (||-true (contains (sid ∷ []) v) (contains ids v) (ground arith)) [
            | inl here ↦ counted_here f acc sid s others v a es (contains-one sid v here) e
            | inr below ↦ counted f ids others (acc + f s.agg) v a eo below e
          ])

    -- In the snapshot of a tree, the totals of steps and of the three kinds of tokens are at least
    -- those of each session at or below the root.
    pub get_tree_cost-covers :
        (fuel : ℕ) (root : String) (t : TreeCostSnapshot N) (v : String) (a : CostAgg N)
        → get_tree_cost N db fuel root ≡ done t
        → Descends db.child_ids root v
        → db.cost_agg v ≡ some a
        → (a.step_count ≤ t.total_steps)
          × (a.tokens_input ≤ t.total_tokens_input)
          × (a.tokens_output ≤ t.total_tokens_output)
          × (a.tokens_reasoning ≤ t.total_tokens_reasoning)
    unfolding get_tree_cost
    get_tree_cost-covers fuel root t v a h below e =
        let (ids, ei, rest) = >>=-eq-done (get_tree_session_ids db.child_ids fuel root) _ h in
        let (ss, es, last) = >>=-eq-done (get_session_costs N db ids) _ rest in
        let inside = ((get_tree_session_ids_correct db.child_ids fuel root ids ei).0 v).1 below in
        let at = λ (f : CostAgg N → ℕ). counted f ids ss 0 v a es inside e in
        subst
          (λ r.
            (a.step_count ≤ r.total_steps)
            × (a.tokens_input ≤ r.total_tokens_input)
            × (a.tokens_output ≤ r.total_tokens_output)
            × (a.tokens_reasoning ≤ r.total_tokens_reasoning))
          (done-injective last)
          (
            at (λ x. x.step_count),
            at (λ x. x.tokens_input),
            at (λ x. x.tokens_output),
            at (λ x. x.tokens_reasoning),
          )
