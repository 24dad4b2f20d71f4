-- ===== src/Governor/CostBudget/Tree.antt =====
-- `getTreeSessionIds` of daemon/src/governor/cost-budget-monitor.ts: the rounds of the
-- breadth-first walk.
use repomap_core.Prelude.{
  ℕ, zero, suc, ◌+◌, ◌≤◌, ◌≡◌, ◌≢◌, refl, subst, inl, inr, String, true, not, ◌&&◌, ◌||◌, Option,
  some, List, [], ◌∷◌, ◌++◌, arith, eq_iff, Option-cases, contains-one, length, length-append,
  if◌then◌else◌, contains, contains-append, contains-head, contains-tail, contains-add_new, add_new,
  Distinct, Distinct-add_new, outside, outside_add, outside-le,
}
use repomap_core.Governor.CostBudget.{out_of_fuel, visit_children, walk_tree, get_tree_session_ids}

pub visit_children-visited :
    (cs vis q : List String) (x : String)
    → contains (visit_children cs vis q).0 x ≡ (contains vis x || contains cs x)
unfolding visit_children
visit_children-visited [] vis q x = ground arith
visit_children-visited (c ∷ cs) vis q x = ground (
  arith,
  visit_children-visited cs (add_new vis c) (if contains vis c then q else q ++ c ∷ []) x,
  contains-add_new vis c x,
)

pub visit_children-queue :
    (cs vis q : List String) (x : String)
    → contains (visit_children cs vis q).1 x
      ≡ (contains q x || (contains cs x && not (contains vis x)))
unfolding visit_children
visit_children-queue [] vis q x = ground arith
visit_children-queue (c ∷ cs) vis q x = ground (
  arith,
  visit_children-queue cs (add_new vis c) (if contains vis c then q else q ++ c ∷ []) x,
  contains-add_new vis c x,
  contains-append q (c ∷ []) x,
  eq_iff c x,
)

pub visit_children-Distinct :
    (cs vis q : List String) → Distinct vis → Distinct (visit_children cs vis q).0
unfolding visit_children
visit_children-Distinct [] vis q d = d
visit_children-Distinct (c ∷ cs) vis q d =
    visit_children-Distinct cs (add_new vis c) _ (Distinct-add_new vis c d)

-- what is still to do, where `universe` holds every session
abbrev work : List String → List String → List String → ℕ
work universe vis q = outside universe vis + length q

visit_children-work :
    (universe cs vis q : List String)
    → ((v : String) → contains cs v ≡ true → contains universe v ≡ true)
    → work universe (visit_children cs vis q).0 (visit_children cs vis q).1 ≤ work universe vis q
unfolding visit_children
visit_children-work universe [] vis q inside = omega arith
visit_children-work universe (c ∷ cs) vis q inside =
    let q' = if contains vis c then q else q ++ c ∷ [] in
    ground (
      arith,
      visit_children-work universe cs (add_new vis c) q' (λ v h. inside v (contains-tail c cs v h)),
      outside_add universe vis c (inside c (contains-head c cs)),
      length-append q (c ∷ []),
    )

module _ (child_ids : String → Option (List String)) where
  -- `universe` holds the children of all that it holds
  abbrev pub IsClosed : List String → Type 0
  IsClosed universe =
      (u : String) (cs : List String)
      → contains universe u ≡ true
      → child_ids u ≡ some cs
      → (v : String) → contains cs v ≡ true
      → contains universe v ≡ true

  walk_tree_ends :
      (universe : List String)
      → IsClosed universe
      → (fuel : ℕ) (vis q : List String)
      → ((v : String) → contains q v ≡ true → contains universe v ≡ true)
      → work universe vis q ≤ fuel
      → walk_tree child_ids fuel vis q ≢ out_of_fuel
  unfolding walk_tree
  walk_tree_ends universe closed zero vis [] inside h e = cc
  walk_tree_ends universe closed (suc fuel) vis [] inside h e = cc
  walk_tree_ends universe closed zero vis (p ∷ q) inside h e = absurd (omega arith)
  walk_tree_ends universe closed (suc fuel) vis (p ∷ q) inside h e =
      elim (Option-cases (child_ids p)) [
        | inl none_e ↦ cc (rw (none_e, walk_tree) at e)
        | inr (cs, some_e) ↦
            let step = visit_children cs vis q in
            let below = closed p cs (inside p (contains-head p q)) some_e in
            walk_tree_ends universe closed fuel step.0 step.1
              (λ v h'. ground (arith, visit_children-queue cs vis q v, below v, inside v))
              (omega (arith, visit_children-work universe cs vis q below))
              (rw (some_e, walk_tree) at e)
      ]

  -- The walk ends within one round for each session, where `universe` holds the root and, with a
  -- session, the children that the query gives for it.
  pub get_tree_session_ids_ends :
      (universe : List String) (root : String) (fuel : ℕ)
      → IsClosed universe
      → contains universe root ≡ true
      → length universe ≤ fuel
      → get_tree_session_ids child_ids fuel root ≢ out_of_fuel
  unfolding get_tree_session_ids
  get_tree_session_ids_ends universe root fuel closed inside h =
      walk_tree_ends universe closed fuel (root ∷ []) (root ∷ [])
        (λ v one. subst (λ w. contains universe w ≡ true) (contains-one root v one) inside)
        (omega (arith, outside_add universe [] root inside refl, outside-le universe []))
