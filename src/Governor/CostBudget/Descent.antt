-- ===== src/Governor/CostBudget/Descent.antt =====
-- What `getTreeSessionIds` of daemon/src/governor/cost-budget-monitor.ts returns, against the
-- descendants of the root.
use repomap_core.Prelude.{
  ℕ, zero, suc, ◌≡◌, ◌↔◌, refl, sym, ap, subst, ◌∙◌, ◌⊎◌, inl, inr, String, true, ◌||◌, Option,
  some, List, [], ◌∷◌, arith, Bool-cases, Option-cases, ||-true, contains, contains-head,
  contains-one, Distinct,
}
use repomap_core.Governor.CostBudget.{
  done, done-injective, visit_children, walk_tree, get_tree_session_ids,
}
use repomap_core.Governor.CostBudget.Tree.{
  visit_children-visited, visit_children-queue, visit_children-Distinct,
}

-- A session that the stored relation leads to from `root`.
pub data Descends (child_ids : String → Option (List String)) (root : String)
    : String → Type 0 where
  here : Descends child_ids root root
  child :
      {u v : String}
      → Descends child_ids root u
      → (cs : List String) → child_ids u ≡ some cs
      → contains cs v ≡ true
      → Descends child_ids root v

module _ (child_ids : String → Option (List String)) where
  module _ (root : String) where
    record Inv (vis q : List String) : Type 0 where
      source : contains vis root ≡ true
      distinct : Distinct vis
      sound : (v : String) → contains vis v ≡ true → Descends child_ids root v
      queued : (v : String) → contains q v ≡ true → contains vis v ≡ true
      expanded :
          (u : String)
          → contains vis u ≡ true
          → (contains q u ≡ true)
            ⊎ ((cs : List String)
                → child_ids u ≡ some cs
                → (v : String) → contains cs v ≡ true
                → contains vis v ≡ true)

    Inv-start : Inv (root ∷ []) (root ∷ [])
    Inv-start = record {
      source = contains-head root [];
      distinct = (refl, tt);
      sound = λ v h. subst (Descends child_ids root) (contains-one root v h) here;
      queued = λ v h. h;
      expanded = λ u h. inl h;
    }

    module _ (p : String) (vis q cs : List String) (e : child_ids p ≡ some cs)
        (inv : Inv vis (p ∷ q)) where
      visited :
          (v : String) → contains (visit_children cs vis q).0 v ≡ (contains vis v || contains cs v)
      visited = visit_children-visited cs vis q

      visit_sound :
          (v : String) → contains (visit_children cs vis q).0 v ≡ true → Descends child_ids root v
      visit_sound v h = elim (||-true (contains vis v) (contains cs v) (sym (visited v) ∙ h)) [
        | inl old ↦ inv.sound v old
        | inr new ↦ child (inv.sound p (inv.queued p (contains-head p q))) cs e new
      ]

      -- the children of `u`, once `p` is expanded
      visit-expanded :
          (u : String)
          → contains (visit_children cs vis q).0 u ≡ true
          → (contains (visit_children cs vis q).1 u ≡ true)
            ⊎ ((ds : List String)
                → child_ids u ≡ some ds
                → (v : String) → contains ds v ≡ true
                → contains (visit_children cs vis q).0 v ≡ true)
      visit-expanded u h = elim (Bool-cases (contains vis u)) [
        | inr new ↦ inl (ground (arith, visited u, visit_children-queue cs vis q u))
        | inl old ↦ elim (inv.expanded u old) [
          | inr rest ↦ inr (λ ds e' v h'. ground (arith, visited v, rest ds e' v h'))
          | inl waits ↦ elim (||-true (contains (p ∷ []) u) (contains q u) (ground arith)) [
            | inr later ↦ inl (ground (arith, visit_children-queue cs vis q u))
            | inl now ↦ inr (λ ds e' v h'.
                let same : some cs ≡ some ds = sym e ∙ ap child_ids (contains-one p u now) ∙ e' in
                ground (arith, visited v))
          ]
        ]
      ]

    Inv-visit :
        (p : String) (vis q cs : List String)
        → child_ids p ≡ some cs
        → Inv vis (p ∷ q)
        → Inv (visit_children cs vis q).0 (visit_children cs vis q).1
    Inv-visit p vis q cs e inv = record {
      source = rw (visit_children-visited cs vis q root, inv.source) refl;
      distinct = visit_children-Distinct cs vis q inv.distinct;
      sound = λ v h. visit_sound p vis q cs e inv v h;
      queued = λ v h.
          ground (
            arith,
            visit_children-visited cs vis q v,
            visit_children-queue cs vis q v,
            inv.queued v,
          );
      expanded = λ u h. visit-expanded p vis q cs e inv u h;
    }

    walk_tree-Inv :
        (fuel : ℕ) (vis q ids : List String)
        → Inv vis q
        → walk_tree child_ids fuel vis q ≡ done ids
        → Inv ids []
    unfolding walk_tree
    walk_tree-Inv zero vis [] ids inv h = subst (λ v. Inv v []) (done-injective h) inv
    walk_tree-Inv (suc fuel) vis [] ids inv h = subst (λ v. Inv v []) (done-injective h) inv
    walk_tree-Inv zero vis (p ∷ q) ids inv h = cc
    walk_tree-Inv (suc fuel) vis (p ∷ q) ids inv h = elim (Option-cases (child_ids p)) [
      | inl e ↦ cc (rw (e, walk_tree) at h)
      | inr (cs, e) ↦
          walk_tree-Inv fuel (visit_children cs vis q).0 (visit_children cs vis q).1 ids
            (Inv-visit p vis q cs e inv) (rw (e, walk_tree) at h)
    ]

    complete :
        (ids : List String)
        → Inv ids []
        → {v : String} → Descends child_ids root v
        → contains ids v ≡ true
    complete ids inv here = inv.source
    complete ids inv (child {u} {v} above cs e inside) =
        elim (inv.expanded u (complete ids inv above)) [
          | inl waits ↦ cc
          | inr rest ↦ rest cs e v inside
        ]

  -- When the walk returns, its result holds exactly the descendants of the root, the root among
  -- them, and none of them twice.
  pub get_tree_session_ids_correct :
      (fuel : ℕ) (root : String) (ids : List String)
      → get_tree_session_ids child_ids fuel root ≡ done ids
      → ((v : String) → (contains ids v ≡ true) ↔ Descends child_ids root v) × Distinct ids
  unfolding get_tree_session_ids
  get_tree_session_ids_correct fuel root ids h =
      let inv = walk_tree-Inv root fuel (root ∷ []) (root ∷ []) ids (Inv-start root) h in
      (λ v. (inv.sound v, complete root ids inv), inv.distinct)
