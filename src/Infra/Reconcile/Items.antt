-- ===== src/Infra/Reconcile/Items.antt =====
-- Which tasks a run of daemon/src/infra/pr-reconcile.ts reports on.
use repomap_core.Prelude.{
  ℕ, ◌≡◌, ◌⊎◌, inl, inr, refl, sym, ap, ap₂, arith, String, Bool, true, false, not, ◌&&◌, List, [],
  ◌∷◌, ◌++◌, All, map, Bool-cases, &&-true,
}
use repomap_core.Infra.Reconcile.{
  Reply, value, thrown, RepoRef, ReconcileItemResult, ReconcileOptions, ReconcileResult, Message,
  Request, World, gh_missing, create_client, discover_repo, bd_close, list_merged_prs, is_error,
  close_if_merged, after_close, reconcile_one, reconcile_all, all_missing, after_discovery,
  after_client, reconcile,
}

abbrev pub ids : List ReconcileItemResult → List String
ids items = map (λ i. i.task_id) items

-- no item is an error
abbrev pub Fine : List ReconcileItemResult → Type 0
Fine items = All (λ i. is_error i.status ≡ false) items

-- all tasks are reported on, with no error where the run is strict
abbrev pub Whole : Bool → List String → ReconcileResult → Type 0
Whole strict task_ids r =
    (r.success ≡ true) × (ids r.items ≡ task_ids) × ((strict ≡ false) ⊎ Fine r.items)

-- the run ends with the first error
abbrev pub Cut : List String → ReconcileResult → Type 0
Cut task_ids r =
    (before : List ReconcileItemResult) × (failed : ReconcileItemResult) × (later : List String)
    × (r.success ≡ false)
    × (r.items ≡ before ++ failed ∷ [])
    × (task_ids ≡ ids before ++ failed.task_id ∷ later)
    × Fine before
    × (is_error failed.status ≡ true)

-- GitHub cannot be reached, and every task is reported as such
abbrev pub Unreached : Bool → List String → ReconcileResult → Type 0
Unreached strict task_ids r =
    (r.success ≡ not strict) × (ids r.items ≡ task_ids) × All (λ i. i.status ≡ gh_missing) r.items

module _ (env : World) (opts : ReconcileOptions) where
  close_if_merged-id :
      (task_id : String) (reply : Reply (List ℕ)) (trace : List Request)
      → (close_if_merged env opts task_id reply trace).0.task_id ≡ task_id
  unfolding close_if_merged
  close_if_merged-id task_id (thrown err) trace = refl
  close_if_merged-id task_id (value []) trace = refl
  close_if_merged-id task_id (value (pr ∷ prs)) trace = elim (Bool-cases opts.is_dry_run) [
    | inl dry ↦ rw dry refl
    | inr wet ↦ rw wet (after (env.bd (bd_close task_id ∷ trace)) (bd_close task_id ∷ trace))
  ]
    where
      after :
          (reply : Reply (Unit {0})) (t : List Request)
          → (after_close env opts task_id reply t).0.task_id ≡ task_id
      after (thrown err) t = refl
      after (value done) t = refl

  reconcile_all_lem :
      (repo_ref : RepoRef) (task_ids : List String) (trace : List Request)
      → Whole opts.strict task_ids (reconcile_all env opts repo_ref task_ids trace).0
        ⊎ ((opts.strict ≡ true) × Cut task_ids (reconcile_all env opts repo_ref task_ids trace).0)
  unfolding reconcile_all reconcile_one
  reconcile_all_lem repo_ref [] trace = inl (refl, refl, inr tt)
  reconcile_all_lem repo_ref (task_id ∷ task_ids) trace =
      let (i, after) = reconcile_one env opts repo_ref task_id trace in
      let same : i.task_id ≡ task_id =
        close_if_merged-id task_id (env.merged (list_merged_prs repo_ref task_id ∷ trace))
          (list_merged_prs repo_ref task_id ∷ trace) in
      let out = (reconcile_all env opts repo_ref task_ids after).0 in
      elim (Bool-cases (opts.strict && is_error i.status)) [
        | inl stops ↦
            let (strict, error) = &&-true _ _ stops in
            inr (
              strict,
              (
                [],
                i,
                task_ids,
                rw stops refl,
                rw stops refl,
                ap (λ (t : String). t ∷ task_ids) (sym same),
                tt,
                error,
              ),
            )
        | inr goes ↦ elim (reconcile_all_lem repo_ref task_ids after) [
          | inl (ok, all, fine) ↦ inl (
            rw goes ok,
            rw goes (ap₂ (λ (t : String) (l : List String). t ∷ l) same all),
            rw goes (elim fine [
              | inl lax ↦ inl lax
              | inr all_fine ↦ elim (Bool-cases opts.strict) [
                | inl strict ↦ inr (ground arith, all_fine)
                | inr lax ↦ inl lax
              ]
            ]),
          )
          | inr (strict, (before, failed, later, bad, items, tasks, fine, error)) ↦ inr (
            strict,
            (
              i ∷ before,
              failed,
              later,
              rw goes bad,
              rw goes (ap (λ (l : List ReconcileItemResult). i ∷ l) items),
              ap₂ (λ (t : String) (l : List String). t ∷ l) (sym same) tasks,
              (ground arith, fine),
              error,
            ),
          )
        ]
      ]

  missing-Unreached :
      (task_ids : List String) (message : Message)
      → Unreached opts.strict task_ids (all_missing env opts task_ids message)
  missing-Unreached [] message = (refl, refl, tt)
  missing-Unreached (task_id ∷ task_ids) message =
      let rest = missing-Unreached task_ids message in
      (refl, ap (λ (l : List String). task_id ∷ l) rest.1, (refl, rest.2))

  abbrev pub Reports : List String → ReconcileResult → Type 0
  Reports task_ids r =
      Whole opts.strict task_ids r
      ⊎ (((opts.strict ≡ true) × Cut task_ids r) ⊎ Unreached opts.strict task_ids r)

  discovery_Reports :
      (task_ids : List String) (reply : Reply RepoRef) (trace : List Request)
      → Reports task_ids (after_discovery env opts task_ids reply trace).0
  unfolding after_discovery
  discovery_Reports task_ids (thrown err) trace = inr (inr (missing-Unreached task_ids _))
  discovery_Reports task_ids (value r) trace = elim (reconcile_all_lem r task_ids trace) [
    | inl whole ↦ inl whole
    | inr cut ↦ inr (inl cut)
  ]

  client_Reports :
      (task_ids : List String) (reply : Reply (Unit {0})) (trace : List Request)
      → Reports task_ids (after_client env opts task_ids reply trace).0
  unfolding after_client
  client_Reports task_ids (thrown err) trace = inr (inr (missing-Unreached task_ids _))
  client_Reports task_ids (value c) trace =
      discovery_Reports task_ids (env.discovered (discover_repo ∷ trace)) (discover_repo ∷ trace)

  -- Whether the run is given a client or not, and whatever is answered: it is successful and reports on
  -- all tasks in order, with no error if it is strict; or it is strict, reports on the tasks in order up
  -- to the first error, and is unsuccessful; or it reports all tasks as out of reach, and is
  -- unsuccessful if it is strict and successful if not.
  pub reconcile-Reports :
      (given : Bool) (task_ids : List String) (trace : List Request)
      → Reports task_ids (reconcile env opts given task_ids trace).0
  unfolding reconcile
  reconcile-Reports true task_ids trace = client_Reports task_ids (value tt) trace
  reconcile-Reports false task_ids trace =
      client_Reports task_ids (env.created (create_client ∷ trace)) (create_client ∷ trace)
