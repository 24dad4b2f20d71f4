-- ===== src/Infra/Reconcile/Closing.antt =====
-- Which issues a run of daemon/src/infra/pr-reconcile.ts closes.
use repomap_core.Prelude.{
  ℕ, ◌≡◌, inl, inr, refl, sym, subst, if-cases, String, Bool, true, false, ◌&&◌, List, [], ◌∷◌,
  Bool-cases,
}
use repomap_core.Infra.Reconcile.{
  Reply, value, thrown, M, RepoRef, ReconcileItemResult, ReconcileOptions, Request, World,
  create_client, discover_repo, bd_close, list_merged_prs, is_error, close_if_merged, after_close,
  reconcile_one, reconcile_all, after_discovery, after_client, reconcile,
}

module _ (env : World) (opts : ReconcileOptions) where
  -- Just before, the pull requests of the task were asked for and some were there.
  abbrev pub Justified : String → List Request → Type 0
  Justified task_id [] = ⊥
  Justified task_id (create_client ∷ trace) = ⊥
  Justified task_id (discover_repo ∷ trace) = ⊥
  Justified task_id (bd_close other ∷ trace) = ⊥
  Justified task_id (list_merged_prs repo_ref asked ∷ trace) =
      (asked ≡ task_id)
      × (opts.is_dry_run ≡ false)
      × (pr : ℕ) × (prs : List ℕ) × (env.merged (list_merged_prs repo_ref asked ∷ trace)
          ≡ value (pr ∷ prs))

  -- each closing of an issue is justified
  abbrev pub IsJustified : List Request → Type 0
  IsJustified [] = Unit
  IsJustified (bd_close task_id ∷ trace) = Justified task_id trace × IsJustified trace
  IsJustified (create_client ∷ trace) = IsJustified trace
  IsJustified (discover_repo ∷ trace) = IsJustified trace
  IsJustified (list_merged_prs repo_ref task_id ∷ trace) = IsJustified trace

  after_close-trace :
      (task_id : String) (reply : Reply (Unit {0})) (trace : List Request)
      → (after_close env opts task_id reply trace).1 ≡ trace
  after_close-trace task_id (thrown err) trace = refl
  after_close-trace task_id (value done) trace = refl

  close_if_merged-IsJustified :
      (repo_ref : RepoRef) (task_id : String) (trace : List Request) (reply : Reply (List ℕ))
      → env.merged (list_merged_prs repo_ref task_id ∷ trace) ≡ reply
      → IsJustified trace
      → IsJustified
          (close_if_merged env opts task_id reply (list_merged_prs repo_ref task_id ∷ trace)).1
  unfolding close_if_merged
  close_if_merged-IsJustified repo_ref task_id trace (thrown err) e h = h
  close_if_merged-IsJustified repo_ref task_id trace (value []) e h = h
  close_if_merged-IsJustified repo_ref task_id trace (value (pr ∷ prs)) e h =
      let asked : List Request = list_merged_prs repo_ref task_id ∷ trace in
      let closing : List Request = bd_close task_id ∷ asked in
      if-cases (λ (m : M ReconcileItemResult). IsJustified (m asked).1) opts.is_dry_run _ _
        (λ dry. h)
        λ wet.
          subst IsJustified (sym (after_close-trace task_id (env.bd closing) closing))
            ((refl, wet, pr, prs, e), h)

  reconcile_all-IsJustified :
      (repo_ref : RepoRef) (task_ids : List String) (trace : List Request)
      → IsJustified trace
      → IsJustified (reconcile_all env opts repo_ref task_ids trace).1
  unfolding reconcile_all reconcile_one
  reconcile_all-IsJustified repo_ref [] trace h = h
  reconcile_all-IsJustified repo_ref (task_id ∷ task_ids) trace h =
      let (i, after) = reconcile_one env opts repo_ref task_id trace in
      let one : IsJustified after = close_if_merged-IsJustified repo_ref task_id trace _ refl h in
      elim (Bool-cases (opts.strict && is_error i.status)) [
        | inl stops ↦ rw stops one
        | inr goes ↦ rw goes (reconcile_all-IsJustified repo_ref task_ids after one)
      ]

  discovery-IsJustified :
      (task_ids : List String) (reply : Reply RepoRef) (trace : List Request)
      → IsJustified trace
      → IsJustified (after_discovery env opts task_ids reply trace).1
  unfolding after_discovery
  discovery-IsJustified task_ids (thrown err) trace h = h
  discovery-IsJustified task_ids (value r) trace h = reconcile_all-IsJustified r task_ids trace h

  client-IsJustified :
      (task_ids : List String) (reply : Reply (Unit {0})) (trace : List Request)
      → IsJustified trace
      → IsJustified (after_client env opts task_ids reply trace).1
  unfolding after_client
  client-IsJustified task_ids (thrown err) trace h = h
  client-IsJustified task_ids (value c) trace h =
      discovery-IsJustified task_ids (env.discovered (discover_repo ∷ trace))
        (discover_repo ∷ trace) h

  -- Whatever GitHub, git and the bd command line answer: an issue is closed only in a run that is no
  -- dry run, and only right after the merged pull requests of its own branch were asked for and the
  -- answer named at least one.
  pub reconcile-IsJustified :
      (given : Bool) (task_ids : List String) → IsJustified (reconcile env opts given task_ids []).1
  unfolding reconcile
  reconcile-IsJustified true task_ids = client-IsJustified task_ids (value tt) [] tt
  reconcile-IsJustified false task_ids =
      client-IsJustified task_ids (env.created (create_client ∷ [])) (create_client ∷ []) tt
