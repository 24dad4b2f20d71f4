-- ===== src/Infra/Reconcile/Tests.antt =====
-- Runs of the reconciliation of daemon/src/infra/pr-reconcile.ts, where the second task has a merged
-- pull request and bd fails at the third close.
use repomap_core.Prelude.{
  ℕ, ◌≡◌, ◌≤◌, ◌+◌, refl, String, true, false, List, [], ◌∷◌, map, str_eq, if◌then◌else◌, length,
}
use repomap_core.Prelude.Text.{codes}
use repomap_core.Infra.Reconcile.{
  Reply, value, thrown, ReconcileOptions, Request, World, create_client, discover_repo, bd_close,
  list_merged_prs, closed, no_merged_pr, gh_error, reconcile, reconcile_all, reconcile_one,
  close_if_merged, after_client, after_discovery, sanitize_error, collapse,
}
use repomap_core.Infra.Reconcile.Errors.{IsOneLine, sanitize_error-IsOneLine}
use repomap_core.Infra.Reconcile.Items.{Reports, reconcile-Reports}
use repomap_core.Infra.Reconcile.Closing.{IsJustified, reconcile-IsJustified}

abbrev answer : List Request → Reply (List ℕ)
answer [] = value []
answer (create_client ∷ trace) = value []
answer (discover_repo ∷ trace) = value []
answer (bd_close id ∷ trace) = value []
answer (list_merged_prs r id ∷ trace) =
    if str_eq id "b-2"
    then value (12 ∷ [])
    else if str_eq id "b-3"
    then thrown (codes "no route")
    else value []

abbrev world : World
world = record {
  created = λ trace. value tt;
  discovered = λ trace. value (record { owner = "o"; repo = "r" });
  merged = answer;
  bd = λ trace. value tt;
}

abbrev strict : ReconcileOptions
strict = record { is_dry_run = false; strict = true }

abbrev tasks : List String
tasks = "b-1" ∷ "b-2" ∷ "b-3" ∷ "b-4" ∷ []

stops_at_error :
    map (λ i. i.status) (reconcile world strict false tasks []).0.items
    ≡ no_merged_pr ∷ closed ∷ gh_error ∷ []
unfolding reconcile reconcile_all reconcile_one close_if_merged after_client after_discovery
    sanitize_error
stops_at_error = refl

collapses : collapse false (codes " a  b") ≡ codes " a b"
unfolding collapse
collapses = refl

reconcile-Reports_example : Reports world strict tasks (reconcile world strict false tasks []).0
reconcile-Reports_example = reconcile-Reports world strict false tasks []

reconcile-IsJustified_example : IsJustified world strict (reconcile world strict false tasks []).1
reconcile-IsJustified_example = reconcile-IsJustified world strict false tasks

sanitize_error-IsOneLine_example :
    (length (sanitize_error (codes "a  b") 3) ≤ 3 + 1) × IsOneLine (sanitize_error (codes "a  b") 3)
sanitize_error-IsOneLine_example = sanitize_error-IsOneLine (codes "a  b") 3
