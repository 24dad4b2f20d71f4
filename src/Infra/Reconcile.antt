-- ===== src/Infra/Reconcile.antt =====
-- daemon/src/infra/pr-reconcile.ts. GitHub, git and the bd command line are the parameter `World`, which
-- answers by all that was asked before, the last request first. An error is the text of its message,
-- by its UTF-16 units, and a message of a result keeps the cleaned error and not the English text.
pub mod Errors
pub mod Items
pub mod Closing
mod Tests
use repomap_core.Prelude.{
  ℕ, ◌+◌, String, Bool, true, false, not, ◌&&◌, ◌||◌, Option, none, some, List, [], ◌∷◌, ◌++◌, map,
  take, length, ltb, if◌then◌else◌,
}
use repomap_core.Infra.LandPlane.{is_space, trim}

-- an answer, or what was thrown
pub data Reply (A : Type 0) : Type 0 where
  value : A → Reply A
  thrown : List ℕ → Reply A

-- `{ owner: string; repo: string }`
pub record RepoRef : Type 0 where
  pub owner : String
  pub repo : String

pub data ItemStatus : Type 0 where
  closed no_merged_pr dry_run gh_error bd_error gh_missing : ItemStatus

pub data Message : Type 0 where
  no_merged_pr_found would_close closed_in_beads : Message
  -- each with whether the run is strict
  gh_query_failed bd_close_failed client_unavailable repo_discovery_failed : Bool → List ℕ → Message

pub record ReconcileItemResult : Type 0 where
  pub status : ItemStatus
  pub task_id : String
  pub message : Message

pub record ReconcileOptions : Type 0 where
  pub is_dry_run : Bool
  pub strict : Bool

pub record ReconcileResult : Type 0 where
  pub items : List ReconcileItemResult
  pub success : Bool

-- What is asked: the client, the origin of the repository, the merged pull requests of a branch
-- `owner:taskId`, and `bd close`.
pub data Request : Type 0 where
  create_client discover_repo : Request
  list_merged_prs : (repo_ref : RepoRef) → (task_id : String) → Request
  bd_close : String → Request

pub record World : Type 0 where
  pub created : List Request → Reply (Unit {0})
  pub discovered : List Request → Reply RepoRef
  -- the numbers of the pull requests
  pub merged : List Request → Reply (List ℕ)
  pub bd : List Request → Reply (Unit {0})

abbrev pub M : Type 0 → Type 0
M A = List Request → A × List Request

infixl 5 ◌>>=◌
abbrev pub ◌>>=◌ : {A B : Type 0} → M A → (A → M B) → M B
◌>>=◌ m f trace = f (m trace).0 (m trace).1

abbrev pub pure : {A : Type 0} → A → M A
pure a trace = (a, trace)

abbrev pub ask : {A : Type 0} → Request → (List Request → Reply A) → M (Reply A)
ask request answer trace = (answer (request ∷ trace), request ∷ trace)

-- `msg.replaceAll(/\s+/g, " ")`; the flag says that the character before was a space
unfoldable pub collapse : Bool → List ℕ → List ℕ
collapse b [] = []
collapse b (c ∷ cs) =
    let rest = collapse (is_space c) cs in
    if is_space c then (if b then rest else 32 ∷ rest) else c ∷ rest

abbrev pub ellipsis : ℕ
ellipsis = 8230

unfoldable pub sanitize_error : List ℕ → ℕ → List ℕ
unfolding collapse
sanitize_error msg max_len =
    let collapsed = trim (collapse false msg) in
    if ltb max_len (length collapsed) then take max_len collapsed ++ ellipsis ∷ [] else collapsed

abbrev pub item : ItemStatus → String → Message → ReconcileItemResult
item status task_id message = record { status = status; task_id = task_id; message = message }

abbrev pub is_error : ItemStatus → Bool
is_error closed = false
is_error no_merged_pr = false
is_error dry_run = false
is_error gh_error = true
is_error bd_error = true
is_error gh_missing = false

abbrev pub and_item : ReconcileItemResult → ReconcileResult → ReconcileResult
and_item i r = record { items = i ∷ r.items; success = r.success }

module _ (env : World) (opts : ReconcileOptions) where
  abbrev pub after_close : String → Reply (Unit {0}) → M ReconcileItemResult
  after_close task_id (thrown err) =
      pure (item bd_error task_id (bd_close_failed opts.strict (sanitize_error err 200)))
  after_close task_id (value done) = pure (item closed task_id closed_in_beads)

  -- once the pull requests are known
  unfoldable pub close_if_merged : String → Reply (List ℕ) → M ReconcileItemResult
  close_if_merged task_id (thrown err) =
      pure (item gh_error task_id (gh_query_failed opts.strict (sanitize_error err 200)))
  close_if_merged task_id (value []) = pure (item no_merged_pr task_id no_merged_pr_found)
  close_if_merged task_id (value (pr ∷ prs)) =
      if opts.is_dry_run
      then pure (item dry_run task_id would_close)
      else (do reply ← ask (bd_close task_id) env.bd; after_close task_id reply)

  unfoldable pub reconcile_one : RepoRef → String → M ReconcileItemResult
  unfolding close_if_merged
  reconcile_one repo_ref task_id = do
    merged ← ask (list_merged_prs repo_ref task_id) env.merged
    close_if_merged task_id merged

  -- the loop, which stops at the first error of a strict run
  unfoldable pub reconcile_all : RepoRef → List String → M ReconcileResult
  unfolding reconcile_one
  reconcile_all repo_ref [] = pure (record { items = []; success = true })
  reconcile_all repo_ref (task_id ∷ task_ids) =
      let rest = reconcile_all repo_ref task_ids in
      do
        result ← reconcile_one repo_ref task_id
        if opts.strict && is_error result.status
            then pure (record { items = result ∷ []; success = false })
            else (do later ← rest; pure (and_item result later))

  -- every task without a client or a repository
  abbrev pub all_missing : List String → Message → ReconcileResult
  all_missing task_ids message = record {
    items = map (λ task_id. item gh_missing task_id message) task_ids;
    success = not opts.strict;
  }

  unfoldable pub after_discovery : List String → Reply RepoRef → M ReconcileResult
  unfolding reconcile_all
  after_discovery task_ids (thrown err) =
      pure (all_missing task_ids (repo_discovery_failed opts.strict (sanitize_error err 200)))
  after_discovery task_ids (value repo_ref) = reconcile_all repo_ref task_ids

  unfoldable pub after_client : List String → Reply (Unit {0}) → M ReconcileResult
  unfolding after_discovery
  after_client task_ids (thrown err) =
      pure (all_missing task_ids (client_unavailable opts.strict (sanitize_error err 200)))
  after_client task_ids (value client) = do
    discovered ← ask discover_repo env.discovered
    after_discovery task_ids discovered

  -- `client ?? createGitHubClient()`; the flag says that a client is given
  unfoldable pub reconcile : Bool → List String → M ReconcileResult
  unfolding after_client
  reconcile true task_ids = after_client task_ids (value tt)
  reconcile false task_ids = do
    created ← ask create_client env.created
    after_client task_ids created
