-- ===== src/Foreman/Workflow/Orders.antt =====
-- What the loop of daemon/src/temporal/foreman.workflows.ts asks of the world, and in which order.
use repomap_core.Prelude.{
  ℕ, String, true, Option, none, some, List, [], ◌∷◌, ◌≡◌, refl, sym, subst, ◌∙◌, ap,
}
use repomap_core.Foreman.Types.{
  ForemanInput, AgentTaskInput, BeadCandidate, DispatchResult, completed, failed, timeout,
  validation_failed, budget_exceeded, aborted, DispatchOutcome,
}
use repomap_core.Foreman.State.{ForemanState, increment_iteration_counters, build_dispatch_plan}
use repomap_core.Foreman.State.Signals.{Signal}
use repomap_core.Foreman.Workflow.{
  Request, check_stack_health, select_next_bead, get_bead_detail, update_bead_status, in_progress,
  close_bead, start_child, child_result, sleep, wait_while_paused, continue_as_new, Reply, Env,
  World, M, ◌>>=◌, ◌>>◌, pure, assign, world, perform, deliver, deliver_all,
}
use repomap_core.Foreman.Workflow.Phases.{
  handle_dispatch_outcome, handle_result, handle_success, handle_failure, escalate, run_child,
  dispatch_candidate_phase, make_outcome,
}
use repomap_core.Foreman.Workflow.Loop.{hand_over, foreman_workflow, start_world}
use repomap_core.Foreman.Workflow.Keeps.{
  Keeps, Keeps-sequence, Keeps-bind, Keeps-pure, Keeps-world, Keeps-if, Keeps-answer, Rules,
  Anything, All-Anything, plain,
}
use repomap_core.Foreman.Workflow.Whole.{foreman_workflow-keeps}

abbrev pub latest : List Request → Option Request
latest [] = none
latest (r ∷ t) = some r

-- what a request may be made after
abbrev pub IsAllowed : Request → List Request → Type 0
IsAllowed (close_bead bead_id o) t = (o.result ≡ completed) × (o.bead_id ≡ bead_id)
IsAllowed (start_child plan child_input workflow_id task_queue) t =
    latest t ≡ some (update_bead_status plan.bead_id in_progress)
IsAllowed _ t = Unit

-- each request was allowed by those before it
abbrev pub IsOrderly : List Request → Type 0
IsOrderly [] = Unit
IsOrderly (r ∷ t) = IsAllowed r t × IsOrderly t

abbrev StaysOrderly : World → World → Type 0
StaysOrderly v w = IsOrderly v.trace → IsOrderly w.trace

plain-IsAllowed : (r : Request) (t : List Request) → plain r ≡ true → IsAllowed r t
plain-IsAllowed check_stack_health t h = tt
plain-IsAllowed (select_next_bead l s) t h = tt
plain-IsAllowed (get_bead_detail b) t h = tt
plain-IsAllowed (update_bead_status b s) t h = tt
plain-IsAllowed (close_bead b o) t h = cc
plain-IsAllowed (start_child p i w q) t h = cc
plain-IsAllowed child_result t h = tt
plain-IsAllowed (sleep n) t h = tt
plain-IsAllowed wait_while_paused t h = tt
plain-IsAllowed (continue_as_new i) t h = tt

orderly_rules : (env : Env) → Rules env Anything StaysOrderly
orderly_rules env = record {
  stay = λ w h. h;
  trans = λ u v w f g h. g (f h);
  on_signal = λ s w _ h. h;
  on_request = λ r w p h. (plain-IsAllowed r w.trace p, h);
  on_update = λ w s e h. h;
  allowed = λ t. All-Anything (env.signals t);
}

deliver_all-trace : (signals : List Signal) (w : World) → (deliver_all signals w).trace ≡ w.trace
deliver_all-trace [] w = refl
deliver_all-trace (s ∷ signals) w = deliver_all-trace signals (deliver s w)

module _ (env : Env) where
  orderly_bind {ℓ ι} :
      {A : Type ℓ} {B : Type ι} (m : M A) (f : A → M B)
      → Keeps StaysOrderly m
      → ((a : A) → Keeps StaysOrderly (f a))
      → Keeps StaysOrderly (m >>= f)
  orderly_bind = Keeps-bind env Anything StaysOrderly (orderly_rules env)

  orderly_assign : (f : ForemanState → ForemanState) → Keeps StaysOrderly (assign f)
  unfolding assign
  orderly_assign f = record { at = λ w h. h }

  orderly_perform {ℓ} :
      {A : Type ℓ} (r : Request) (reply : List Request → Reply A)
      → ((t : List Request) → IsAllowed r t)
      → Keeps StaysOrderly (perform env r reply)
  unfolding perform
  orderly_perform r reply h = record {
    at = λ w i.
        Keeps-answer env Anything StaysOrderly (orderly_rules env) (r ∷ w.trace)
          (record w { trace = r ∷ w.trace }) (h w.trace, i);
  }

  orderly_world : Keeps StaysOrderly world
  orderly_world = Keeps-world env Anything StaysOrderly (orderly_rules env)

  orderly_pure {ℓ} : {A : Type ℓ} (a : A) → Keeps StaysOrderly (pure a)
  orderly_pure = Keeps-pure env Anything StaysOrderly (orderly_rules env)

  escalate-orderly : (bead_id : String) → Keeps StaysOrderly (escalate env bead_id)
  unfolding escalate
  escalate-orderly bead_id =
      orderly_bind _ _ (orderly_bind _ _ (orderly_assign _) (λ _. orderly_perform _ _ (λ t. tt)))
        λ _. orderly_assign _

  handle_failure-orderly :
      (config : ForemanInput) (b : String) (r : DispatchResult) (at : ℕ)
      → Keeps StaysOrderly (handle_failure env config b r at)
  unfolding handle_failure
  handle_failure-orderly config b r at = orderly_bind _ _ (orderly_assign _) λ _.
      orderly_bind _ _ orderly_world λ w. orderly_bind _ _ (orderly_assign _) λ _.
        Keeps-if _ _ _ (orderly_bind _ _ (orderly_assign _) λ _. orderly_perform _ _ (λ t. tt))
          (escalate-orderly b)

  handle_success-orderly :
      (b : String) (o : DispatchOutcome)
      → o.result ≡ completed
      → o.bead_id ≡ b
      → Keeps StaysOrderly (handle_success env b o)
  unfolding handle_success
  handle_success-orderly b o done own =
      orderly_bind _ _
        (orderly_bind _ _ (orderly_assign _) (λ _. orderly_perform _ _ (λ t. (done, own))))
        λ _. orderly_assign _

  handle_result-orderly :
      (config : ForemanInput) (b : String) (r : DispatchResult) (o : DispatchOutcome) (at : ℕ)
      → o.result ≡ r
      → o.bead_id ≡ b
      → Keeps StaysOrderly (handle_result env config b r o at)
  unfolding handle_result
  handle_result-orderly config b completed o at e own = handle_success-orderly b o e own
  handle_result-orderly config b (failed x y) o at e own =
      handle_failure-orderly config b (failed x y) at
  handle_result-orderly config b (timeout x y) o at e own =
      handle_failure-orderly config b (timeout x y) at
  handle_result-orderly config b (validation_failed x y) o at e own =
      handle_failure-orderly config b (validation_failed x y) at
  handle_result-orderly config b (budget_exceeded c u) o at e own = escalate-orderly b
  handle_result-orderly config b (aborted x) o at e own = orderly_perform _ _ (λ t. tt)

  handle_dispatch_outcome-orderly :
      (config : ForemanInput) (c : BeadCandidate) (r : DispatchResult) (o : DispatchOutcome)
      (at : ℕ)
      → o.result ≡ r
      → o.bead_id ≡ c.bead_id
      → Keeps StaysOrderly (handle_dispatch_outcome env config c r o at)
  unfolding handle_dispatch_outcome
  handle_dispatch_outcome-orderly config c r o at e own =
      orderly_bind _ _ (orderly_assign _) λ _. handle_result-orderly config c.bead_id r o at e own

  -- from a world in which `bead_id` has just been claimed
  abbrev AfterClaim : String → World → World → Type 0
  AfterClaim bead_id v w =
      latest v.trace ≡ some (update_bead_status bead_id in_progress) → StaysOrderly v w

  -- the requests are unchanged
  abbrev Silent : World → World → Type 0
  Silent v w = w.trace ≡ v.trace

  Silent-first {ℓ ι} :
      (b : String) {A : Type ℓ} {B : Type ι} (m : M A) (f : A → M B)
      → Keeps Silent m
      → ((a : A) → Keeps (AfterClaim b) (f a))
      → Keeps (AfterClaim b) (m >>= f)
  Silent-first b =
      Keeps-sequence Silent (AfterClaim b) (AfterClaim b)
        (λ u v w e h c i. h (ap latest e ∙ c) (subst IsOrderly (sym e) i))
        (λ u v e c i. subst IsOrderly (sym e) i)

  claim_first {ℓ ι} :
      (b : String) {A : Type ℓ} {B : Type ι} (m : M A) (f : A → M B)
      → Keeps (AfterClaim b) m
      → ((a : A) → Keeps StaysOrderly (f a))
      → Keeps (AfterClaim b) (m >>= f)
  claim_first b =
      Keeps-sequence (AfterClaim b) StaysOrderly (AfterClaim b) (λ u v w h g c i. g (h c i))
        (λ u v h. h)

  Silent-world : Keeps Silent world
  unfolding world
  Silent-world = record { at = λ w. refl }

  Silent-assign : (f : ForemanState → ForemanState) → Keeps Silent (assign f)
  unfolding assign
  Silent-assign f = record { at = λ w. refl }

  start_child-orderly :
      (config : ForemanInput) (c : BeadCandidate) (i : AgentTaskInput) (id : String)
      → Keeps
          (AfterClaim c.bead_id)
          (perform env (start_child (build_dispatch_plan c config) i id config.task_queue) env.done)
  unfolding perform build_dispatch_plan
  start_child-orderly config c child_input id = record {
    at = λ w claimed i. Keeps-answer env Anything StaysOrderly (orderly_rules env) _ _ (claimed, i);
  }

  run_child-orderly :
      (config : ForemanInput) (c : BeadCandidate)
      → Keeps (AfterClaim c.bead_id) (run_child env config c)
  unfolding run_child make_outcome
  run_child-orderly config c = Silent-first c.bead_id _ _ Silent-world λ w.
      claim_first c.bead_id _ _
        (Silent-first c.bead_id _ _ (Silent-assign _) (λ _. start_child-orderly config c _ _))
        λ _. orderly_bind _ _ (orderly_perform _ _ (λ t. tt)) λ r.
          orderly_bind _ _ orderly_world
            λ w. handle_dispatch_outcome-orderly config c _ _ _ refl refl

  -- a run that ends with the claim of `bead_id` as its last request
  abbrev Claims : String → World → World → Type 0
  Claims bead_id v w =
      StaysOrderly v w × (latest w.trace ≡ some (update_bead_status bead_id in_progress))

  claim-Claims :
      (b : String) (f : ForemanState → ForemanState)
      → Keeps (Claims b) (assign f >> perform env (update_bead_status b in_progress) env.done)
  unfolding ◌>>=◌ assign perform
  claim-Claims b f = record {
    at = λ w. (
      λ i. Keeps-answer env Anything StaysOrderly (orderly_rules env) _ _ (tt, i),
      ap latest (deliver_all-trace (env.signals (update_bead_status b in_progress ∷ w.trace)) _),
    );
  }

  dispatch-orderly :
      (config : ForemanInput) (c : BeadCandidate)
      → Keeps StaysOrderly (dispatch_candidate_phase env config c)
  unfolding dispatch_candidate_phase
  dispatch-orderly config c =
      Keeps-sequence (Claims c.bead_id) (AfterClaim c.bead_id) StaysOrderly
        (λ u v w h g i. g h.1 (h.0 i)) (λ u v h i. h.0 i) _ _ (claim-Claims c.bead_id _)
        (λ _. run_child-orderly config c)

  hand_over-orderly : Keeps StaysOrderly (hand_over env)
  unfolding hand_over
  hand_over-orderly = orderly_bind _ _ orderly_world λ w. orderly_perform _ _ (λ t. tt)

  tick-orderly : Keeps StaysOrderly (assign increment_iteration_counters)
  tick-orderly = orderly_assign increment_iteration_counters

-- Whatever the environment answers, in every run that starts with no request made, each bead that
-- is closed is closed for a completed outcome of its own, and each child workflow is started right
-- after its bead has been set to in progress.
pub foreman_workflow-IsOrderly :
    (env : Env) (input : ForemanInput) (fuel : ℕ)
    → IsOrderly (foreman_workflow env input fuel).1.trace
unfolding start_world
foreman_workflow-IsOrderly env input fuel =
    foreman_workflow-keeps env Anything StaysOrderly (orderly_rules env) (tick-orderly env)
      (dispatch-orderly env) (hand_over-orderly env) input fuel
      (Keeps-answer env Anything StaysOrderly (orderly_rules env) [] _ tt)
