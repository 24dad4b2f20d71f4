-- ===== src/Agent/Steps.antt =====
-- Each step of `agentTaskWorkflow` of daemon/src/temporal/workflows.ts keeps to the script.
use repomap_core.Prelude.{
  ℕ, ◌≡◌, ◌≢◌, refl, if-cases, String, Bool, true, false, not, ◌&&◌, Option, none, some, List, [],
  ◌∷◌, or_else, if◌then◌else◌,
}
use repomap_core.Agent.{
  AgentResult, AgentTaskStatus, AgentTaskInput, AuditSummary, Status, completed, failed, aborted,
  validation_failed, budget_exceeded, AgentTaskResult, Request, send_prompt, sleep_three_seconds,
  check_cost_budget, validate_punch_card, run_session_audit, Reply, Env, World,
}
use repomap_core.Agent.Workflow.{
  Run, returns, throws, M, await, update, make_result, unless_aborted, poll_request, on_polled,
  poll_agent, send, apply_agent_result, finish, audit_step, validate_card, validation_step,
  budget_step, poll_step, prompt_step,
}
use repomap_core.Agent.Script.{
  audit_script, card_script, validation_script, budget_script, session_script, OnReturn, IsGood,
  Ends, await-Ends,
}

-- two conditionals on one test
if-both :
    {A B : Type 0} (P : A → B → Type 0) (b : Bool) (x y : A) (x' y' : B)
    → (b ≡ true → P x x')
    → (b ≡ false → P y y')
    → P (if b then x else y) (if b then x' else y')
if-both P true x y x' y' px py = px refl
if-both P false x y x' y' px py = py refl

module _ (env : Env) (input : AgentTaskInput) (start : ℕ) where
  -- a step from any world
  abbrev pub Keeps : List Request → M AgentTaskResult → Type 0
  Keeps rest m = (w : World) → Ends env rest w.trace (m w)

  pub always :
      (o : Run AgentTaskResult) (P : Type 0) → P → OnReturn o (λ r. r.status ≡ completed → P)
  always (returns r) P p = λ c. p
  always (throws e) P p = tt

  -- a request whose answer `IsGood` does not look at
  next :
      (rest : List Request) (request : Request) (m : M AgentTaskResult) (w v : World)
      → (IsGood env w.trace → IsGood env (request ∷ w.trace))
      → Keeps rest m
      → Ends env rest v.trace (m v)
        × OnReturn
            (m v).0
            (λ r. r.status ≡ completed → IsGood env w.trace → IsGood env (request ∷ w.trace))
  next rest request m w v good k = (k v, always (m v).0 _ good)

  pub return_Keeps :
      (s : Status) (result : Option AgentResult) (audit : Option AuditSummary) (rest : List Request)
      → s ≢ completed
      → s ≢ failed
      → Keeps rest (make_result env start s result audit)
  unfolding make_result
  return_Keeps s result audit rest c f w = record {
    asked_for = [];
    left = rest;
    split = refl;
    ran = refl;
    completes = λ e. absurd (c e);
    unfailed = f;
  }

  finish_Keeps :
      (result : Option AgentResult) (audit : Option AuditSummary)
      → Keeps [] (finish env input start result audit)
  unfolding make_result
  finish_Keeps result audit w = record {
    asked_for = [];
    left = [];
    split = refl;
    ran = refl;
    completes = λ e. (refl, λ h. h);
    unfailed = λ e. cc;
  }

  unless_aborted_Keeps :
      (rest : List Request) (m : M AgentTaskResult)
      → Keeps rest m
      → Keeps rest (unless_aborted env input start m)
  unless_aborted_Keeps rest m k w =
      if-cases (λ out. Ends env rest w.trace out) w.abort_asked _ _
        (λ e. return_Keeps aborted none none rest (λ e. cc) (λ e. cc) w) (λ e. k w)

  audit_Keeps :
      (sid : String) (result : AgentResult)
      → Keeps (audit_script input sid) (audit_step env input start sid result)
  unfolding audit_step
  audit_Keeps sid result w =
      let P = λ (s : List Request) (m : M AgentTaskResult). Ends env s w.trace (m w) in
      if-both P (not input.has_dolt_config) _ _ _ _ (λ e. finish_Keeps (some result) none w)
        λ e.
          if-both P input.disable_audit _ _ _ _ (λ e. finish_Keeps (some result) none w)
            λ e. await-Ends env (run_session_audit sid) env.audit _ [] w λ summary eq v t.
              next [] (run_session_audit sid) _ w v (λ h. h)
                (finish_Keeps (some result) (some summary))

  validation_Keeps :
      (sid : String) (result : AgentResult)
      → Keeps (validation_script input sid) (validation_step env input start sid result)
  unfolding validation_step make_result
  validation_Keeps sid result w =
      if-both (λ (s : List Request) (m : M AgentTaskResult). Ends env s w.trace (m w))
        input.has_dolt_config _ _ _ _ (λ e. by_card input.card_id) (λ e. audit_Keeps sid result w)
    where
      by_card :
          (card : Option String)
          → Ends env
              (card_script input sid card)
              w.trace
              (validate_card env input start sid result card w)
      by_card none = audit_Keeps sid result w
      by_card (some card_id) =
          await-Ends env (validate_punch_card (or_else input.punch_card_task_id sid) card_id)
            env.validation _ (audit_script input sid) _
            λ v eq w1 t.
              if-cases
                (λ (m : M AgentTaskResult).
                  Ends env (audit_script input sid) w1.trace (m w1)
                  × OnReturn (m w1).0 (λ r.
                    r.status ≡ completed
                    → IsGood env w.trace
                    → IsGood env (
                        validate_punch_card (or_else input.punch_card_task_id sid) card_id
                        ∷ w.trace)))
                v.is_fail _ _
                (λ e. (
                  return_Keeps validation_failed (some result) none _ (λ c. cc) (λ c. cc) _,
                  λ c. cc,
                ))
                (λ e.
                  next (audit_script input sid)
                    (validate_punch_card (or_else input.punch_card_task_id sid) card_id)
                    (audit_step env input start sid result) w w1 (λ h. ((v, eq, e), h))
                    (audit_Keeps sid result))

  budget_Keeps :
      (sid : String) (result : AgentResult)
      → Keeps (budget_script input sid) (budget_step env input start sid result)
  unfolding budget_step make_result
  budget_Keeps sid result w =
      if-both (λ (s : List Request) (m : M AgentTaskResult). Ends env s w.trace (m w))
        (input.has_dolt_config && not input.disable_cost_budget) _ _ _ _
        (λ e.
          await-Ends env (check_cost_budget sid) env.budget _ (validation_script input sid) _
            λ b eq w1 t.
              if-cases
                (λ (m : M AgentTaskResult).
                  Ends env (validation_script input sid) w1.trace (m w1)
                  × OnReturn (m w1).0 (λ r.
                    r.status ≡ completed
                    → IsGood env w.trace
                    → IsGood env (check_cost_budget sid ∷ w.trace)))
                b.is_breach _ _
                (λ e. (return_Keeps budget_exceeded none none _ (λ c. cc) (λ c. cc) _, λ c. cc))
                (λ e.
                  next (validation_script input sid) (check_cost_budget sid)
                    (validation_step env input start sid result) w w1 (λ h. ((b, eq, e), h))
                    (validation_Keeps sid result)))
        (λ e. validation_Keeps sid result w)

  update_Keeps :
      (rest : List Request) (f : AgentTaskStatus → AgentTaskStatus) (m : M AgentTaskResult)
      → Keeps rest m
      → Keeps rest (update f m)
  update_Keeps rest f m k w = k (record w { state = f w.state })

  -- the rule for an `await` whose answer `IsGood` does not look at
  await_Keeps :
      {A : Type 0} (request : Request) (reply : List Request → Reply A) (f : A → M AgentTaskResult)
      (rest : List Request)
      → ((t : List Request) → IsGood env t → IsGood env (request ∷ t))
      → ((a : A) → Keeps rest (f a))
      → Keeps (request ∷ rest) (await env request reply f)
  await_Keeps request reply f rest good k w =
      await-Ends env request reply f rest w
        (λ a eq v t. next rest request (f a) w v (good w.trace) (k a))

  poll_agent_Keeps :
      (sid : String)
      → Keeps
          (poll_request env input start sid ∷ budget_script input sid)
          (poll_agent env input start sid)
  poll_agent_Keeps sid = update_Keeps _ _ _ (
      await_Keeps (poll_request env input start sid) env.polled (on_polled env input start sid)
        (budget_script input sid) (λ t h. h)
        λ result.
          update_Keeps (budget_script input sid) (λ s. apply_agent_result s result)
            (budget_step env input start sid result) (budget_Keeps sid result))

  poll_Keeps :
      (sid : String)
      → Keeps
          (sleep_three_seconds ∷ poll_request env input start sid ∷ budget_script input sid)
          (poll_step env input start sid)
  unfolding poll_step
  poll_Keeps sid =
      await_Keeps sleep_three_seconds env.done (λ slept. poll_agent env input start sid)
        (poll_request env input start sid ∷ budget_script input sid) (λ t h. h)
        (λ slept. poll_agent_Keeps sid)

  pub prompt_Keeps :
      (sid : String) → Keeps (session_script input sid) (prompt_step env input start sid)
  unfolding prompt_step
  prompt_Keeps sid = update_Keeps (session_script input sid) _ _ (
      unless_aborted_Keeps (session_script input sid) (send env input start sid) (
        update_Keeps (session_script input sid) _ _ (
          await_Keeps (send_prompt sid input.prompt input.agent) env.done
            (λ sent. unless_aborted env input start (poll_step env input start sid))
            (sleep_three_seconds ∷ poll_request env input start sid ∷ budget_script input sid)
            (λ t h. h)
            λ sent.
              unless_aborted_Keeps
                (sleep_three_seconds ∷ poll_request env input start sid ∷ budget_script input sid)
                (poll_step env input start sid) (poll_Keeps sid))))
