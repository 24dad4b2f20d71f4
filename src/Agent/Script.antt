-- ===== src/Agent/Script.antt =====
-- The requests of `agentTaskWorkflow` of daemon/src/temporal/workflows.ts, in their order.
use repomap_core.Prelude.{
  ◌≡◌, ◌≢◌, refl, ap, subst, String, false, not, ◌&&◌, Option, none, some, List, [], ◌∷◌, ◌++◌,
  or_else, if◌then◌else◌,
}
use repomap_core.Agent.{
  AgentTaskInput, completed, failed, AgentTaskResult, BudgetResult, Validation, Request,
  check_health, create_session, send_prompt, sleep_three_seconds, poll_until_done,
  check_cost_budget, validate_punch_card, run_session_audit, abort_session, Signal, abort, progress,
  Reply, value, fault, Env, World,
}
use repomap_core.Agent.Workflow.{
  deliver, deliver_all, Run, returns, throws, M, and_then, asked, await,
}

module _ (input : AgentTaskInput) where
  abbrev pub audit_script : String → List Request
  audit_script sid =
      if not input.has_dolt_config
      then []
      else if input.disable_audit
      then []
      else run_session_audit sid ∷ []

  abbrev pub card_script : String → Option String → List Request
  card_script sid none = audit_script sid
  card_script sid (some card_id) =
      validate_punch_card (or_else input.punch_card_task_id sid) card_id ∷ audit_script sid

  abbrev pub validation_script : String → List Request
  validation_script sid =
      if input.has_dolt_config then card_script sid input.card_id else audit_script sid

  abbrev pub budget_script : String → List Request
  budget_script sid =
      if input.has_dolt_config && not input.disable_cost_budget
      then check_cost_budget sid ∷ validation_script sid
      else validation_script sid

  abbrev pub session_script : String → List Request
  session_script sid =
      send_prompt sid input.prompt input.agent
      ∷ sleep_three_seconds
      ∷ poll_until_done sid (or_else input.poll_interval_ms 10000)
          (or_else input.timeout_ms 7200000)
      ∷ budget_script sid

  -- all that a run to completion asks for: the budget, the punch card and the audit as configured
  abbrev pub script : String → List Request
  script sid = check_health ∷ create_session input.title ∷ session_script sid

-- the trace after more requests
abbrev pub onto : List Request → List Request → List Request
onto [] trace = trace
onto (r ∷ rs) trace = onto rs (r ∷ trace)

abbrev pub OnReturn : Run AgentTaskResult → (AgentTaskResult → Type 0) → Type 0
OnReturn (returns r) P = P r
OnReturn (throws e) P = Unit

module _ (env : Env) where
  -- no budget check found a breach, and no punch card failed
  abbrev pub IsGood : List Request → Type 0
  IsGood [] = Unit
  IsGood (check_cost_budget sid ∷ trace) =
      ((b : BudgetResult) × (env.budget (check_cost_budget sid ∷ trace) ≡ value b)
        × (b.is_breach ≡ false))
      × IsGood trace
  IsGood (validate_punch_card task card ∷ trace) =
      ((v : Validation) × (env.validation (validate_punch_card task card ∷ trace) ≡ value v)
        × (v.is_fail ≡ false))
      × IsGood trace
  IsGood (check_health ∷ trace) = IsGood trace
  IsGood (create_session title ∷ trace) = IsGood trace
  IsGood (send_prompt sid prompt agent ∷ trace) = IsGood trace
  IsGood (sleep_three_seconds ∷ trace) = IsGood trace
  IsGood (poll_until_done sid interval timeout ∷ trace) = IsGood trace
  IsGood (run_session_audit sid ∷ trace) = IsGood trace
  IsGood (abort_session sid ∷ trace) = IsGood trace

  abbrev pub Completes : List Request → List Request → List Request → AgentTaskResult → Type 0
  Completes left before after r =
      r.status ≡ completed → (left ≡ []) × (IsGood before → IsGood after)

  -- The run asks for a first part of the script, and for all of it where it completes.
  pub record Ends (rest before : List Request) (out : Run AgentTaskResult × World) : Type 0 where
    pub asked_for : List Request
    pub left : List Request
    pub split : rest ≡ asked_for ++ left
    pub ran : out.1.trace ≡ onto asked_for before
    pub completes : OnReturn out.0 (Completes left before out.1.trace)
    pub unfailed : OnReturn out.0 (λ r. r.status ≢ failed)

  pub deliver_all-trace :
      (signals : List Signal) (w : World) → (deliver_all signals w).trace ≡ w.trace
  deliver_all-trace [] w = refl
  deliver_all-trace (abort ∷ signals) w = deliver_all-trace signals (deliver abort w)
  deliver_all-trace (progress p ∷ signals) w = deliver_all-trace signals (deliver (progress p) w)

  asked-trace : (request : Request) (w : World) → (asked env request w).trace ≡ request ∷ w.trace
  asked-trace request w = deliver_all-trace (env.signals (request ∷ w.trace)) _

  module _ (request : Request) (rest before : List Request) where
    Ends-cons :
        (out : Run AgentTaskResult × World)
        → OnReturn out.0 (λ r. r.status ≡ completed → IsGood before → IsGood (request ∷ before))
        → Ends rest (request ∷ before) out
        → Ends (request ∷ rest) before out
    Ends-cons (returns r, w) good e = record {
      asked_for = request ∷ e.asked_for;
      left = e.left;
      split = ap (λ (l : List Request). request ∷ l) e.split;
      ran = e.ran;
      completes = λ c. ((e.completes c).0, λ h. (e.completes c).1 (good c h));
      unfailed = e.unfailed;
    }
    Ends-cons (throws f, w) good e = record {
      asked_for = request ∷ e.asked_for;
      left = e.left;
      split = ap (λ (l : List Request). request ∷ l) e.split;
      ran = e.ran;
      completes = tt;
      unfailed = tt;
    }

  pub await-Ends :
      {A : Type 0} (request : Request) (reply : List Request → Reply A) (f : A → M AgentTaskResult)
      (rest : List Request) (w : World)
      → ((a : A)
          → reply (request ∷ w.trace) ≡ value a
          → (v : World) → v.trace ≡ request ∷ w.trace
          → Ends rest v.trace (f a v)
            × OnReturn
                (f a v).0
                (λ r. r.status ≡ completed → IsGood w.trace → IsGood (request ∷ w.trace)))
      → Ends (request ∷ rest) w.trace (await env request reply f w)
  unfolding await
  await-Ends request reply f rest w h = answered (reply (request ∷ w.trace)) refl
    where
      answered :
          (o : Reply _)
          → reply (request ∷ w.trace) ≡ o
          → Ends (request ∷ rest) w.trace (and_then o f (asked env request w))
      answered (fault e) eq = record {
        asked_for = request ∷ [];
        left = rest;
        split = refl;
        ran = asked-trace request w;
        completes = tt;
        unfailed = tt;
      }
      answered (value a) eq =
          let v = asked env request w in
          let k = h a eq v (asked-trace request w) in
          Ends-cons request rest w.trace (f a v) k.1
            (subst (λ t. Ends rest t (f a v)) (asked-trace request w) k.0)
