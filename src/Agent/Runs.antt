-- ===== src/Agent/Runs.antt =====
-- Whole runs of `agentTaskWorkflow` of daemon/src/temporal/workflows.ts.
use mathlib.Core.List.{append-nil}
use repomap_core.Prelude.{
  ℕ, ◌≡◌, ◌≢◌, ◌⊎◌, inl, inr, refl, sym, ◌∙◌, ap, subst, if-cases, String, Option, none, some, List,
  [], ◌∷◌, ◌++◌, if◌then◌else◌,
}
use repomap_core.Agent.{
  Phase, AgentTaskInput, completed, failed, aborted, AgentTaskResult, Request, check_health,
  create_session, abort_session, Signal, abort, progress, Fault, Reply, value, fault, Env, World,
}
use repomap_core.Agent.Workflow.{
  deliver, deliver_all, apply_agent_result, Run, returns, throws, M, and_then, asked, await,
  make_result, create_step, prompt_step, agent_steps, give_up, recover, caught, in_phase,
  initial_world, agent_task_workflow,
}
use repomap_core.Agent.Script.{
  session_script, script, onto, OnReturn, IsGood, Ends, await-Ends, deliver_all-trace,
}
use repomap_core.Agent.Steps.{always, return_Keeps, prompt_Keeps}

-- the session that an answer names, if it does
abbrev session_of : Reply String → String
session_of (value sid) = sid
session_of (fault e) = ""

module _ (env : Env) (input : AgentTaskInput) (start : ℕ) where
  abbrev second : Request
  second = create_session input.title

  abbrev sid : String
  sid = session_of (env.session (second ∷ check_health ∷ []))

  create_step-Ends :
      (w : World)
      → w.trace ≡ check_health ∷ []
      → Ends env (second ∷ session_script input sid) w.trace (create_step env input start w)
  create_step-Ends w t =
      await-Ends env second env.session (prompt_step env input start) (session_script input sid) _
        λ s eq v tv.
          let same : s ≡ sid =
            ap session_of (sym eq ∙ ap (λ (l : List Request). env.session (second ∷ l)) t) in
          (
            subst (λ i. Ends env (session_script input i) v.trace (prompt_step env input start s v))
                same (prompt_Keeps env input start s v),
            always env input start (prompt_step env input start s v).0 _ (λ h. h),
          )

  agent_steps-Ends : Ends env (script input sid) [] (agent_steps env input start initial_world)
  unfolding agent_steps
  agent_steps-Ends =
      await-Ends env check_health env.done _ (second ∷ session_script input sid) _ λ healthy eq v t.
        (
          if-cases (λ out. Ends env (second ∷ session_script input sid) v.trace out) v.abort_asked _
              _ (λ e. return_Keeps env input start aborted none none _ (λ c. cc) (λ c. cc) v)
              (λ e. create_step-Ends v t),
          always env input start _ _ (λ h. h),
        )

  -- no session was there, or its abort is the last request
  abbrev pub Clean : AgentTaskResult → List Request → Type 0
  Clean r trace =
      (r.session_id ≡ none)
      ⊎ ((s : String) × (rest : List Request) × (r.session_id ≡ some s)
          × (trace ≡ abort_session s ∷ rest))

  -- the cleaning up of a run: nothing, or the abort of a session
  abbrev pub CleaningUp : List Request → Type 0
  CleaningUp requests = (requests ≡ []) ⊎ ((s : String) × (requests ≡ abort_session s ∷ []))

  record Recovered (before : List Request) (out : Run AgentTaskResult × World) : Type 0 where
    extra : List Request
    ran : out.1.trace ≡ extra ++ before
    cleaning : CleaningUp extra
    incomplete : OnReturn out.0 (λ r. r.status ≢ completed)
    cleans : OnReturn out.0 (λ r. r.status ≡ failed → Clean r out.1.trace)

  deliver_all-session :
      (signals : List Signal) (w : World)
      → (deliver_all signals w).state.session_id ≡ w.state.session_id
  unfolding apply_agent_result
  deliver_all-session [] w = refl
  deliver_all-session (abort ∷ signals) w = deliver_all-session signals (deliver abort w)
  deliver_all-session (progress p ∷ signals) w =
      deliver_all-session signals (deliver (progress p) w)

  recover-Recovered :
      (e : Fault) (o : Option String) (w : World)
      → w.state.session_id ≡ o
      → Recovered w.trace (recover env input start e o w)
  unfolding recover make_result await
  recover-Recovered e none w h = record {
    extra = [];
    ran = refl;
    cleaning = inl refl;
    incomplete = λ c. cc;
    cleans = λ f. inl h;
  }
  recover-Recovered e (some s) w h = answered (env.done (abort_session s ∷ w.trace))
    where
      v : World
      v = asked env (abort_session s) w

      told : v.trace ≡ abort_session s ∷ w.trace
      told = deliver_all-trace env (env.signals (abort_session s ∷ w.trace)) _

      session : v.state.session_id ≡ some s
      session = deliver_all-session (env.signals (abort_session s ∷ w.trace)) _ ∙ h

      answered :
          (reply : Reply (Unit {0}))
          → Recovered w.trace (
              and_then reply
                (λ done.
                  if e.is_cancellation
                  then in_phase Phase.aborted (make_result env start aborted none none)
                  else give_up env input start e)
                v)
      answered (fault f) = record {
        extra = abort_session s ∷ [];
        ran = told;
        cleaning = inr (s, refl);
        incomplete = tt;
        cleans = tt;
      }
      answered (value done) =
          if-cases (λ (m : M AgentTaskResult). Recovered w.trace (m v)) e.is_cancellation _ _
            (λ c. record {
              extra = abort_session s ∷ [];
              ran = told;
              cleaning = inr (s, refl);
              incomplete = λ k. cc;
              cleans = λ k. cc;
            })
            (λ c. record {
              extra = abort_session s ∷ [];
              ran = told;
              cleaning = inr (s, refl);
              incomplete = λ k. cc;
              cleans = λ k. inr (s, w.trace, session, told);
            })

  -- a whole run
  record Whole (out : Run AgentTaskResult × World) : Type 0 where
    asked_for : List Request
    left : List Request
    extra : List Request
    split : script input sid ≡ asked_for ++ left
    ran : out.1.trace ≡ extra ++ onto asked_for []
    cleaning : CleaningUp extra
    completes : OnReturn out.0 (λ r.
        r.status ≡ completed → (out.1.trace ≡ onto (script input sid) []) × IsGood env out.1.trace)
    cleans : OnReturn out.0 (λ r. r.status ≡ failed → Clean r out.1.trace)

  incomplete-completes :
      (o : Run AgentTaskResult) (P : Type 0)
      → OnReturn o (λ r. r.status ≢ completed)
      → OnReturn o (λ r. r.status ≡ completed → P)
  incomplete-completes (returns r) P h = λ c. absurd (h c)
  incomplete-completes (throws e) P h = tt

  caught-Whole :
      (out : Run AgentTaskResult × World)
      → Ends env (script input sid) [] out
      → Whole (caught env input start out.0 out.1)
  caught-Whole (returns r, w) e = record {
    asked_for = e.asked_for;
    left = e.left;
    extra = [];
    split = e.split;
    ran = e.ran;
    cleaning = inl refl;
    completes = λ c.
        let (none_left, good) = e.completes c in
        (
          e.ran
              ∙ ap (λ (l : List Request). onto l [])
                  (sym (append-nil e.asked_for)
                    ∙ ap (λ (l : List Request). e.asked_for ++ l) (sym none_left)
                    ∙ sym e.split),
          good tt,
        );
    cleans = λ f. absurd (e.unfailed f);
  }
  caught-Whole (throws f, w) e =
      let rec = recover-Recovered f w.state.session_id w refl in
      record {
        asked_for = e.asked_for;
        left = e.left;
        extra = rec.extra;
        split = e.split;
        ran = rec.ran ∙ ap (λ (l : List Request). rec.extra ++ l) e.ran;
        cleaning = rec.cleaning;
        completes = incomplete-completes _ _ rec.incomplete;
        cleans = rec.cleans;
      }

OnReturn-returns :
    (o : Run AgentTaskResult) (P : AgentTaskResult → Type 0) (r : AgentTaskResult)
    → OnReturn o P
    → o ≡ returns r
    → P r
OnReturn-returns (returns s) P r h e = subst P (cc) h
OnReturn-returns (throws f) P r h e = cc

module _ (env : Env) (input : AgentTaskInput) where
  run-Whole : Whole env input (env.now []) (agent_task_workflow env input)
  unfolding agent_task_workflow
  run-Whole = caught-Whole env input (env.now []) _ (agent_steps-Ends env input (env.now []))

  -- Whatever the activities answer and whichever signals come: the requests of a run, in order, are a
  -- first part of the script for some session, and then at most the abort of a session. The script is
  -- the health check, the session, the prompt, the pause, the polling, and then the budget check, the
  -- punch card and the audit as far as they are configured.
  pub agent_task_workflow_ordered :
      (sid : String) × (asked_for : List Request) × (left : List Request) × (extra : List Request)
      × (script input sid ≡ asked_for ++ left)
      × ((agent_task_workflow env input).1.trace ≡ extra ++ onto asked_for [])
      × CleaningUp env input (env.now []) extra
  agent_task_workflow_ordered =
      let w = run-Whole in (_, w.asked_for, w.left, w.extra, w.split, w.ran, w.cleaning)

  module _ (r : AgentTaskResult) (ends : (agent_task_workflow env input).0 ≡ returns r) where
    -- A run that returns the status completed has asked for the whole script and for nothing else, and
    -- where the script has a budget check or a punch card, the answer was no breach and no failure.
    pub agent_task_workflow_completed :
        r.status ≡ completed
        → (sid : String) × ((agent_task_workflow env input).1.trace ≡ onto (script input sid) [])
          × IsGood env (agent_task_workflow env input).1.trace
    agent_task_workflow_completed c =
        let w = run-Whole in
        let (all, good) =
          OnReturn-returns (agent_task_workflow env input).0 _ r w.completes ends c in
        (_, all, good)

    -- A run that returns the status failed had no session, or its last request aborted the session.
    pub agent_task_workflow-Clean :
        r.status ≡ failed → Clean env input (env.now []) r (agent_task_workflow env input).1.trace
    agent_task_workflow-Clean f =
        let w = run-Whole in OnReturn-returns (agent_task_workflow env input).0 _ r w.cleans ends f
