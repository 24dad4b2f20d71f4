-- ===== src/Infra/Factory/Zero.antt =====
-- When `runDispatch` of daemon/src/infra/factory-dispatch.ts comes to the exit code 0 for one prompt.
use repomap_core.Prelude.{
  ℕ, ◌+◌, ◌≡◌, ◌⊎◌, ◌↔◌, inl, inr, refl, sym, ap, ◌∙◌, subst, arith, String, Bool, true, false,
  List, Option, none, some, if◌then◌else◌, str_eq, if-either,
}
use repomap_core.Prelude.Json.{Json}
use repomap_core.Infra.CardPrompt.{given}
use repomap_core.Infra.Kilo.{
  SessionMessage, Messages, listed, malformed, fetch_messages, extract_result,
}
use repomap_core.Infra.Kilo.Rounds.{
  MonitorResult, Outcome, ended, threw, out_of_fuel, monitor_session,
}
use repomap_core.Infra.Factory.{FactoryDispatchConfig, ExitCode}
use repomap_core.Infra.Factory.Single.{
  Host, PromptPayload, Ending, stopped, unmonitored, finished, crashed, still_monitoring,
  build_prompt_payload, on_response, on_messages, on_monitored, with_session, with_payload,
  dispatch_one, title_of, sent_payload, monitor_config, reply_of, run_single_dispatch,
}
use repomap_core.Infra.Factory.Whole.{
  Probes, PreflightComponent, Dispatch, single, ran, blocked, code_of_dispatch, kilo_ok, preflight,
  run_dispatch, dispatch_run, default_dispatch_dependencies, code_of_run, code_of_reply,
}

-- an ending with the exit code 0
abbrev IsGood : Ending → Type 0
IsGood (stopped code) = code ≡ ExitCode.success
IsGood (unmonitored session_id) = Unit
IsGood (finished d) = Unit
IsGood crashed = ⊥
IsGood still_monitoring = ⊥

code_iff : (e : Ending) → (code_of_reply (reply_of false e) ≡ some ExitCode.success) ↔ IsGood e
code_iff (stopped code) = (λ h. cc, λ h. cc)
code_iff (unmonitored session_id) = (λ h. tt, λ h. refl)
code_iff (finished d) = (λ h. tt, λ h. refl)
code_iff crashed = (λ h. cc, λ h. absurd h)
code_iff still_monitoring = (λ h. cc, λ h. absurd h)

IsGood-if :
    (b : Bool) (x y : Ending)
    → IsGood (if b then x else y)
    → ((b ≡ true) × IsGood x) ⊎ ((b ≡ false) × IsGood y)
IsGood-if true x y h = inl (refl, h)
IsGood-if false x y h = inr (refl, h)

module _ (host : Host) (config : FactoryDispatchConfig) where
  -- the session was monitored until it completed, and then had a response
  pub record IsAnswered (session_id : String) : Type 0 where
    pub monitor : MonitorResult
    pub asked : ℕ
    pub messages : List SessionMessage
    pub result : String
    pub monitored :
        monitor_session host.server (monitor_config config) session_id 0 ≡ ended monitor asked
    pub completed : monitor.completed ≡ true
    pub fetched : fetch_messages (host.server.messages asked session_id) ≡ listed messages
    pub responded : given (extract_result messages) ≡ some result

  -- a payload, a session, and a prompt that was accepted and, unless it is not monitored, answered
  pub record IsDispatched : Type 0 where
    pub payload : PromptPayload
    pub session_id : String
    pub built : build_prompt_payload host config.prompt_arg config.mode ≡ some payload
    pub created : given (host.create_session (title_of host config)) ≡ some session_id
    pub accepted :
        host.accepts_prompt session_id (sent_payload host config session_id payload) ≡ true
    pub observed : (config.no_monitor ≡ true) ⊎ IsAnswered session_id

  module _ (session_id title : String) where
    good_response :
        (monitor : MonitorResult) (asked : ℕ) (o : Option String)
        → IsGood (on_response host config session_id title monitor asked o)
        → (result : String) × (o ≡ some result)
    unfolding on_response
    good_response monitor asked none h = cc
    good_response monitor asked (some result) h = (result, refl)

    good_messages :
        (monitor : MonitorResult) (asked : ℕ) (m : Messages)
        → IsGood (on_messages host config session_id title monitor asked m)
        → (messages : List SessionMessage) × (result : String) × (m ≡ listed messages)
          × (given (extract_result messages) ≡ some result)
    unfolding on_messages
    good_messages monitor asked (listed messages) h =
        let (result, e) = good_response monitor asked _ h in (messages, result, refl, e)
    good_messages monitor asked malformed h = absurd h

    good_monitored :
        (o : Outcome)
        → monitor_session host.server (monitor_config config) session_id 0 ≡ o
        → IsGood (on_monitored host config session_id title o)
        → IsAnswered session_id
    unfolding on_monitored
    good_monitored (ended monitor asked) e h = elim (IsGood-if monitor.completed _ _ h) [
      | inl (done, g) ↦
          let (messages, result, fetched, responded) = good_messages monitor (asked + 1) _ g in
          record {
            monitor = monitor;
            asked = asked;
            messages = messages;
            result = result;
            monitored = e;
            completed = done;
            fetched = fetched;
            responded = responded;
          }
      | inr (late, g) ↦ cc
    ]
    good_monitored threw e h = absurd h
    good_monitored out_of_fuel e h = absurd h

  -- what follows once the prompt was accepted
  abbrev after_prompt : String → Ending
  after_prompt session_id =
      if config.no_monitor
      then unmonitored session_id
      else on_monitored host config session_id (title_of host config)
          (monitor_session host.server (monitor_config config) session_id 0)

  observed_of :
      (session_id : String)
      → IsGood (after_prompt session_id)
      → (config.no_monitor ≡ true) ⊎ IsAnswered session_id
  observed_of session_id h = elim (IsGood-if config.no_monitor _ _ h) [
    | inl (e, g) ↦ inl e
    | inr (e, g) ↦ inr (good_monitored session_id (title_of host config) _ refl g)
  ]

  good_session :
      (payload : PromptPayload) (o : Option String)
      → build_prompt_payload host config.prompt_arg config.mode ≡ some payload
      → given (host.create_session (title_of host config)) ≡ o
      → IsGood (with_session host config payload o)
      → IsDispatched
  unfolding with_session
  good_session payload none b e h = cc
  good_session payload (some session_id) b e h =
      elim (IsGood-if (host.accepts_prompt session_id (sent_payload host config session_id payload))
        (after_prompt session_id) (stopped ExitCode.prompt_dispatch_failed) h) [
          | inl (accepted, g) ↦ record {
            payload = payload;
            session_id = session_id;
            built = b;
            created = e;
            accepted = accepted;
            observed = observed_of session_id g;
          }
          | inr (refused, g) ↦ cc
        ]

  good_payload :
      (o : Option PromptPayload)
      → build_prompt_payload host config.prompt_arg config.mode ≡ o
      → IsGood (with_payload host config o)
      → IsDispatched
  unfolding with_payload
  good_payload none b h = cc
  good_payload (some payload) b h = good_session payload _ b refl h

  dispatched_of_good : IsGood (dispatch_one host config) → IsDispatched
  unfolding dispatch_one
  dispatched_of_good h = good_payload _ refl h

  -- the other direction
  IsGood-answered :
      (session_id title : String)
      → IsAnswered session_id
      → IsGood (
          on_monitored host config session_id title
            (monitor_session host.server (monitor_config config) session_id 0))
  unfolding on_monitored on_messages on_response
  IsGood-answered session_id title a =
      subst (λ o. IsGood (on_monitored host config session_id title o)) (sym a.monitored)
        (subst
          (λ b. IsGood (
            if b
            then on_messages host config session_id title a.monitor (a.asked + 1)
                (fetch_messages (host.server.messages a.asked session_id))
            else stopped ExitCode.timeout))
          (sym a.completed)
          (subst (λ m. IsGood (on_messages host config session_id title a.monitor (a.asked + 1) m))
            (sym a.fetched)
            (subst
              (λ o. IsGood (on_response host config session_id title a.monitor (a.asked + 1) o))
              (sym a.responded) tt)))

  IsGood-observed :
      (session_id : String)
      → (config.no_monitor ≡ true) ⊎ IsAnswered session_id
      → IsGood (after_prompt session_id)
  IsGood-observed session_id (inl e) =
      subst
        (λ b. IsGood (
          if b
          then unmonitored session_id
          else on_monitored host config session_id (title_of host config)
              (monitor_session host.server (monitor_config config) session_id 0)))
        (sym e) tt
  IsGood-observed session_id (inr a) =
      if-either IsGood config.no_monitor _ _ tt
        (IsGood-answered session_id (title_of host config) a)

  IsGood-of_dispatched : IsDispatched → IsGood (dispatch_one host config)
  unfolding dispatch_one with_payload with_session
  IsGood-of_dispatched d =
      subst (λ o. IsGood (with_payload host config o)) (sym d.built)
        (subst (λ o. IsGood (with_session host config d.payload o)) (sym d.created)
          (subst
            (λ b.
              IsGood
                (if b then after_prompt d.session_id else stopped ExitCode.prompt_dispatch_failed))
            (sym d.accepted) (IsGood-observed d.session_id d.observed)))

-- all five components are up
pub record IsUp (probes : Probes) : Type 0 where
  pub kilo : kilo_ok probes.kilo ≡ true
  pub dolt : probes.dolt_port ≡ true
  pub daemon : probes.daemon_online ≡ true
  pub temporal : probes.temporal_port ≡ true
  pub worker : probes.worker_online ≡ true

preflight_iff : (probes : Probes) → ((preflight probes).ok ≡ true) ↔ IsUp probes
unfolding preflight
preflight_iff probes = (λ h. ground arith, λ u. ground arith)

-- a run that is not blocked has the code of its dispatch
code_of_if :
    (b : Bool) (d : Dispatch) (missing : List PreflightComponent)
    → (code_of_run (if b then ran d else blocked missing) ≡ some ExitCode.success)
      ↔ ((b ≡ true) × (code_of_dispatch d ≡ some ExitCode.success))
code_of_if true d missing = (λ h. (refl, h), λ h. h.1)
code_of_if false d missing = (λ h. cc, λ h. cc)

module _ {Num : Type 0} (exec_bd : ℕ → List String → Option (Json Num)) (hosts : ℕ → Host)
    (probes : Probes) (config : FactoryDispatchConfig) (one : str_eq config.formula "" ≡ true) where
  dispatch_run-single :
      dispatch_run (default_dispatch_dependencies exec_bd hosts) config
      ≡ single (run_single_dispatch (hosts 0) config false)
  unfolding dispatch_run
  dispatch_run-single = rw one

  good_run :
      (code_of_dispatch (dispatch_run (default_dispatch_dependencies exec_bd hosts) config)
        ≡ some ExitCode.success)
      ↔ IsDispatched (hosts 0) config
  unfolding run_single_dispatch
  good_run =
      let iff = code_iff (dispatch_one (hosts 0) config) in
      (
        λ h.
            dispatched_of_good (hosts 0) config
              (iff.0 (ap code_of_dispatch (sym dispatch_run-single) ∙ h)),
        λ d.
            ap code_of_dispatch dispatch_run-single
            ∙ iff.1 (IsGood-of_dispatched (hosts 0) config d),
      )

  -- A run for one prompt, without a formula, has the exit code 0 exactly where all five components are up,
  -- the payload could be built, the session created and the prompt sent, and, unless the run does not
  -- monitor, the monitoring completed and the session's messages have a response.
  pub run_dispatch-Zero :
      (code_of_run (run_dispatch (default_dispatch_dependencies exec_bd hosts) probes config)
        ≡ some ExitCode.success)
      ↔ (IsUp probes × IsDispatched (hosts 0) config)
  unfolding run_dispatch
  run_dispatch-Zero =
      let iff = code_of_if (preflight probes).ok _ _ in
      let up = preflight_iff probes in
      (λ h. (up.0 (iff.0 h).0, good_run.0 (iff.0 h).1), λ h. iff.1 (up.1 h.0, good_run.1 h.1))
