-- ===== src/Governor/Classifier/Verdicts.antt =====
-- When a punch of daemon/src/classifier/index.ts says that a quality gate passed or failed.
use repomap_core.Prelude.{
  ℕ, ◌≡◌, ◌⊎◌, inl, inr, refl, ap, ◌∙◌, subst, arith, String, true, false, Option, none, some,
  if-cases, if-either, str_eq, eq_iff, contains, or_else, if◌then◌else◌,
}
use repomap_core.Prelude.Words.{strip}
use repomap_core.Prelude.Number.{Number}
use repomap_core.Prelude.Json.{Json, Fields, get}
use repomap_core.Governor.Types.{Punch}
use repomap_core.Governor.Classifier.{RawEvent, Runtime}
use repomap_core.Governor.Classifier.Commands.{
  GateClassification, gate_of, gate_punch, classify_gate_from_command,
}
use repomap_core.Governor.Classifier.Names.{is_mcp_tool_name}
use repomap_core.Governor.Classifier.Events.{
  Base, text_or, truthy, base_of, Metrics, gate_run, gate_or_exec, tool_name_of, is_terminal,
  classify_terminal, with_status, classify_tool_part, static_punch, with_part_type,
  classify_part_updated, is_value, text_in, record_in, classify_session_updated, is_end, on_finish,
  classify_message_updated, session_lifecycle_events, classify_session_lifecycle, classify_event,
  extract_bash_command,
}

-- the punch type that the status of a call gives its gate
abbrev pub IsVerdict : String → String → Type 0
IsVerdict punch_type status =
    ((punch_type ≡ "gate_pass") × (status ≡ "completed"))
    ⊎ ((punch_type ≡ "gate_fail") × (status ≡ "error"))

abbrev pub IsGate : String → Type 0
IsGate punch_type = (punch_type ≡ "gate_pass") ⊎ (punch_type ≡ "gate_fail")

not_gate : (t : String) → str_eq t "gate_pass" ≡ false → str_eq t "gate_fail" ≡ false → IsGate t → ⊥
not_gate t p f (inl e) = ground (arith, eq_iff t "gate_pass")
not_gate t p f (inr e) = ground (arith, eq_iff t "gate_fail")

module _ (N : Number) where
  -- the call of the shell that the punch is about, in a part
  pub record IsGateRun (part : Fields N.Carrier) (punch_type punch_key : String) : Type 0 where
    pub status : String
    pub command : String
    pub is_tool : text_in N part "type" ≡ some "tool"
    pub is_bash : text_in N part "tool" ≡ some "bash"
    pub had_status : text_in N (record_in N part "state") "status" ≡ some status
    pub had_command : extract_bash_command N part ≡ some command
    pub ran_gate : gate_of (strip command) ≡ some punch_key
    pub verdict : IsVerdict punch_type status

  -- a gate's punch is right
  abbrev Tells : Fields N.Carrier → Option (Punch N) → Type 0
  Tells part none = Unit
  Tells part (some p) = IsGate p.punch_type → IsGateRun part p.punch_type p.punch_key

  named_bash : (o : Option String) → or_else o "unknown_tool" ≡ "bash" → o ≡ some "bash"
  named_bash none e = absurd (ground (arith, eq_iff "unknown_tool" "bash"))
  named_bash (some name) e = ap some e

  module _ (part : Fields N.Carrier) (base : Base N) (m : Metrics N) (status : String)
      (is_tool : text_in N part "type" ≡ some "tool")
      (is_bash : text_in N part "tool" ≡ some "bash")
      (had_status : text_in N (record_in N part "state") "status" ≡ some status)
      (terminal : is_terminal N status ≡ true) where
    gate_punch-Tells :
        (command : String) (o : Option String)
        → extract_bash_command N part ≡ some command
        → gate_of (strip command) ≡ o
        → Tells part (some (gate_or_exec N base m (gate_punch status o)))
    gate_punch-Tells command none c g h = absurd (not_gate "command_exec" refl refl h)
    gate_punch-Tells command (some key) c g h = record {
      status = status;
      command = command;
      is_tool = is_tool;
      is_bash = is_bash;
      had_status = had_status;
      had_command = c;
      ran_gate = g;
      verdict =
          if-cases (λ t. IsVerdict t status) (str_eq status "error") "gate_fail" "gate_pass"
            (λ e. inr (refl, (eq_iff status "error").0 e))
            (λ e. inl (refl, ground (arith, eq_iff status "completed")));
    }

    gate_run-Tells :
        (o : Option String)
        → extract_bash_command N part ≡ o
        → Tells part (some (gate_or_exec N base m (gate_run N o status)))
    unfolding classify_gate_from_command
    gate_run-Tells none c = λ h. absurd (not_gate "command_exec" refl refl h)
    gate_run-Tells (some command) c =
        let P = λ (g : Option GateClassification). Tells part (some (gate_or_exec N base m g)) in
        if-either P (str_eq command "") none _ (λ h. absurd (not_gate "command_exec" refl refl h))
          (if-either P (str_eq (strip command) "") none _
            (λ h. absurd (not_gate "command_exec" refl refl h)) (gate_punch-Tells command _ c refl))

  classify_terminal-Tells :
      (part : Fields N.Carrier) (base : Base N) (status : String)
      → text_in N part "type" ≡ some "tool"
      → text_in N (record_in N part "state") "status" ≡ some status
      → is_terminal N status ≡ true
      → Tells part (some (classify_terminal N part base status (tool_name_of N part)))
  unfolding classify_terminal
  classify_terminal-Tells part base status is_tool had_status terminal =
      let P = λ (p : Punch N). Tells part (some p) in
      let name = tool_name_of N part in
      if-either P (str_eq name "task") _ _ (λ h. absurd (not_gate "child_spawn" refl refl h))
        (if-cases P (str_eq name "bash") _ _
          (λ bash.
            gate_run-Tells part base _ status is_tool
              (named_bash (text_in N part "tool") ((eq_iff name "bash").0 bash)) had_status terminal
              (extract_bash_command N part) refl)
          (λ other.
            if-either P (is_mcp_tool_name name) _ _ (λ h. absurd (not_gate "mcp_call" refl refl h))
              (λ h. absurd (not_gate "tool_call" refl refl h))))

  module _ (part : Fields N.Carrier) (base : Base N) where
    with_status-Tells :
        (o : Option String)
        → text_in N part "type" ≡ some "tool"
        → text_in N (record_in N part "state") "status" ≡ o
        → Tells part (with_status N part base o)
    unfolding with_status
    with_status-Tells none t e = tt
    with_status-Tells (some status) t e =
        if-cases (Tells part) (is_terminal N status) _ none
          (λ terminal. classify_terminal-Tells part base status t e terminal) (λ running. tt)

    static_punch-Tells : (kind : String) → Tells part (static_punch N part base kind)
    unfolding static_punch
    static_punch-Tells kind =
        if-either (Tells part) (str_eq kind "step-start") _ _
          (λ h. absurd (not_gate "step_complete" refl refl h))
          (if-either (Tells part) (str_eq kind "step-finish") _ _
            (λ h. absurd (not_gate "step_complete" refl refl h))
            (if-either (Tells part) (str_eq kind "text") _ none
              (λ h. absurd (not_gate "message" refl refl h)) tt))

    with_part_type-Tells :
        (o : Option String) → text_in N part "type" ≡ o → Tells part (with_part_type N part base o)
    unfolding with_part_type classify_tool_part
    with_part_type-Tells none e = tt
    with_part_type-Tells (some kind) e =
        if-cases (Tells part) (str_eq kind "tool") _ _
          (λ tool.
            with_status-Tells (text_in N (record_in N part "state") "status")
              (e ∙ ap some ((eq_iff kind "tool").0 tool)) refl)
          (λ other. static_punch-Tells kind)

  -- the other events give no punch of a gate
  abbrev Silent : Option (Punch N) → Type 0
  Silent none = Unit
  Silent (some p) = IsGate p.punch_type → ⊥

  on_finish-Silent :
      (rt : Runtime N) (base : Base N) (o : Option (Json N.Carrier))
      → Silent (on_finish N rt base o)
  unfolding on_finish
  on_finish-Silent rt base none = tt
  on_finish-Silent rt base (some finish) =
      if-either Silent (is_end N finish) _ _ (not_gate "step_complete" refl refl)
        (not_gate "session_lifecycle" refl refl)

  -- what a punch of a gate says of its event
  abbrev Reports : RawEvent N → Option (Punch N) → Type 0
  Reports event none = Unit
  Reports event (some p) =
      IsGate p.punch_type
      → (event.kind ≡ "message.part.updated")
        × IsGateRun (record_in N event.properties "part") p.punch_type p.punch_key

  widen-Silent : (event : RawEvent N) (o : Option (Punch N)) → Silent o → Reports event o
  widen-Silent event none s = tt
  widen-Silent event (some p) s = λ h. absurd (s h)

  widen_part :
      (event : RawEvent N) (o : Option (Punch N))
      → event.kind ≡ "message.part.updated"
      → Tells (record_in N event.properties "part") o
      → Reports event o
  widen_part event none e t = tt
  widen_part event (some p) e t = λ h. (e, t h)

  other_events-Silent :
      (rt : Runtime N) (event : RawEvent N) (now : ℕ)
      → Silent (
          if str_eq event.kind "message.updated"
          then classify_message_updated N rt event now
          else if str_eq event.kind "session.updated"
          then classify_session_updated N rt event now
          else classify_session_lifecycle N rt event now)
  unfolding classify_message_updated classify_session_updated classify_session_lifecycle
  other_events-Silent rt event now =
      let info = record_in N event.properties "info" in
      if-either Silent (str_eq event.kind "message.updated") _ _
        (if-either Silent (is_value N (text_in N info "role") "assistant") _ none
          (on_finish-Silent rt
            (record (base_of N rt event now) {
              task_id =
                  text_or N rt (get N.Carrier info "sessionID") (base_of N rt event now).task_id;
            })
            (truthy N rt (get N.Carrier info "finish")))
          tt)
        (if-either Silent (str_eq event.kind "session.updated") _ _
          (if-either Silent (is_value N (text_in N info "status") "completed") _ _
            (not_gate "step_complete" refl refl) (not_gate "session_lifecycle" refl refl))
          (if-either Silent (contains (session_lifecycle_events N) event.kind) _ none
            (not_gate "session_lifecycle" refl refl) tt))

  classify_event-Reports :
      (rt : Runtime N) (event : RawEvent N) (now : ℕ)
      → Reports event (classify_event N rt event now)
  unfolding classify_event classify_part_updated
  classify_event-Reports rt event now =
      let part = record_in N event.properties "part" in
      if-cases (Reports event) (str_eq event.kind "message.part.updated") _ _
        (λ e.
          widen_part event _ ((eq_iff event.kind "message.part.updated").0 e)
            (with_part_type-Tells part (base_of N rt event now) (text_in N part "type") refl))
        (λ other. widen-Silent event _ (other_events-Silent rt event now))

  punch_of :
      (event : RawEvent N) (o : Option (Punch N)) (p : Punch N)
      → Reports event o
      → o ≡ some p
      → Reports event (some p)
  punch_of event o p r e = subst (Reports event) e r

  -- A punch that says that a gate passed or failed comes of the update of a tool part that is a call of
  -- the shell, whose command runs that gate; it passed where the call is completed, and failed where the
  -- call ended with an error.
  pub classify_event-gates :
      (rt : Runtime N) (event : RawEvent N) (now : ℕ) (p : Punch N)
      → classify_event N rt event now ≡ some p
      → IsGate p.punch_type
      → (event.kind ≡ "message.part.updated")
        × IsGateRun (record_in N event.properties "part") p.punch_type p.punch_key
  classify_event-gates rt event now p e = punch_of event _ p (classify_event-Reports rt event now) e
