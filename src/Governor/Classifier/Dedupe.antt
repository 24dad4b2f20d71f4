-- ===== src/Governor/Classifier/Dedupe.antt =====
-- Which hash the punch of an event carries, in daemon/src/classifier/index.ts.
use repomap_core.Prelude.{
  ℕ, ◌≡◌, refl, sym, ap, ◌∙◌, String, Option, none, some, if-either, str_eq, contains,
}
use repomap_core.Prelude.Number.{Number}
use repomap_core.Prelude.Json.{Json, get, Fields, obj, str, field, end}
use repomap_core.Governor.Types.{Punch}
use repomap_core.Governor.Classifier.{RawEvent, Runtime}
use repomap_core.Governor.Classifier.Commands.{GateClassification}
use repomap_core.Governor.Classifier.Names.{is_mcp_tool_name}
use repomap_core.Governor.Classifier.Hashes.{
  IsKeyOrder, SameFields, same_field, same_end, same, same_obj, sort_keys_deep-SameJson,
}
use repomap_core.Governor.Classifier.SortKeys.{sort_keys_deep}
use repomap_core.Governor.Classifier.Events.{
  compute_source_hash, Base, text_or, truthy, base_of, Metrics, tool_name_of, gate_or_exec,
  is_terminal, classify_terminal, with_status, classify_tool_part, static_punch, with_part_type,
  classify_part_updated, is_value, text_in, record_in, classify_session_updated, is_end, on_finish,
  classify_message_updated, session_lifecycle_events, classify_session_lifecycle, classify_event,
}

module _ (N : Number) where
  -- the punch, if there is one, has the hash
  abbrev HasHash : String → Option (Punch N) → Type 0
  HasHash hash none = Unit
  HasHash hash (some p) = p.source_hash ≡ hash

  module _ (part : Fields N.Carrier) (base : Base N) where
    gate_or_exec-hash :
        (m : Metrics N) (g : Option GateClassification)
        → (gate_or_exec N base m g).source_hash ≡ base.source_hash
    gate_or_exec-hash m none = refl
    gate_or_exec-hash m (some g) = refl

    classify_terminal-hash :
        (status tool_name : String)
        → (classify_terminal N part base status tool_name).source_hash ≡ base.source_hash
    unfolding classify_terminal
    classify_terminal-hash status tool_name =
        let Same = λ (p : Punch N). p.source_hash ≡ base.source_hash in
        if-either Same (str_eq tool_name "task") _ _ refl (
          if-either Same (str_eq tool_name "bash") _ _ (gate_or_exec-hash _ _)
            (if-either Same (is_mcp_tool_name tool_name) _ _ refl refl))

    with_status-HasHash : (o : Option String) → HasHash base.source_hash (with_status N part base o)
    unfolding with_status
    with_status-HasHash none = tt
    with_status-HasHash (some status) =
        if-either (HasHash base.source_hash) (is_terminal N status) _ _
          (classify_terminal-hash status (tool_name_of N part)) tt

    static_punch-HasHash :
        (kind : String) → HasHash base.source_hash (static_punch N part base kind)
    unfolding static_punch
    static_punch-HasHash kind =
        if-either (HasHash base.source_hash) (str_eq kind "step-start") _ _ refl (
          if-either (HasHash base.source_hash) (str_eq kind "step-finish") _ _ refl
            (if-either (HasHash base.source_hash) (str_eq kind "text") _ _ refl tt))

    with_part_type-HasHash :
        (o : Option String) → HasHash base.source_hash (with_part_type N part base o)
    unfolding with_part_type classify_tool_part
    with_part_type-HasHash none = tt
    with_part_type-HasHash (some kind) =
        if-either (HasHash base.source_hash) (str_eq kind "tool") _ _
          (with_status-HasHash (text_in N (record_in N part "state") "status"))
          (static_punch-HasHash kind)

  on_finish-HasHash :
      (rt : Runtime N) (base : Base N) (o : Option (Json N.Carrier))
      → HasHash base.source_hash (on_finish N rt base o)
  unfolding on_finish
  on_finish-HasHash rt base none = tt
  on_finish-HasHash rt base (some finish) =
      if-either (HasHash base.source_hash) (is_end N finish) _ _ refl refl

  classify_event-HasHash :
      (rt : Runtime N) (event : RawEvent N) (now : ℕ)
      → HasHash (compute_source_hash N rt event) (classify_event N rt event now)
  unfolding classify_event classify_part_updated classify_message_updated classify_session_updated
      classify_session_lifecycle base_of
  classify_event-HasHash rt event now =
      let Same = HasHash (compute_source_hash N rt event) in
      let base = base_of N rt event now in
      if-either Same (str_eq event.kind "message.part.updated") _ _
        (with_part_type-HasHash (record_in N event.properties "part") base
          (text_in N (record_in N event.properties "part") "type"))
        (if-either Same (str_eq event.kind "message.updated") _ _
          (if-either Same
            (is_value N (text_in N (record_in N event.properties "info") "role") "assistant") _ none
            (on_finish-HasHash rt
              (record base {
                task_id =
                    text_or N rt (get N.Carrier (record_in N event.properties "info") "sessionID")
                      base.task_id;
              })
              (truthy N rt (get N.Carrier (record_in N event.properties "info") "finish")))
            tt)
          (if-either Same (str_eq event.kind "session.updated") _ _
            (if-either Same
              (is_value N (text_in N (record_in N event.properties "info") "status") "completed") _
              _ refl refl)
            (if-either Same (contains (session_lifecycle_events N) event.kind) _ none refl tt)))

  has_hash :
      (hash : String) (o : Option (Punch N)) (p : Punch N)
      → HasHash hash o
      → o ≡ some p
      → p.source_hash ≡ hash
  has_hash hash none p h e = cc
  has_hash hash (some q) p h e = cc

  -- what is hashed of two events with the same content is the same
  compute_source_hash_same :
      (rt : Runtime N) (e1 e2 : RawEvent N)
      → IsKeyOrder rt.locale_le
      → e1.kind ≡ e2.kind
      → SameFields N.Carrier rt.locale_le e1.properties e2.properties
      → compute_source_hash N rt e1 ≡ compute_source_hash N rt e2
  unfolding compute_source_hash
  compute_source_hash_same rt e1 e2 order kinds same_content =
      ap (λ j. rt.sha256 (rt.stringify j))
        (ap
            (λ k.
              sort_keys_deep rt.locale_le
                (obj (field "type" (str k) (field "properties" (obj e1.properties) end))))
            kinds
          ∙ sort_keys_deep-SameJson rt.locale_le order (
              same_obj (
                same_field (same {v = str e2.kind}) (same_field (same_obj same_content) same_end))))

  -- Two events of one type give punches with one source hash, whenever they come, where their properties
  -- differ at most in the order of the keys of objects, by exchanges of keys of which the comparison
  -- puts one before the other, and where the comparison of keys is a total preorder.
  pub classify_event-same_hash :
      (rt : Runtime N) (e1 e2 : RawEvent N) (t1 t2 : ℕ) (p1 p2 : Punch N)
      → IsKeyOrder rt.locale_le
      → e1.kind ≡ e2.kind
      → SameFields N.Carrier rt.locale_le e1.properties e2.properties
      → classify_event N rt e1 t1 ≡ some p1
      → classify_event N rt e2 t2 ≡ some p2
      → p1.source_hash ≡ p2.source_hash
  classify_event-same_hash rt e1 e2 t1 t2 p1 p2 order kinds same_content h1 h2 =
      has_hash _ _ p1 (classify_event-HasHash rt e1 t1) h1
      ∙ compute_source_hash_same rt e1 e2 order kinds same_content
      ∙ sym (has_hash _ _ p2 (classify_event-HasHash rt e2 t2) h2)
