-- ===== src/Infra/Kilo/Confirms.antt =====
-- What a completed monitoring of daemon/src/infra/kilo-client.ts has seen.
use repomap_core.Prelude.{
  ℕ, zero, suc, ◌+◌, ◌≤◌, ◌≡◌, ◌⊎◌, inl, inr, refl, subst, arith, String, false, List, [], ◌∷◌, ltb,
  leb, length, if-cases, if-either, str_eq, eq_iff,
}
use repomap_core.Infra.Kilo.{
  Server, SessionMessage, Messages, listed, malformed, ChildSession, Checked, all_done,
  still_running, unreadable, are_all_children_done, after_child, has_running, DoneStatus, done,
  not_done, unclear, fetch_children, fetch_messages, resolve_done_status,
}
use repomap_core.Infra.Kilo.Rounds.{
  MonitorConfig, MonitorResult, Monitoring, Outcome, ended, threw, out_of_fuel, Round, stop, again,
  timed_out, confirm, after_check, verify, idle, on_status, polled, round, follow, watch, initial,
  monitor_session,
}

module _ (server : Server) where
  -- the child was asked and has no tool running
  abbrev pub IsQuiet : ChildSession → ℕ → Type 0
  IsQuiet child asked =
      (messages : List SessionMessage) × (fetch_messages (server.messages asked child.id)
        ≡ listed messages)
      × (has_running messages ≡ false)

  -- every child that has an id was asked in turn and is quiet; the requests made from the first to the last number
  pub data AreQuiet : List ChildSession → ℕ → ℕ → Type 0 where
    no_more : {asked : ℕ} → AreQuiet [] asked asked
    nameless :
        {child : ChildSession} {children : List ChildSession} {asked last : ℕ}
        → child.id ≡ ""
        → AreQuiet children asked last
        → AreQuiet (child ∷ children) asked last
    quiet :
        {child : ChildSession} {children : List ChildSession} {asked last : ℕ}
        → IsQuiet child asked
        → AreQuiet children (suc asked) last
        → AreQuiet (child ∷ children) asked last

  -- what the answer `all_done` says of the children
  abbrev AnswersQuiet : List ChildSession → ℕ → Checked → Type 0
  AnswersQuiet children asked (all_done last) = AreQuiet children asked last
  AnswersQuiet children asked (still_running last) = Unit
  AnswersQuiet children asked unreadable = Unit

  widen :
      (child : ChildSession) (children : List ChildSession) (asked : ℕ) (rest : Checked)
      → IsQuiet child asked
      → AnswersQuiet children (suc asked) rest
      → AnswersQuiet (child ∷ children) asked rest
  widen child children asked (all_done last) q h = quiet q h
  widen child children asked (still_running last) q h = tt
  widen child children asked unreadable q h = tt

  skip :
      (child : ChildSession) (children : List ChildSession) (asked : ℕ) (rest : Checked)
      → child.id ≡ ""
      → AnswersQuiet children asked rest
      → AnswersQuiet (child ∷ children) asked rest
  skip child children asked (all_done last) e h = nameless e h
  skip child children asked (still_running last) e h = tt
  skip child children asked unreadable e h = tt

  after_child-AnswersQuiet :
      (child : ChildSession) (children : List ChildSession) (asked : ℕ) (rest : Checked)
      (messages : Messages)
      → fetch_messages (server.messages asked child.id) ≡ messages
      → AnswersQuiet children (suc asked) rest
      → AnswersQuiet (child ∷ children) asked (after_child messages (suc asked) rest)
  after_child-AnswersQuiet child children asked rest (listed messages) e h =
      if-cases (AnswersQuiet (child ∷ children) asked) (has_running messages) _ _ (λ running. tt)
        (λ at_rest. widen child children asked rest (messages, e, at_rest) h)
  after_child-AnswersQuiet child children asked rest malformed e h = tt

  are_all_children_done-AnswersQuiet :
      (children : List ChildSession) (asked : ℕ)
      → AnswersQuiet children asked (are_all_children_done server asked children)
  unfolding are_all_children_done
  are_all_children_done-AnswersQuiet [] asked = no_more
  are_all_children_done-AnswersQuiet (child ∷ children) asked =
      if-cases (AnswersQuiet (child ∷ children) asked) (str_eq child.id "") _ _
        (λ empty.
          skip child children asked _ ((eq_iff child.id "").0 empty)
            (are_all_children_done-AnswersQuiet children asked))
        (λ named.
          after_child-AnswersQuiet child children asked _ _ refl
            (are_all_children_done-AnswersQuiet children (suc asked)))

  AreQuiet-of_none :
      (children : List ChildSession) (asked : ℕ)
      → ltb 0 (length children) ≡ false
      → AreQuiet children asked asked
  AreQuiet-of_none [] asked h = no_more
  AreQuiet-of_none (child ∷ children) asked h = absurd (ground arith)

module _ (server : Server) (id : String) where
  -- the poll that starts at this request finds the session done
  abbrev pub IsDoneAt : ℕ → Type 0
  IsDoneAt n = resolve_done_status (fetch_messages (server.messages (n + 1) id)) ≡ done

  -- the last so many polls before the request found the session done, each two requests before the next
  abbrev pub DoneBefore : ℕ → ℕ → Type 0
  DoneBefore zero n = Unit
  DoneBefore (suc k) n = (m : ℕ) × (n ≡ m + 2) × IsDoneAt m × DoneBefore k m

  abbrev children_at : ℕ → List ChildSession
  children_at n = fetch_children (server.children n id)

  -- the polls that confirmed the end, and the children that the last one listed
  pub record IsConfirmed (c : MonitorConfig) (r : MonitorResult) (asked : ℕ) : Type 0 where
    pub at : ℕ
    pub earlier : ℕ
    pub is_done : IsDoneAt at
    pub done_before : DoneBefore earlier at
    pub enough : c.idle_confirm ≤ earlier + 1
    pub counted : r.child_count ≡ length (fetch_children (server.children at id))
    pub children_quiet : AreQuiet server (fetch_children (server.children at id)) (at + 2) asked

  module _ (c : MonitorConfig) where
    abbrev pub CompletesRightly : Outcome → Type 0
    CompletesRightly (ended r asked) = (r.completed ≡ false) ⊎ IsConfirmed c r asked
    CompletesRightly threw = Unit
    CompletesRightly out_of_fuel = Unit

    -- the count of idle polls is right
    abbrev Counts : Monitoring → Type 0
    Counts s = DoneBefore s.idle_count s.asked

    abbrev Continues : Round → Type 0
    Continues (stop o) = CompletesRightly o
    Continues (again s) = Counts s

    confirm-Continues : (s : Monitoring) → Counts s → Continues (confirm c s)
    unfolding confirm
    confirm-Continues s h =
        if-either Continues (leb c.max_wait (s.elapsed + c.poll_interval)) _ _ (inl refl) h

    module _ (s : Monitoring) (counts : Counts s) (found : IsDoneAt s.asked)
        (enough : c.idle_confirm ≤ s.idle_count + 1) where
      after_check-Continues :
          (r : Checked)
          → AnswersQuiet server (children_at s.asked) (s.asked + 2) r
          → Continues (after_check (idle (polled c (children_at s.asked) s)) r)
      unfolding after_check
      after_check-Continues (all_done asked) h = inr (record {
        at = s.asked;
        earlier = s.idle_count;
        is_done = found;
        done_before = counts;
        enough = enough;
        counted = refl;
        children_quiet = h;
      })
      after_check-Continues (still_running asked) h = tt
      after_check-Continues unreadable h = tt

      verify-Continues :
          Continues (verify server (children_at s.asked) (idle (polled c (children_at s.asked) s)))
      unfolding verify
      verify-Continues =
          if-cases Continues (ltb 0 (length (children_at s.asked))) _ _
            (λ some_listed.
              after_check-Continues _
                (are_all_children_done-AnswersQuiet server (children_at s.asked) (s.asked + 2)))
            (λ none_listed.
              after_check-Continues (all_done (s.asked + 2))
                (AreQuiet-of_none server (children_at s.asked) (s.asked + 2) none_listed))

    count_one :
        (s : Monitoring) → Counts s → IsDoneAt s.asked → DoneBefore (s.idle_count + 1) (s.asked + 2)
    count_one s h e =
        subst (λ (k : ℕ). DoneBefore k (s.asked + 2)) {x = suc s.idle_count} (omega arith)
          (s.asked, refl, e, h)

    on_status-Continues :
        (s : Monitoring) (status : DoneStatus)
        → Counts s
        → resolve_done_status (fetch_messages (server.messages (s.asked + 1) id)) ≡ status
        → Continues
            (on_status server c (children_at s.asked) (polled c (children_at s.asked) s) status)
    unfolding on_status
    on_status-Continues s done h e =
        if-cases Continues (ltb (s.idle_count + 1) c.idle_confirm) _ _
          (λ few. confirm-Continues _ (count_one s h e))
          (λ enough. verify-Continues s h e (ground arith))
    on_status-Continues s not_done h e = tt
    on_status-Continues s unclear h e = tt

    follow-CompletesRightly :
        (r : Round) (k : Monitoring → Outcome)
        → Continues r
        → ((s : Monitoring) → Counts s → CompletesRightly (k s))
        → CompletesRightly (follow r k)
    follow-CompletesRightly (stop o) k h rest = h
    follow-CompletesRightly (again s) k h rest = rest s h

    round-Continues : (s : Monitoring) → Counts s → Continues (round server c id s)
    unfolding round
    round-Continues s h = on_status-Continues s _ h refl

    watch-CompletesRightly :
        (fuel : ℕ) (s : Monitoring) → Counts s → CompletesRightly (watch fuel server c id s)
    unfolding watch
    watch-CompletesRightly zero s h =
        if-either CompletesRightly (ltb s.elapsed c.max_wait) out_of_fuel (timed_out s) tt
          (inl refl)
    watch-CompletesRightly (suc fuel) s h =
        if-either CompletesRightly (ltb s.elapsed c.max_wait)
          (follow (round server c id s) (watch fuel server c id)) (timed_out s)
          (follow-CompletesRightly (round server c id s) _ (round-Continues s h)
            (watch-CompletesRightly fuel))
          (inl refl)

    -- Where the monitoring of a session reports it as completed, the last polls, as many as are to
    -- confirm it and at least one, with nothing in between, all found the session done, and each
    -- child with an id that the last poll listed was then asked in turn and had no tool running; the
    -- reported number of children is that of this list.
    pub monitor_session-CompletesRightly :
        (asked : ℕ) → CompletesRightly (monitor_session server c id asked)
    unfolding monitor_session
    monitor_session-CompletesRightly asked = watch-CompletesRightly c.max_wait (initial asked) tt
