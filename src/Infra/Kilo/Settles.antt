-- ===== src/Infra/Kilo/Settles.antt =====
-- That the monitoring of daemon/src/infra/kilo-client.ts sees the end of a session that settles.
use native.Mathlib.Nat.{suc-mul}
use repomap_core.Prelude.{
  ℕ, zero, suc, ◌+◌, ◌*◌, ◌≤◌, ◌<◌, ◌≡◌, ◌⊎◌, inl, inr, refl, arith, String, true, false, List, [],
  ◌∷◌, ltb, ltb→lt, leb, length, if-cases, if-either, str_eq,
}
use repomap_core.Infra.Kilo.{
  Server, Messages, listed, malformed, ChildSession, Checked, all_done, still_running, unreadable,
  are_all_children_done, after_child, has_running, done, fetch_children, fetch_messages,
  resolve_done_status,
}
use repomap_core.Infra.Kilo.Rounds.{
  MonitorConfig, Monitoring, Outcome, ended, threw, out_of_fuel, Round, stop, again, confirm,
  after_check, verify, idle, on_status, polled, round, follow, watch,
}

-- nothing of the answer is running
abbrev pub AtRest : Messages → Type 0
AtRest (listed messages) = has_running messages ≡ false
AtRest malformed = ⊥

-- from this request on the session is done and no session has a tool running
pub record IsSettled (server : Server) (id : String) (from : ℕ) : Type 0 where
  pub is_done :
      (n : ℕ) → from ≤ n → resolve_done_status (fetch_messages (server.messages n id)) ≡ done
  pub at_rest :
      (n : ℕ) (child : String) → from ≤ n → AtRest (fetch_messages (server.messages n child))

abbrev IsAllDone : Checked → Type 0
IsAllDone (all_done last) = Unit
IsAllDone (still_running last) = ⊥
IsAllDone unreadable = ⊥

after_child-IsAllDone :
    (messages : Messages) (asked : ℕ) (rest : Checked)
    → AtRest messages
    → IsAllDone rest
    → IsAllDone (after_child messages asked rest)
after_child-IsAllDone (listed messages) asked rest h r =
    if-cases IsAllDone (has_running messages) (still_running asked) rest (λ e. cc) (λ e. r)
after_child-IsAllDone malformed asked rest h r = h

-- the call comes to a completed result
abbrev pub Completes : Outcome → Type 0
Completes (ended r asked) = r.completed ≡ true
Completes threw = ⊥
Completes out_of_fuel = ⊥

module _ (server : Server) (id : String) (from : ℕ) (settled : IsSettled server id from) where
  are_all_children_done-IsAllDone :
      (children : List ChildSession) (asked : ℕ)
      → from ≤ asked
      → IsAllDone (are_all_children_done server asked children)
  unfolding are_all_children_done
  are_all_children_done-IsAllDone [] asked h = tt
  are_all_children_done-IsAllDone (child ∷ children) asked h =
      if-either IsAllDone (str_eq child.id "") _ _
        (are_all_children_done-IsAllDone children asked h)
        (after_child-IsAllDone _ (suc asked) _ (settled.at_rest asked child.id h)
          (are_all_children_done-IsAllDone children (suc asked) (omega arith)))

  module _ (c : MonitorConfig) where
    -- a round that completes, or counts one more idle poll
    abbrev Nears : Monitoring → Round → Type 0
    Nears s (stop o) = Completes o
    Nears s (again s') =
        (s'.idle_count ≡ s.idle_count + 1)
        × (s.idle_count + 1 < c.idle_confirm)
        × (s'.elapsed ≡ s.elapsed + 2 * c.poll_interval)
        × (s.asked ≤ s'.asked)

    after_check-Nears : (s s' : Monitoring) (r : Checked) → IsAllDone r → Nears s (after_check s' r)
    unfolding after_check
    after_check-Nears s s' (all_done asked) h = refl
    after_check-Nears s s' (still_running asked) h = absurd h
    after_check-Nears s s' unreadable h = absurd h

    on_done-Nears :
        (s : Monitoring) (children : List ChildSession)
        → from ≤ s.asked
        → s.elapsed + 2 * c.poll_interval < c.max_wait ⊎ c.idle_confirm ≤ s.idle_count + 1
        → Nears s (on_status server c children (polled c children s) done)
    unfolding on_status confirm verify
    on_done-Nears s children h room =
        if-cases (Nears s) (ltb (s.idle_count + 1) c.idle_confirm) _ _
          (λ few.
            if-cases (Nears s) (leb c.max_wait (s.elapsed + c.poll_interval + c.poll_interval)) _ _
              (λ late. absurd (ground arith))
              (λ early. (refl, ltb→lt _ _ few, omega arith, omega arith)))
          (λ enough.
            if-either (Nears s) (ltb 0 (length children)) _ _
              (after_check-Nears s (idle (polled c children s)) _
                (are_all_children_done-IsAllDone children (s.asked + 2) (omega arith)))
              (after_check-Nears s (idle (polled c children s)) (all_done (s.asked + 2)) tt))

    round-Nears :
        (s : Monitoring)
        → from ≤ s.asked
        → s.elapsed + 2 * c.poll_interval < c.max_wait ⊎ c.idle_confirm ≤ s.idle_count + 1
        → Nears s (round server c id s)
    unfolding round
    round-Nears s h room =
        rw (settled.is_done (s.asked + 1) (omega arith))
          (on_done-Nears s (fetch_children (server.children s.asked id)) h room)

    -- an idle poll confirms the end, or there is time for one more
    room_for :
        (k : ℕ) (s : Monitoring)
        → c.idle_confirm ≤ s.idle_count + suc k
        → s.elapsed + k * (2 * c.poll_interval) < c.max_wait
        → s.elapsed + 2 * c.poll_interval < c.max_wait ⊎ c.idle_confirm ≤ s.idle_count + 1
    room_for zero s few time = inr (omega arith)
    room_for (suc k) s few time = inl (omega (arith, suc-mul k (2 * c.poll_interval)))

    follow-Completes :
        (s : Monitoring) (r : Round) (k : Monitoring → Outcome)
        → Nears s r
        → ((s' : Monitoring) → Nears s (again s') → Completes (k s'))
        → Completes (follow r k)
    follow-Completes s (stop o) k h rest = h
    follow-Completes s (again s') k h rest = rest s' h

    -- a round for each idle poll that is missing
    pub watch-settled :
        (k fuel : ℕ) (s : Monitoring)
        → from ≤ s.asked
        → c.idle_confirm ≤ s.idle_count + suc k
        → s.elapsed + k * (2 * c.poll_interval) < c.max_wait
        → k < fuel
        → Completes (watch fuel server c id s)
    unfolding watch
    watch-settled k zero s h few time enough = absurd (omega arith)
    watch-settled zero (suc fuel) s h few time enough =
        if-cases Completes (ltb s.elapsed c.max_wait) _ _
          (λ early.
            follow-Completes s (round server c id s) _ (round-Nears s h (room_for zero s few time))
              (λ s' n. absurd (omega (arith, n.1))))
          (λ late. absurd (ground arith))
    watch-settled (suc k) (suc fuel) s h few time enough =
        if-cases Completes (ltb s.elapsed c.max_wait) _ _
          (λ early.
            follow-Completes s (round server c id s) _
              (round-Nears s h (room_for (suc k) s few time))
              (λ s' n.
                watch-settled k fuel s' (omega (arith, n.3)) (omega (arith, n.0))
                  (omega (arith, n.2, suc-mul k (2 * c.poll_interval))) (omega arith)))
          (λ late. absurd (ground arith))
