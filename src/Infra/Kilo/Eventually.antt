-- ===== src/Infra/Kilo/Eventually.antt =====
-- That the monitoring of daemon/src/infra/kilo-client.ts completes where the session settles in time.
use native.Mathlib.Nat.{suc-mul}
use repomap_core.Prelude.{
  ℕ, zero, suc, ◌+◌, ◌-◌, ◌*◌, ◌≤◌, ◌<◌, ◌≡◌, refl, arith, String, List, [], ◌∷◌, ltb, leb, length,
  if-cases, if-either, str_eq,
}
use repomap_core.Infra.Kilo.{
  Server, ChildSession, Messages, listed, malformed, Checked, all_done, still_running, unreadable,
  are_all_children_done, after_child, has_running, DoneStatus, done, not_done, unclear,
  fetch_children, fetch_messages,
}
use repomap_core.Infra.Kilo.Rounds.{
  MonitorConfig, Monitoring, Outcome, Round, stop, again, confirm, after_check, verify, idle,
  on_status, polled, round, follow, watch, initial, monitor_session,
}
use repomap_core.Infra.Kilo.Settles.{IsSettled, Completes, watch-settled}

-- a list of messages, which can be read
abbrev pub IsListed : Messages → Type 0
IsListed (listed messages) = Unit
IsListed malformed = ⊥

-- no answer to a request for messages throws when it is read
abbrev pub IsReadable : Server → Type 0
IsReadable server = (n : ℕ) (id : String) → IsListed (fetch_messages (server.messages n id))

-- requests are only added, and each answer was read
abbrev AsksOn : ℕ → Checked → Type 0
AsksOn asked (all_done last) = asked ≤ last
AsksOn asked (still_running last) = asked ≤ last
AsksOn asked unreadable = ⊥

AsksOn-weaker : (asked : ℕ) (r : Checked) → AsksOn (suc asked) r → AsksOn asked r
AsksOn-weaker asked (all_done last) h = omega arith
AsksOn-weaker asked (still_running last) h = omega arith
AsksOn-weaker asked unreadable h = absurd h

after_child-AsksOn :
    (messages : Messages) (asked : ℕ) (rest : Checked)
    → IsListed messages
    → AsksOn asked rest
    → AsksOn asked (after_child messages asked rest)
after_child-AsksOn (listed messages) asked rest l h =
    if-either (AsksOn asked) (has_running messages) (still_running asked) rest (omega arith) h
after_child-AsksOn malformed asked rest l h = absurd l

module _ (server : Server) (id : String) (c : MonitorConfig) (readable : IsReadable server) where
  are_all_children_done-AsksOn :
      (children : List ChildSession) (asked : ℕ)
      → AsksOn asked (are_all_children_done server asked children)
  unfolding are_all_children_done
  are_all_children_done-AsksOn [] asked = omega arith
  are_all_children_done-AsksOn (child ∷ children) asked =
      if-either (AsksOn asked) (str_eq child.id "") _ _
        (are_all_children_done-AsksOn children asked)
        (AsksOn-weaker asked _ (
          after_child-AsksOn (fetch_messages (server.messages asked child.id)) (suc asked) _
            (readable asked child.id) (are_all_children_done-AsksOn children (suc asked))))

  -- a round ends well, or it makes at least two requests in at most two poll intervals
  abbrev Moves : Monitoring → Round → Type 0
  Moves s (stop o) = Completes o
  Moves s (again s') =
      (s.asked + 2 ≤ s'.asked)
      × (s'.elapsed ≤ s.elapsed + 2 * c.poll_interval)
      × (s.elapsed + c.poll_interval ≤ s'.elapsed)

  after_check-Moves :
      (s s' : Monitoring) (r : Checked)
      → AsksOn (s.asked + 2) r
      → s'.elapsed ≡ s.elapsed + c.poll_interval
      → Moves s (after_check s' r)
  unfolding after_check
  after_check-Moves s s' (all_done asked) h e = refl
  after_check-Moves s s' (still_running asked) h e = omega arith
  after_check-Moves s s' unreadable h e = absurd h

  module _ (s : Monitoring) (time : s.elapsed + 2 * c.poll_interval < c.max_wait) where
    on_status-Moves :
        (children : List ChildSession) (status : DoneStatus)
        → Moves s (on_status server c children (polled c children s) status)
    unfolding on_status confirm verify
    on_status-Moves children done =
        if-cases (Moves s) (ltb (s.idle_count + 1) c.idle_confirm) _ _
          (λ few.
            if-cases (Moves s) (leb c.max_wait (s.elapsed + c.poll_interval + c.poll_interval)) _ _
              (λ late. absurd (ground arith)) (λ early. omega arith))
          (λ enough.
            if-either (Moves s) (ltb 0 (length children)) _ _
              (after_check-Moves s (idle (polled c children s)) _
                (are_all_children_done-AsksOn children (s.asked + 2)) refl)
              (after_check-Moves s (idle (polled c children s)) (all_done (s.asked + 2))
                (omega arith) refl))
    on_status-Moves children not_done = omega arith
    on_status-Moves children unclear = omega arith

    round-Moves : Moves s (round server c id s)
    unfolding round
    round-Moves = on_status-Moves (fetch_children (server.children s.asked id)) _

  follow-Completes :
      (s : Monitoring) (r : Round) (k : Monitoring → Outcome)
      → Moves s r
      → ((s' : Monitoring) → Moves s (again s') → Completes (k s'))
      → Completes (follow r k)
  follow-Completes s (stop o) k h rest = h
  follow-Completes s (again s') k h rest = rest s' h

  module _ (from : ℕ) (settled : IsSettled server id from) (waits : 0 < c.poll_interval) where
    -- the time that the confirmation takes at most, and a poll interval more
    abbrev pub confirming : ℕ
    confirming = c.poll_interval + c.idle_confirm * (2 * c.poll_interval)

    confirms-le : c.idle_confirm ≤ c.idle_confirm * (2 * c.poll_interval)
    confirms-le = grind arith

    -- two requests less to come
    step_time : (k : ℕ) → suc k * c.poll_interval ≡ k * c.poll_interval + c.poll_interval
    step_time k = suc-mul k c.poll_interval

    -- once the session has settled, the rest of the time is enough
    from_now :
        (fuel : ℕ) (s : Monitoring)
        → from ≤ s.asked
        → c.max_wait - s.elapsed ≤ fuel
        → s.elapsed + c.idle_confirm * (2 * c.poll_interval) < c.max_wait
        → Completes (watch fuel server c id s)
    from_now fuel s h enough time =
        watch-settled server id from settled c c.idle_confirm fuel s h (omega arith) time
          (omega (arith, confirms-le))

    -- a round from a state with time for two intervals and the confirmation
    enter :
        (fuel : ℕ) (s : Monitoring)
        → s.elapsed + 2 * c.poll_interval < c.max_wait
        → ((s' : Monitoring) → Moves s (again s') → Completes (watch fuel server c id s'))
        → Completes (watch (suc fuel) server c id s)
    unfolding watch
    enter fuel s time rest =
        if-cases Completes (ltb s.elapsed c.max_wait) _ _
          (λ early. follow-Completes s (round server c id s) _ (round-Moves s time) rest)
          (λ late. absurd (ground arith))

    watch_eventually :
        (k fuel : ℕ) (s : Monitoring)
        → from ≤ s.asked + suc k
        → c.max_wait - s.elapsed ≤ fuel
        → s.elapsed + suc k * c.poll_interval + confirming < c.max_wait
        → Completes (watch fuel server c id s)
    watch_eventually k zero s h enough time = absurd (omega arith)
    watch_eventually zero (suc fuel) s h enough time =
        enter fuel s (omega (arith, step_time 0)) (λ s' m.
          from_now fuel s' (omega (arith, m.0)) (omega (arith, m.2))
            (omega (arith, m.1, step_time 0)))
    watch_eventually (suc zero) (suc fuel) s h enough time =
        enter fuel s (omega (arith, step_time 1)) (λ s' m.
          from_now fuel s' (omega (arith, m.0)) (omega (arith, m.2))
            (omega (arith, m.1, step_time 1, step_time 0)))
    watch_eventually (suc (suc k)) (suc fuel) s h enough time =
        enter fuel s (omega (arith, step_time (suc (suc k)))) (λ s' m.
          watch_eventually k fuel s' (omega (arith, m.0)) (omega (arith, m.2))
            (omega (arith, m.1, step_time (suc (suc k)), step_time (suc k))))

    -- Where every answer to a request for messages can be read, from some request on the session is done
    -- and nothing is running, the poll interval is positive, and the limit leaves a poll interval for
    -- each request that the monitoring makes until then, two for each confirmation, and two more, the
    -- monitoring ends with a completed result.
    pub monitor_session-Completes :
        (n asked : ℕ)
        → from ≤ asked + n
        → suc n * c.poll_interval + confirming < c.max_wait
        → Completes (monitor_session server c id asked)
    unfolding monitor_session
    monitor_session-Completes n asked h time =
        watch_eventually n c.max_wait (initial asked) (omega arith) (omega arith) (omega arith)
