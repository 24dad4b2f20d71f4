-- ===== src/Infra/Kilo/Ends.antt =====
-- That `monitorSession` of daemon/src/infra/kilo-client.ts comes to an end, and when.
use repomap_core.Prelude.{
  ℕ, zero, suc, ◌+◌, ◌-◌, ◌*◌, ◌≤◌, ◌<◌, ◌≡◌, ◌⊎◌, inl, inr, refl, arith, String, true, List, ltb,
  ltb→lt, leb, length, if-cases, if-either,
}
use repomap_core.Infra.Kilo.{
  Server, ChildSession, Checked, all_done, still_running, unreadable, DoneStatus, done, not_done,
  unclear, fetch_children,
}
use repomap_core.Infra.Kilo.Rounds.{
  MonitorConfig, Monitoring, Outcome, ended, threw, out_of_fuel, Round, stop, again, confirm,
  after_check, verify, idle, on_status, round, follow, watch, initial, monitor_session,
}

module _ (c : MonitorConfig) where
  -- The call ended in time, or an answer could not be read: it completed, or waited for as long as it
  -- may, and in both cases the wait is less than two poll intervals over the limit.
  abbrev pub EndsInTime : Outcome → Type 0
  EndsInTime (ended r asked) =
      (r.elapsed < c.max_wait + 2 * c.poll_interval)
      × ((r.completed ≡ true) ⊎ (c.max_wait ≤ r.elapsed))
  EndsInTime threw = Unit
  EndsInTime out_of_fuel = ⊥

  -- a round ends the call in time, or takes at least one poll interval
  abbrev Advances : ℕ → Round → Type 0
  Advances elapsed (stop o) = EndsInTime o
  Advances elapsed (again s) =
      (elapsed + c.poll_interval ≤ s.elapsed) × (s.elapsed < c.max_wait + 2 * c.poll_interval)

  module _ (waits : 0 < c.poll_interval) (elapsed : ℕ) (early : elapsed < c.max_wait) where
    confirm-Advances :
        (s : Monitoring) → s.elapsed ≡ elapsed + c.poll_interval → Advances elapsed (confirm c s)
    unfolding confirm
    confirm-Advances s e =
        if-cases (Advances elapsed) (leb c.max_wait (s.elapsed + c.poll_interval)) _ _
          (λ late. (omega arith, inr (ground arith))) (λ on_time. (omega arith, omega arith))

    after_check-Advances :
        (s : Monitoring) (r : Checked)
        → s.elapsed ≡ elapsed + c.poll_interval
        → Advances elapsed (after_check s r)
    unfolding after_check
    after_check-Advances s (all_done asked) e = (omega arith, inl refl)
    after_check-Advances s (still_running asked) e = omega arith
    after_check-Advances s unreadable e = tt

    verify-Advances :
        (server : Server) (children : List ChildSession) (s : Monitoring)
        → s.elapsed ≡ elapsed + c.poll_interval
        → Advances elapsed (verify server children s)
    unfolding verify
    verify-Advances server children s e =
        if-either (Advances elapsed) (ltb 0 (length children)) _ _ (after_check-Advances s _ e)
          (after_check-Advances s (all_done s.asked) e)

    on_status-Advances :
        (server : Server) (children : List ChildSession) (s : Monitoring) (status : DoneStatus)
        → s.elapsed ≡ elapsed + c.poll_interval
        → Advances elapsed (on_status server c children s status)
    unfolding on_status
    on_status-Advances server children s done e =
        if-either (Advances elapsed) (ltb (s.idle_count + 1) c.idle_confirm) _ _
          (confirm-Advances (idle s) e) (verify-Advances server children (idle s) e)
    on_status-Advances server children s not_done e = omega arith
    on_status-Advances server children s unclear e = omega arith

  module _ (server : Server) (id : String) (waits : 0 < c.poll_interval) where
    round-Advances :
        (s : Monitoring) → s.elapsed < c.max_wait → Advances s.elapsed (round server c id s)
    unfolding round
    round-Advances s early =
        on_status-Advances waits s.elapsed early server
          (fetch_children (server.children s.asked id)) _ _ refl

    follow-EndsInTime :
        (elapsed : ℕ) (r : Round) (k : Monitoring → Outcome)
        → Advances elapsed r
        → ((s : Monitoring) → Advances elapsed (again s) → EndsInTime (k s))
        → EndsInTime (follow r k)
    follow-EndsInTime elapsed (stop o) k h rest = h
    follow-EndsInTime elapsed (again s) k h rest = rest s h

    watch-EndsInTime :
        (fuel : ℕ) (s : Monitoring)
        → s.elapsed < c.max_wait + 2 * c.poll_interval
        → c.max_wait - s.elapsed ≤ fuel
        → EndsInTime (watch fuel server c id s)
    unfolding watch
    watch-EndsInTime zero s low enough =
        if-cases EndsInTime (ltb s.elapsed c.max_wait) _ _
          (λ early. absurd (omega (arith, ltb→lt _ _ early))) (λ late. (low, inr (ground arith)))
    watch-EndsInTime (suc fuel) s low enough =
        if-cases EndsInTime (ltb s.elapsed c.max_wait) _ _
          (λ early.
            follow-EndsInTime s.elapsed (round server c id s) _
              (round-Advances s (ltb→lt _ _ early))
              (λ s' h. watch-EndsInTime fuel s' h.1 (omega arith)))
          (λ late. (low, inr (ground arith)))

    -- Where the poll interval is positive, the monitoring of a session always comes to an end, whatever
    -- the server answers: with the session completed, with the time used up, or with an exception on
    -- an answer that cannot be read; a result comes less than two poll intervals after the limit.
    pub monitor_session-EndsInTime : (asked : ℕ) → EndsInTime (monitor_session server c id asked)
    unfolding monitor_session
    monitor_session-EndsInTime asked =
        watch-EndsInTime c.max_wait (initial asked) (omega arith) (omega arith)
