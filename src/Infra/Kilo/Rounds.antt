-- ===== src/Infra/Kilo/Rounds.antt =====
-- The loop of `monitorSession` in daemon/src/infra/kilo-client.ts, on fuel for its rounds.
use repomap_core.Prelude.{
  ℕ, zero, suc, ◌+◌, String, Bool, true, false, List, ltb, leb, length, if◌then◌else◌,
}
use repomap_core.Infra.Kilo.{
  Server, ChildSession, fetch_children, fetch_messages, resolve_done_status, DoneStatus, done,
  not_done, unclear, Checked, all_done, still_running, unreadable, are_all_children_done,
}

-- the fields of the configuration that the loop reads, times in seconds
pub record MonitorConfig : Type 0 where
  pub max_wait : ℕ
  pub poll_interval : ℕ
  pub idle_confirm : ℕ

pub record MonitorResult : Type 0 where
  pub completed : Bool
  pub elapsed : ℕ
  pub child_count : ℕ

-- the variables of the loop, and the requests made so far
pub record Monitoring : Type 0 where
  pub elapsed : ℕ
  pub last_child_count : ℕ
  pub idle_count : ℕ
  pub asked : ℕ

-- what the call comes to: a result and the requests made, or an exception
pub data Outcome : Type 0 where
  ended : MonitorResult → ℕ → Outcome
  threw : Outcome
  out_of_fuel : Outcome

pub data Round : Type 0 where
  stop : Outcome → Round
  again : Monitoring → Round

abbrev pub timed_out : Monitoring → Outcome
timed_out s =
    ended (record { completed = false; elapsed = s.elapsed; child_count = s.last_child_count })
      s.asked

abbrev pub finished : Monitoring → ℕ → Outcome
finished s asked =
    ended (record { completed = true; elapsed = s.elapsed; child_count = s.last_child_count }) asked

-- not yet confirmed: one more wait, and the loop is left or goes on
unfoldable pub confirm : MonitorConfig → Monitoring → Round
confirm c s =
    let s' = record s { elapsed = s.elapsed + c.poll_interval } in
    if leb c.max_wait s'.elapsed then stop (timed_out s') else again s'

unfoldable pub after_check : Monitoring → Checked → Round
after_check s (all_done asked) = stop (finished s asked)
after_check s (still_running asked) = again (record s { idle_count = 0; asked = asked })
after_check s unreadable = stop threw

-- the children are asked only where there are some
unfoldable pub verify : Server → List ChildSession → Monitoring → Round
unfolding after_check are_all_children_done
verify server children s =
    if ltb 0 (length children)
    then after_check s (are_all_children_done server s.asked children)
    else after_check s (all_done s.asked)

abbrev pub idle : Monitoring → Monitoring
idle s = record s { idle_count = s.idle_count + 1 }

unfoldable pub on_status :
    Server → MonitorConfig → List ChildSession → Monitoring → DoneStatus → Round
unfolding confirm verify
on_status server c children s done =
    if ltb (s.idle_count + 1) c.idle_confirm
    then confirm c (idle s)
    else verify server children (idle s)
on_status server c children s not_done = again (record s { idle_count = 0 })
on_status server c children s unclear = again (record s { idle_count = 0 })

-- the wait, the count of the children and the two requests of a round
abbrev pub polled : MonitorConfig → List ChildSession → Monitoring → Monitoring
polled c children s = record s {
  elapsed = s.elapsed + c.poll_interval;
  last_child_count = length children;
  asked = s.asked + 2;
}

unfoldable pub round : Server → MonitorConfig → String → Monitoring → Round
unfolding on_status fetch_children fetch_messages resolve_done_status
round server c id s =
    let children = fetch_children (server.children s.asked id) in
    on_status server c children (polled c children s)
      (resolve_done_status (fetch_messages (server.messages (s.asked + 1) id)))

abbrev pub follow : Round → (Monitoring → Outcome) → Outcome
follow (stop o) k = o
follow (again s) k = k s

unfoldable pub watch : ℕ → Server → MonitorConfig → String → Monitoring → Outcome
unfolding round
watch zero server c id s = if ltb s.elapsed c.max_wait then out_of_fuel else timed_out s
watch (suc fuel) server c id s =
    if ltb s.elapsed c.max_wait
    then follow (round server c id s) (watch fuel server c id)
    else timed_out s

abbrev pub initial : ℕ → Monitoring
initial asked = record { elapsed = 0; last_child_count = 0; idle_count = 0; asked = asked }

-- One round for each second is enough, since a round waits for at least one poll interval.
unfoldable pub monitor_session : Server → MonitorConfig → String → ℕ → Outcome
unfolding watch
monitor_session server c id asked = watch c.max_wait server c id (initial asked)
