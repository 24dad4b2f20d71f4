-- ===== src/Infra/Kilo/Tests.antt =====
-- Runs of the monitoring of a session, and its theorems at concrete inputs.
use repomap_core.Prelude.{
  ◌≡◌, refl, arith, String, true, false, List, [], ◌∷◌, none, some, ltb, if◌then◌else◌,
}
use repomap_core.Infra.Kilo.{
  MessagePart, SessionMessage, Server, Reply, listed, is_session_done, extract_result,
  fetch_messages, resolve_done_status,
}
use repomap_core.Infra.Kilo.Rounds.{MonitorConfig, Outcome, monitor_session}
use repomap_core.Infra.Kilo.Ends.{EndsInTime, monitor_session-EndsInTime}
use repomap_core.Infra.Kilo.Confirms.{CompletesRightly, monitor_session-CompletesRightly}
use repomap_core.Infra.Kilo.Settles.{IsSettled, Completes}
use repomap_core.Infra.Kilo.Eventually.{IsReadable, monitor_session-Completes}

abbrev tool : String → MessagePart
tool status = record { kind = "tool"; text = none; reason = none; status = some status }

abbrev finish : String → MessagePart
finish reason = record { kind = "step-finish"; text = none; reason = some reason; status = none }

abbrev says : String → MessagePart
says text = record { kind = "text"; text = some text; reason = none; status = none }

abbrev assistant : List MessagePart → SessionMessage
assistant parts = record { role = some "assistant"; parts = parts }

abbrev finished_session : List SessionMessage
finished_session =
    assistant (tool "completed" ∷ finish "tool-calls" ∷ [])
    ∷ assistant (says "Done." ∷ finish "stop" ∷ [])
    ∷ []

done_after_stop : is_session_done finished_session ≡ true
unfolding is_session_done
done_after_stop = refl

more_to_come : is_session_done (assistant (finish "stop" ∷ finish "tool-calls" ∷ []) ∷ []) ≡ false
unfolding is_session_done
more_to_come = refl

still_pending : is_session_done (assistant (tool "pending" ∷ finish "stop" ∷ []) ∷ []) ≡ false
unfolding is_session_done
still_pending = refl

short_text : extract_result finished_session ≡ some "Done."
unfolding extract_result
short_text = refl

-- working until the fourth request, then done, with one child
abbrev server : Server
server = record {
  children = λ n id. Reply.body (record { id = "child" } ∷ []);
  messages = λ n id. Reply.body (listed (if ltb n 4 then [] else finished_session));
}

abbrev config : MonitorConfig
config = record { max_wait = 600; poll_interval = 10; idle_confirm = 3 }

monitor_session-EndsInTime_example : EndsInTime config (monitor_session server config "s" 0)
monitor_session-EndsInTime_example = monitor_session-EndsInTime config server "s" (omega arith) 0

monitor_session-CompletesRightly_example :
    CompletesRightly server "s" config (monitor_session server config "s" 0)
monitor_session-CompletesRightly_example = monitor_session-CompletesRightly server "s" config 0

-- a server whose sessions are finished from the start
abbrev idle_server : Server
idle_server = record {
  children = λ n id. Reply.body (record { id = "child" } ∷ []);
  messages = λ n id. Reply.body (listed finished_session);
}

idle_server-IsSettled : IsSettled idle_server "s" 3
unfolding fetch_messages resolve_done_status is_session_done
idle_server-IsSettled = record { is_done = λ n h. refl; at_rest = λ n child h. refl }

idle_server-IsReadable : IsReadable idle_server
unfolding fetch_messages
idle_server-IsReadable = λ n id. tt

monitor_session-Completes_example : Completes (monitor_session idle_server config "s" 0)
monitor_session-Completes_example =
    monitor_session-Completes idle_server "s" config idle_server-IsReadable 3 idle_server-IsSettled
      (omega arith) 3 0 (omega arith) (omega arith)

quick : MonitorConfig
quick = record { max_wait = 8; poll_interval = 1; idle_confirm = 2 }

took_five_seconds :
    Outcome.ended (record { completed = true; elapsed = 5; child_count = 1 }) 9
    ≡ monitor_session server quick "s" 0
unfolding monitor_session quick
took_five_seconds = refl
