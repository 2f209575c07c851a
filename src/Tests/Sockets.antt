-- ===== src/Tests/Sockets.antt =====
-- Connections of the web socket, and a limited client.
use distributed_data_science.Prelude.{
  ◌≡◌, refl, true, false, codes, List, [], ◌∷◌, arith, ◌=?◌, string_key, if◌then◌else◌,
}
use distributed_data_science.Prelude.Maps.{has, lookup}
use distributed_data_science.Prelude.Mutex.{deadlock, returns}
use distributed_data_science.Prelude.Words.{increment}
use distributed_data_science.Web.Sanitizing.{occurs}
use distributed_data_science.Web.Messages.{
  SocketServer, inactive_connections, cleanup_inactive_websocket_connections,
  process_websocket_message,
}
use distributed_data_science.Web.Messages.Locks.{
  cleanup_inactive_websocket_connections-outcome, handle_websocket_connection-outcome,
}
use distributed_data_science.Web.Messages.Membership.{
  Membership, Event, joins, leaves, closes, perform_all, change_all, is_in_room, IsRepresented,
  perform_all-IsRepresented,
}
use distributed_data_science.Web.Admission.Refinement.{
  answers, admissions, check_rate_limit_refines,
}

abbrev no_one : SocketServer
no_one = record {
  connections = [];
  last_activity = [];
  rooms = [];
  messages_sent = 0;
  messages_received = 0;
  active_connections = 0;
  sent = [];
  message_queue = [];
  websocket_handlers = [];
}

abbrev one : SocketServer
one = record no_one {
  connections = ("a", 4) ∷ [];
  last_activity = ("a", 100) ∷ [];
  active_connections = 1;
}

cleanup_inactive_websocket_connections-outcome_example :
    cleanup_inactive_websocket_connections 500 300 false one ≡ deadlock
unfolding inactive_connections
cleanup_inactive_websocket_connections-outcome_example =
    cleanup_inactive_websocket_connections-outcome 500 300 one

-- Its handler throws at every message.
abbrev strict : SocketServer
strict = record no_one { websocket_handlers = ("message", λ m. true) ∷ [] }

handle_websocket_connection-outcome_example :
    process_websocket_message "a" (codes "\"type\"") false strict
    ≡ returns (tt, record strict { messages_received = 1 })
unfolding occurs lookup increment
handle_websocket_connection-outcome_example =
    (handle_websocket_connection-outcome 4 100 "a" [] (codes "\"type\"") false strict).1

abbrev only_a : Membership
only_a = record { connected = λ id. if "a" =? id then true else false; member = λ r j. false }

abbrev events : List Event
events = joins "a" "news" ∷ joins "b" "news" ∷ leaves "b" "news" ∷ closes "a" ∷ []

perform_all-IsRepresented_example :
    IsRepresented (perform_all events one) (change_all events only_a)
unfolding has is_in_room
perform_all-IsRepresented_example =
    perform_all-IsRepresented events one only_a (λ id. refl, λ r j. refl)

check_rate_limit_refines_example :
    answers
      (("c", 10) ∷ ("c", 20) ∷ ("c", 75) ∷ [])
      (record { rate_limit_requests = []; rate_limit_window = 60; max_requests_per_minute = 1 })
    ≡ admissions
        (("c", 10) ∷ ("c", 20) ∷ ("c", 75) ∷ [])
        (record { accepted = []; window = 60; limit = 1 })
check_rate_limit_refines_example =
    check_rate_limit_refines 60 1 (("c", 10) ∷ ("c", 20) ∷ ("c", 75) ∷ [])
      (omega arith, (omega arith, (omega arith, tt)))

-- The second request comes too early.
limited :
    answers
      (("c", 10) ∷ ("c", 20) ∷ ("c", 75) ∷ [])
      (record { rate_limit_requests = []; rate_limit_window = 60; max_requests_per_minute = 1 })
    ≡ true ∷ false ∷ true ∷ []
unfolding answers
limited = refl
