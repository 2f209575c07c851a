-- ===== src/Web/Messages/Locks.antt =====
-- Which calls lock `websocket_mutex_` twice (src/web/web_server.cpp).
use distributed_data_science.Prelude.Words.{increment}
use distributed_data_science.Prelude.Maps.{lookup}
use distributed_data_science.Web.Sanitizing.{occurs}
use distributed_data_science.Prelude.{
  ℕ, not, ◌&&◌, none, some, string_key, codes, ◌≡◌, refl, Bool, true, false, String, List, [], ◌∷◌,
  arith, if◌then◌else◌, is_empty, inl, inr, List-cases,
}
use distributed_data_science.Prelude.Mutex.{returns, deadlock}
use distributed_data_science.Web.Messages.{
  SocketServer, recipients, send_each, count_sent, broadcast_websocket_message,
  inactive_connections, close_each, cleanup_inactive_websocket_connections, call_handler,
  send_websocket_message, process_websocket_message, serve, handle_websocket_connection,
}

-- `broadcast_websocket_message`, called with the mutex free, counts a message if there is no one to
-- send it to, and else never returns: it calls `send_websocket_message` while it holds the mutex.
broadcast_websocket_message-outcome :
    (message : List ℕ) (room : String) (w : SocketServer)
    → broadcast_websocket_message message room false w
      ≡ (if is_empty (recipients room w) then returns (tt, count_sent w) else deadlock)
unfolding broadcast_websocket_message send_each
broadcast_websocket_message-outcome message room w = elim (List-cases (recipients room w)) [
  | inl nobody ↦ ground arith
  | inr (id, others, some_one) ↦ ground arith
]

-- `cleanup_inactive_websocket_connections`, called with the mutex free, changes nothing if every
-- connection is active, and else never returns.
pub cleanup_inactive_websocket_connections-outcome :
    (now timeout : ℕ) (w : SocketServer)
    → cleanup_inactive_websocket_connections now timeout false w
      ≡ (if is_empty (inactive_connections now timeout w) then returns (tt, w) else deadlock)
unfolding cleanup_inactive_websocket_connections close_each
cleanup_inactive_websocket_connections-outcome now timeout w =
    elim (List-cases (inactive_connections now timeout w)) [
      | inl none_late ↦ ground arith
      | inr (id, others, late) ↦ ground arith
    ]

-- `handle_websocket_connection` never returns, with the mutex free or held, whatever the client
-- sends: it asks whether the connection is active while it holds the mutex. `process_websocket_message`
-- returns only if it is called with the mutex free, the message has `"type"` in it, and the handler of
-- `message` is registered and throws a `std::exception` at it; it has counted the message then. In all
-- other cases it never returns: it sends the echo while it holds the mutex.
pub handle_websocket_connection-outcome :
    (socket now : ℕ) (id : String) (frames : List (ℕ × List ℕ)) (message : List ℕ) (held : Bool)
    (w : SocketServer)
    → (handle_websocket_connection socket id now frames held w ≡ deadlock)
      × (process_websocket_message id message held w ≡ (
          if not held
            && occurs (codes "\"type\"") message
            && (elim (lookup "message" w.websocket_handlers) [
              | none ↦ false
              | some throws ↦ throws message
            ])
          then returns (tt, record w { messages_received = increment w.messages_received })
          else deadlock))
unfolding handle_websocket_connection process_websocket_message serve call_handler
    send_websocket_message
handle_websocket_connection-outcome socket now id frames message true w = (refl, refl)
handle_websocket_connection-outcome socket now id [] message false w = (refl, ground arith)
handle_websocket_connection-outcome socket now id (f ∷ fs) message false w = (refl, ground arith)
