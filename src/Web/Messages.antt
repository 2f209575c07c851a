-- ===== src/Web/Messages.antt =====
-- The connections of the web socket and their messages (src/web/web_server.cpp,
-- `handle_websocket_connection` to `process_websocket_message_queue`), in the monad of
-- `websocket_mutex_`. A message is the list of its bytes; what is sent is collected in `sent`. A
-- handler does not touch the server, and is whether it throws a `std::exception` at a message; what `recv`
-- returns is a list of texts.
use distributed_data_science.Prelude.{
  ℕ, ◌-◌, Bool, true, false, not, Option, none, some, String, List, [], ◌∷◌, ◌++◌, map, ltb,
  if◌then◌else◌, ◌=?◌, string_key, keep, codes, is_empty,
}
use distributed_data_science.Prelude.Words.{increment, decrement}
use distributed_data_science.Prelude.Maps.{lookup, lookup_or, insert, erase, has, map_values}
use distributed_data_science.Prelude.Mutex.{
  Outcome, returns, deadlock, M, ◌>>=◌, ◌>>◌, pure, get, put, locked,
}
use distributed_data_science.Web.Sanitizing.{occurs}
use distributed_data_science.Web.Frames.{
  encode_websocket_frame, decode_websocket_frame, is_websocket_frame_complete,
}
pub mod Locks
pub mod Membership

pub record SocketServer : Type 0 where
  pub connections : List (String × ℕ)
  pub last_activity : List (String × ℕ)
  pub rooms : List (String × List String)
  pub messages_sent : ℕ
  pub messages_received : ℕ
  pub active_connections : ℕ
  pub sent : List (ℕ × List ℕ)
  pub message_queue : List (List ℕ)
  pub websocket_handlers : List (String × (List ℕ → Bool))

unfoldable pub send_frame : ℕ → List ℕ → SocketServer → SocketServer
unfolding encode_websocket_frame increment
send_frame socket message w = record w {
  sent = w.sent ++ (socket, encode_websocket_frame message 1) ∷ [];
  messages_sent = increment w.messages_sent;
}

unfoldable pub send_websocket_message : String → List ℕ → M SocketServer (Unit {0})
unfolding lookup send_frame
send_websocket_message id message = locked (
    get >>= λ w. elim (lookup id w.connections) [
      | none ↦ pure tt
      | some socket ↦ put (send_frame socket message w)
    ])

-- The two `for` loops of `broadcast_websocket_message`, and whom they visit.
unfoldable pub send_each : List String → List ℕ → M SocketServer (Unit {0})
unfolding send_websocket_message
send_each [] message = pure tt
send_each (id ∷ ids) message = send_websocket_message id message >> send_each ids message

unfoldable pub recipients : String → SocketServer → List String
unfolding lookup_or
recipients room w = if room =? "" then map (λ c. c.0) w.connections else lookup_or [] room w.rooms

unfoldable pub count_sent : SocketServer → SocketServer
unfolding increment
count_sent w = record w { messages_sent = increment w.messages_sent }

unfoldable pub broadcast_websocket_message : List ℕ → String → M SocketServer (Unit {0})
unfolding send_each recipients count_sent
broadcast_websocket_message message room =
    locked
      (get >>= λ w. send_each (recipients room w) message >> (get >>= λ w'. put (count_sent w')))

unfoldable pub join : String → String → SocketServer → SocketServer
unfolding insert lookup_or
join id room w = record w { rooms = insert room (lookup_or [] room w.rooms ++ id ∷ []) w.rooms }

unfoldable pub join_websocket_room : String → String → M SocketServer (Unit {0})
unfolding join
join_websocket_room id room = locked (get >>= λ w. put (join id room w))

-- `members.erase(std::remove(...))`.
unfoldable pub without : String → List String → List String
without id members = keep (λ m. not (m =? id)) members

unfoldable pub leave : String → String → SocketServer → SocketServer
unfolding lookup insert erase without
leave id room w = elim (lookup room w.rooms) [
  | none ↦ w
  | some members ↦
      let left = without id members in
      if is_empty left
      then record w { rooms = erase room (insert room left w.rooms) }
      else record w { rooms = insert room left w.rooms }
]

unfoldable pub leave_websocket_room : String → String → M SocketServer (Unit {0})
unfolding leave
leave_websocket_room id room = locked (get >>= λ w. put (leave id room w))

unfoldable pub close : String → SocketServer → SocketServer
unfolding has erase map_values without decrement
close id w =
    if has id w.connections
    then record w {
      connections = erase id w.connections;
      last_activity = erase id w.last_activity;
      active_connections = decrement w.active_connections;
      rooms = map_values (λ room members. without id members) w.rooms;
    }
    else w

unfoldable pub close_websocket_connection : String → M SocketServer (Unit {0})
unfolding close
close_websocket_connection id = locked (get >>= λ w. put (close id w))

unfoldable pub inactive_connections : ℕ → ℕ → SocketServer → List String
inactive_connections now timeout w =
    map (λ a. a.0) (keep (λ a. ltb timeout (now - a.1)) w.last_activity)

unfoldable pub close_each : List String → M SocketServer (Unit {0})
unfolding close_websocket_connection
close_each [] = pure tt
close_each (id ∷ ids) = close_websocket_connection id >> close_each ids

unfoldable pub cleanup_inactive_websocket_connections : ℕ → ℕ → M SocketServer (Unit {0})
unfolding inactive_connections close_each
cleanup_inactive_websocket_connections now timeout =
    locked (get >>= λ w. close_each (inactive_connections now timeout w))

-- `process_websocket_message_queue`: what is queued, without what others add meanwhile.
unfoldable pub broadcast_each : List (List ℕ) → M SocketServer (Unit {0})
unfolding broadcast_websocket_message
broadcast_each [] = pure tt
broadcast_each (m ∷ ms) = broadcast_websocket_message m "" >> broadcast_each ms

unfoldable pub process_websocket_message_queue : M SocketServer (Unit {0})
unfolding broadcast_each
process_websocket_message_queue =
    get >>= λ w. put (record w { message_queue = [] }) >> broadcast_each w.message_queue

-- The locked forms of two queries that the loop of a connection uses.
unfoldable pub is_active : String → M SocketServer Bool
unfolding has
is_active id = locked (get >>= λ w. pure (has id w.connections))

unfoldable pub touch : String → ℕ → M SocketServer (Unit {0})
unfolding insert
touch id now =
    locked (get >>= λ w. put (record w { last_activity = insert id now w.last_activity }))

unfoldable pub add_websocket_message_handler :
    String → (String → List ℕ → Bool) → M SocketServer (Unit {0})
unfolding insert
add_websocket_message_handler event_type handler = locked (
    get >>= λ w.
    put (record w {
      websocket_handlers = insert event_type (handler event_type) w.websocket_handlers;
    }))

unfoldable pub remove_websocket_message_handler : String → M SocketServer (Unit {0})
unfolding erase
remove_websocket_message_handler event_type =
    locked
      (get >>= λ w. put (record w { websocket_handlers = erase event_type w.websocket_handlers }))

-- The call of the handler: whether it throws, to the `catch` at the end of the method.
unfoldable pub call_handler : List ℕ → SocketServer → Bool
unfolding occurs lookup
call_handler message w =
    if occurs (codes "\"type\"") message
    then elim (lookup "message" w.websocket_handlers) [
      | none ↦ false
      | some handler ↦ handler message
    ]
    else false

unfoldable pub process_websocket_message : String → List ℕ → M SocketServer (Unit {0})
unfolding increment call_handler send_websocket_message
process_websocket_message id message = locked (
    get >>= λ w.
    put (record w { messages_received = increment w.messages_received })
    >> (if call_handler message w
        then pure tt
        else send_websocket_message id
            (codes "{\"type\": \"echo\", \"data\": \"" ++ message ++ codes "\"}")))

-- The `while` loop over what `recv` returns, with the time of each text.
unfoldable pub serve : String → List (ℕ × List ℕ) → M SocketServer (Unit {0})
unfolding is_active is_websocket_frame_complete decode_websocket_frame process_websocket_message
    touch
serve id [] = is_active id >>= λ _. pure tt
serve id ((now, frame) ∷ frames) =
    let rest = serve id frames in
    is_active id >>= λ active.
    if not active
    then pure tt
    else if not (is_websocket_frame_complete frame)
    then rest
    else process_websocket_message id (decode_websocket_frame frame) >> touch id now >> rest

unfoldable pub handle_websocket_connection :
    ℕ → String → ℕ → List (ℕ × List ℕ) → M SocketServer (Unit {0})
unfolding insert increment serve close_websocket_connection
handle_websocket_connection socket id now frames = locked (
    get >>= λ w.
    put (record w {
      connections = insert id socket w.connections;
      last_activity = insert id now w.last_activity;
      active_connections = increment w.active_connections;
    })
    >> serve id frames
    >> close_websocket_connection id)
