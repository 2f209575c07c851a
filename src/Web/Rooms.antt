-- ===== src/Web/Rooms.antt =====
-- The queries of the web socket's connections and rooms (src/web/web_server.cpp,
-- `update_websocket_activity` to `get_websocket_connections_in_room`). A connection is of any type.
use distributed_data_science.Prelude.{ℕ, Bool, String, List, [], string_key, length}
use distributed_data_science.Prelude.Maps.{insert, has, lookup_or}

pub record WebSockets (C : Type 0) : Type 0 where
  pub websocket_connections : List (String × C)
  pub websocket_last_activity : List (String × ℕ)
  pub websocket_rooms : List (String × List String)

module _ {C : Type 0} where
  unfoldable pub update_websocket_activity : String → ℕ → WebSockets C → WebSockets C
  unfolding insert
  update_websocket_activity id now w = record w {
    websocket_last_activity = insert id now w.websocket_last_activity;
  }

  unfoldable pub is_websocket_connection_active : String → WebSockets C → Bool
  unfolding has
  is_websocket_connection_active id w = has id w.websocket_connections

  unfoldable pub get_websocket_connection_count : WebSockets C → ℕ
  get_websocket_connection_count w = length w.websocket_connections

  unfoldable pub get_websocket_connections_in_room : String → WebSockets C → List String
  unfolding lookup_or
  get_websocket_connections_in_room room w = lookup_or [] room w.websocket_rooms

  unfoldable pub get_websocket_room_count : String → WebSockets C → ℕ
  unfolding get_websocket_connections_in_room
  get_websocket_room_count room w = length (get_websocket_connections_in_room room w)
