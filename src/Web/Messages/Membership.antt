-- ===== src/Web/Messages/Membership.antt =====
-- The rooms of the web socket as a relation between rooms and connections (src/web/web_server.cpp,
-- `join_websocket_room`, `leave_websocket_room`, `close_websocket_connection`).
use distributed_data_science.Prelude.{
  ◌≡◌, refl, ap, sym, ◌∙◌, Bool, true, false, ◌&&◌, none, some, String, List, [], ◌∷◌, ◌++◌, arith,
  if◌then◌else◌, ◌=?◌, string_key, =?_iff, is_empty, inl, inr, Bool-cases, Option-cases,
}
use distributed_data_science.Prelude.Maps.{
  lookup, lookup_or, insert, has, lookup_or-insert, lookup_or-erase, lookup_or-map_values,
  has-erase, lookup_or_missing,
}
use distributed_data_science.Web.Messages.{SocketServer, without, join, leave, close}

unfoldable pub is_listed : String → List String → Bool
is_listed j [] = false
is_listed j (m ∷ ms) = let rest = is_listed j ms in if m =? j then true else rest

unfoldable pub is_in_room : String → String → SocketServer → Bool
unfolding is_listed lookup_or
is_in_room room j w = is_listed j (lookup_or [] room w.rooms)

-- What is promised: who is connected, and who is in which room.
pub record Membership : Type 0 where
  pub connected : String → Bool
  pub member : String → String → Bool

pub data Event : Type 0 where
  joins leaves : String → String → Event
  closes : String → Event

unfoldable pub change : Event → Membership → Membership
change (joins id room) a = record a {
  member = λ r j. if room =? r && id =? j then true else a.member r j;
}
change (leaves id room) a = record a {
  member = λ r j. if room =? r && id =? j then false else a.member r j;
}
change (closes id) a =
    if a.connected id
    then record {
      connected = λ j. if id =? j then false else a.connected j;
      member = λ r j. if id =? j then false else a.member r j;
    }
    else a

unfoldable pub perform : Event → SocketServer → SocketServer
unfolding join leave close
perform (joins id room) w = join id room w
perform (leaves id room) w = leave id room w
perform (closes id) w = close id w

unfoldable pub perform_all : List Event → SocketServer → SocketServer
unfolding perform
perform_all [] w = w
perform_all (e ∷ es) w = perform_all es (perform e w)

unfoldable pub change_all : List Event → Membership → Membership
unfolding change
change_all [] a = a
change_all (e ∷ es) a = change_all es (change e a)

abbrev pub IsRepresented : SocketServer → Membership → Type 0
IsRepresented w a =
    ((id : String) → has id w.connections ≡ a.connected id)
    × ((r j : String) → is_in_room r j w ≡ a.member r j)

is_listed-without :
    (id j : String) (ms : List String)
    → is_listed j (without id ms) ≡ (if id =? j then false else is_listed j ms)
unfolding is_listed without
is_listed-without id j [] = ground arith
is_listed-without id j (m ∷ ms) =
    ground (arith, =?_iff m id, =?_iff m j, =?_iff id j, is_listed-without id j ms)

is_listed-append :
    (id j : String) (ms : List String)
    → is_listed j (ms ++ id ∷ []) ≡ (if id =? j then true else is_listed j ms)
unfolding is_listed
is_listed-append id j [] = refl
is_listed-append id j (m ∷ ms) = ground (arith, is_listed-append id j ms)

is_listed-is_empty : (j : String) (ms : List String) → is_empty ms ≡ true → is_listed j ms ≡ false
unfolding is_listed
is_listed-is_empty j [] h = refl
is_listed-is_empty j (m ∷ ms) h = absurd (ground arith)

join-is_in_room :
    (id room r j : String) (w : SocketServer)
    → is_in_room r j (join id room w) ≡ (if room =? r && id =? j then true else is_in_room r j w)
unfolding is_in_room join
join-is_in_room id room r j w = ground (
  arith,
  lookup_or-insert [] room r (lookup_or [] room w.rooms ++ id ∷ []) w.rooms,
  =?_iff room r,
  is_listed-append id j (lookup_or [] room w.rooms),
)

lookup_or_found :
    (room : String) (members : List String) (m : List (String × List String))
    → lookup room m ≡ some members
    → lookup_or [] room m ≡ members
unfolding lookup_or
lookup_or_found room members m h = rw (h, lookup_or) refl

lookup_or-none :
    (room : String) (m : List (String × List String))
    → lookup room m ≡ none
    → lookup_or [] room m ≡ []
unfolding lookup_or
lookup_or-none room m h = rw (h, lookup_or) refl

leave-is_in_room :
    (id room r j : String) (w : SocketServer)
    → is_in_room r j (leave id room w) ≡ (if room =? r && id =? j then false else is_in_room r j w)
unfolding is_in_room leave
leave-is_in_room id room r j w = elim (Option-cases (lookup room w.rooms)) [
  | inl missing ↦
      rw (missing, leave) (ground (arith, =?_iff room r, lookup_or-none room w.rooms missing))
  | inr (members, found) ↦ elim (Bool-cases (is_empty (without id members))) [
    | inl gone ↦
        rw (found, gone, leave)
          (ground (
            arith,
            =?_iff room r,
            lookup_or-erase [] room r (insert room (without id members) w.rooms),
            lookup_or-insert [] room r (without id members) w.rooms,
            lookup_or_found room members w.rooms found,
            is_listed-without id j members,
            is_listed-is_empty j (without id members) gone,
          ))
    | inr others ↦
        rw (found, others, leave)
          (ground (
            arith,
            =?_iff room r,
            lookup_or-insert [] room r (without id members) w.rooms,
            lookup_or_found room members w.rooms found,
            is_listed-without id j members,
          ))
  ]
]

close-is_in_room :
    (id r j : String) (w : SocketServer)
    → has id w.connections ≡ true
    → is_in_room r j (close id w) ≡ (if id =? j then false else is_in_room r j w)
unfolding is_in_room close
close-is_in_room id r j w h = elim (Bool-cases (has r w.rooms)) [
  | inl there ↦
      rw (h, close)
        (ground (
          arith,
          lookup_or-map_values (λ room ms. without id ms) [] r w.rooms,
          is_listed-without id j (lookup_or [] r w.rooms),
        ))
  | inr missing ↦
      rw (h, close)
        (ground (
          arith,
          lookup_or-map_values (λ room ms. without id ms) [] r w.rooms,
          lookup_or_missing [] r w.rooms missing,
        ))
]

leave-connections :
    (id room : String) (w : SocketServer) → (leave id room w).connections ≡ w.connections
unfolding leave
leave-connections id room w = ground arith

close-connections :
    (id j : String) (w : SocketServer)
    → has id w.connections ≡ true
    → has j (close id w).connections ≡ (if id =? j then false else has j w.connections)
unfolding close
close-connections id j w h = rw (h, close) (has-erase id j w.connections)

close_absent : (id : String) (w : SocketServer) → has id w.connections ≡ false → close id w ≡ w
unfolding close
close_absent id w h = rw (h, close) refl

perform-IsRepresented :
    (e : Event) (w : SocketServer) (a : Membership)
    → IsRepresented w a
    → IsRepresented (perform e w) (change e a)
unfolding perform change
perform-IsRepresented (joins id room) w a v =
    (v.0, λ r j. ground (arith, join-is_in_room id room r j w, v.1 r j))
perform-IsRepresented (leaves id room) w a v = (
  λ j. ap (has j) (leave-connections id room w) ∙ v.0 j,
  λ r j. ground (arith, leave-is_in_room id room r j w, v.1 r j),
)
perform-IsRepresented (closes id) w a v = elim (Bool-cases (has id w.connections)) [
  | inl on ↦
      let on' : a.connected id ≡ true = sym (v.0 id) ∙ on in
      rw on' (
        λ j. ground (arith, close-connections id j w on, v.0 j),
        λ r j. ground (arith, close-is_in_room id r j w on, v.1 r j),
      )
  | inr off ↦
      let off' : a.connected id ≡ false = sym (v.0 id) ∙ off in rw (off', close_absent id w off) v
]

-- Joining, leaving and closing, in any order, are the changes of a set of connections and of a
-- relation between rooms and connections: a room that is missing, is empty or lists a connection more than
-- once is the same to both.
pub perform_all-IsRepresented :
    (es : List Event) (w : SocketServer) (a : Membership)
    → IsRepresented w a
    → IsRepresented (perform_all es w) (change_all es a)
unfolding perform_all change_all
perform_all-IsRepresented [] w a v = v
perform_all-IsRepresented (e ∷ es) w a v =
    perform_all-IsRepresented es (perform e w) (change e a) (perform-IsRepresented e w a v)
