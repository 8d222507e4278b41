-- ===== src/Hub.antt =====
-- pkg/websocket/hub.go: the hub's goroutine, which owns the rooms and serves one event after the other.
-- A client is a number, and so is the name of a room: 0 is the empty name. A message is a number. A send
-- on a closed channel is a run-time panic of the goroutine, `none` here. The clients of a room stand in
-- a list without repeats, in the order in which a broadcast meets them.
pub mod Rooms
pub mod Distinct
pub mod Refined
pub mod Closed
pub mod Open
pub mod Broadcast
pub mod Delivery
pub mod Membership
use fifteen_thirty_one_go.Shared.{
  Bool, List, Option, [], false, if◌then◌else◌, leb, length, none, some, true, ℕ, ◌++◌, ◌==◌, ◌||◌,
  ◌∷◌,
}
use fifteen_thirty_one_go.Store.Games.{update}

-- `make(chan []byte, 256)` of NewClient.
abbrev pub send_buffer : ℕ
send_buffer = 256

abbrev pub no_room : ℕ
no_room = 0

-- "lobby:global".
abbrev pub lobby_global : ℕ
lobby_global = 1

-- `h.rooms`, and of every client its `Room`, what waits in `Send`, and whether that is closed.
pub record Hub : Type 0 where
  pub rooms : ℕ → Option (List ℕ)
  pub room_of : ℕ → ℕ
  pub queue : ℕ → List ℕ
  pub closed : ℕ → Bool

-- A broadcast whose payload has no JSON carries no message. The last two events are of other goroutines: a
-- handler answers a client, and the pump of a client takes a message to its connection.
pub data Event : Type 0 where
  register_event : (client : ℕ) → Event
  unregister_event : (client : ℕ) → Event
  join_event : (client room : ℕ) → Event
  broadcast_event : (room : ℕ) (message : Option ℕ) → Event
  direct_event : (client message : ℕ) → Event
  pump_event : (client : ℕ) → Event

unfoldable pub contains : ℕ → List ℕ → Bool
contains c [] = false
contains c (x ∷ xs) = x == c || contains c xs

-- `delete(h.rooms[room], c)`.
unfoldable pub delete_client : ℕ → List ℕ → List ℕ
delete_client c [] = []
delete_client c (x ∷ xs) = if x == c then delete_client c xs else x ∷ delete_client c xs

-- A room without clients is deleted.
unfoldable pub kept_room : List ℕ → Option (List ℕ)
kept_room [] = none
kept_room (x ∷ xs) = some (x ∷ xs)

unfoldable pub leave_room : Hub → ℕ → Hub
unfolding delete_client kept_room
leave_room h c =
    let room = h.room_of c in
    if room == no_room then h else elim (h.rooms room) [
      | none ↦ h
      | some clients ↦ record h {
        rooms = update h.rooms room (kept_room (delete_client c clients));
      }
    ]

-- `h.rooms[room][c] = true`, with a new room where there is none.
unfoldable pub enter_room : Hub → ℕ → ℕ → Hub
unfolding contains
enter_room h c room = elim (h.rooms room) [
  | none ↦ record h { rooms = update h.rooms room (some (c ∷ [])) }
  | some clients ↦ record h {
    rooms = update h.rooms room (some (if contains c clients then clients else c ∷ clients));
  }
]

abbrev pub or_global : ℕ → ℕ
or_global room = if room == no_room then lobby_global else room

unfoldable pub register : Hub → ℕ → Hub
unfolding enter_room
register h c =
    let room = or_global (h.room_of c) in
    enter_room (record h { room_of = update h.room_of c room }) c room

-- SendCloseOnce closes the channel at most once.
unfoldable pub remove_client : Hub → ℕ → Hub
unfolding leave_room
remove_client h c = let left = leave_room h c in record left { closed = update left.closed c true }

unfoldable pub move_client_to_room : Hub → ℕ → ℕ → Hub
unfolding leave_room enter_room
move_client_to_room h c given =
    let room = or_global given in
    let left = leave_room h c in
    enter_room (record left { room_of = update left.room_of c room }) c room

-- The sends of a broadcast, one client after the other, and the clients whose buffer is full.
unfoldable pub send_all : Hub → ℕ → List ℕ → Option (Hub × List ℕ)
send_all h message [] = some (h, [])
send_all h message (c ∷ cs) =
    let full = leb send_buffer (length (h.queue c)) in
    let next : Hub =
      if full then h else record h { queue = update h.queue c (h.queue c ++ message ∷ []) } in
    let rest = send_all next message cs in
    if h.closed c
    then none
    else elim rest [ none ↦ none | some (h', dead) ↦ some (h', if full then c ∷ dead else dead) ]

unfoldable pub remove_all : Hub → List ℕ → Hub
unfolding remove_client
remove_all h [] = h
remove_all h (c ∷ cs) = remove_all (remove_client h c) cs

-- A missing room is ranged over as an empty one.
abbrev pub clients_in : Option (List ℕ) → List ℕ
clients_in none = []
clients_in (some clients) = clients

abbrev pub members : Hub → ℕ → List ℕ
members h room = clients_in (h.rooms room)

unfoldable pub broadcast_to_room : Hub → ℕ → Option ℕ → Option Hub
unfolding send_all remove_all
broadcast_to_room h room none = some h
broadcast_to_room h room (some message) = elim (send_all h message (members h room)) [
  | none ↦ none
  | some (h', dead) ↦ some (remove_all h' dead)
]

-- sendDirect of internal/handlers/websocket.go: an answer that finds the buffer full is dropped.
unfoldable pub send_direct : Hub → ℕ → ℕ → Option Hub
send_direct h c message =
    if h.closed c
    then none
    else if leb send_buffer (length (h.queue c))
    then some h
    else some (record h { queue = update h.queue c (h.queue c ++ message ∷ []) })

abbrev pub after_first : List ℕ → List ℕ
after_first [] = []
after_first (message ∷ rest) = rest

-- WritePump receives the first message.
unfoldable pub pump : Hub → ℕ → Hub
pump h c = record h { queue = update h.queue c (after_first (h.queue c)) }

-- One turn of Run, or of the other goroutines.
unfoldable pub step : Hub → Event → Option Hub
unfolding register remove_client move_client_to_room broadcast_to_room send_direct pump
step h (register_event c) = some (register h c)
step h (unregister_event c) = some (remove_client h c)
step h (join_event c room) = some (move_client_to_room h c room)
step h (broadcast_event room message) = broadcast_to_room h room message
step h (direct_event c message) = send_direct h c message
step h (pump_event c) = some (pump h c)

unfoldable pub serve : Hub → List Event → Option Hub
unfolding step
serve h [] = some h
serve h (e ∷ es) = elim (step h e) [ none ↦ none | some h' ↦ serve h' es ]
