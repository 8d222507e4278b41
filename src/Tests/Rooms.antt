-- ===== src/Tests/Rooms.antt =====
-- The hub with one client.
use mathlib.Core.Option.{some-injective}
use fifteen_thirty_one_go.Shared.{
  List, [], ap, false, none, refl, some, sym, true, ℕ, ◌&&◌, ◌||◌, ◌∷◌, ◌≡◌,
}
use fifteen_thirty_one_go.Hub.{
  Event, Hub, broadcast_event, broadcast_to_room, contains, direct_event, enter_room, join_event,
  members, move_client_to_room, pump_event, register, register_event, remove_all, remove_client,
  send_all, serve, step, unregister_event,
}
use fifteen_thirty_one_go.Hub.Broadcast.{broadcast_to_room-delivered}
use fifteen_thirty_one_go.Hub.Closed.{join_closed_panics}
use fifteen_thirty_one_go.Hub.Delivery.{delivered, is_full}
use fifteen_thirty_one_go.Hub.Membership.{
  Membership, Represents, promised, register-Represents, remove_client-Represents,
}
use fifteen_thirty_one_go.Hub.Open.{serve_no_panic}
use fifteen_thirty_one_go.Hub.Refined.{new_hub, new_hub-Represents, step-Represents}
use fifteen_thirty_one_go.Store.Games.{update}

-- The client 7 asks for the room 3.
abbrev asked : ℕ → ℕ
asked c = 3

abbrev nobody : Membership
nobody = record { room = asked; present = λ c. false }

abbrev with_client : Hub
with_client = register (new_hub asked) 7

abbrev in_three : Membership
in_three = promised (λ c. false) nobody (register_event 7)

with_client-Represents : Represents with_client in_three
with_client-Represents = register-Represents (new_hub asked) nobody (new_hub-Represents asked) 7

step-Represents_example :
    Represents
      (move_client_to_room with_client 7 4)
      (promised (is_full with_client) in_three (join_event 7 4))
unfolding step
step-Represents_example =
    step-Represents with_client (move_client_to_room with_client 7 4) in_three (join_event 7 4)
      with_client-Represents refl

abbrev told : Hub
told = record with_client { queue = update with_client.queue 7 (42 ∷ []) }

broadcast_to_room-delivered_example :
    ((c : ℕ) → told.queue c ≡ delivered with_client 42 (members with_client 3) c)
    × ((c : ℕ) → contains c (members with_client 3) ≡ true → with_client.closed c ≡ false)
    × ((c : ℕ)
        → told.closed c
          ≡ (with_client.closed c || (contains c (members with_client 3) && is_full with_client c)))
unfolding broadcast_to_room send_all remove_all register enter_room contains
broadcast_to_room-delivered_example =
    broadcast_to_room-delivered with_client told in_three 3 42 with_client-Represents refl

abbrev visit : List Event
visit =
    register_event 7
    ∷ direct_event 7 43
    ∷ broadcast_event 3 (some 42)
    ∷ pump_event 7
    ∷ unregister_event 7
    ∷ []

serve_no_panic_example : (h : Hub) × (serve (new_hub asked) visit ≡ some h)
unfolding step register enter_room
serve_no_panic_example =
    serve_no_panic asked visit
      (refl, λ h e. (open_still h e, λ h1 e1. (tt, λ h2 e2. (tt, λ h3 e3. (tt, λ h4 e4. tt)))))
  where
    open_still : (h : Hub) → step (new_hub asked) (register_event 7) ≡ some h → h.closed 7 ≡ false
    open_still h e =
        ap (λ (x : Hub). x.closed 7) (sym (some-injective (register (new_hub asked) 7) h e))

-- The client is gone, and joins a room nevertheless.
abbrev gone : Hub
gone = remove_client with_client 7

join_closed_panics_example :
    step (move_client_to_room gone 7 4) (broadcast_event 4 (some 42)) ≡ none
unfolding step remove_client
join_closed_panics_example =
    join_closed_panics gone (move_client_to_room gone 7 4)
      (record in_three { present = update in_three.present 7 false }) 7 4 42
      (remove_client-Represents with_client in_three with_client-Represents 7) refl refl
