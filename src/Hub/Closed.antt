-- ===== src/Hub/Closed.antt =====
-- Sends on closed channels: none where only open clients enter rooms, and one for every closed client that
-- is moved to a room.
use mathlib.Core.Option.{some-injective}
use fifteen_thirty_one_go.Shared.{
  ==_iff, Bool-cases, List, Option, [], ap, arith, false, if◌then◌else◌, inl, inr, none, refl, some,
  subst, sym, true, ℕ, ◌++◌, ◌==◌, ◌∙◌, ◌∷◌, ◌≡◌,
}
use fifteen_thirty_one_go.Hub.{
  Event, Hub, broadcast_event, broadcast_to_room, contains, direct_event, join_event, leave_room,
  members, move_client_to_room, or_global, pump, pump_event, register, register_event, remove_all,
  remove_client, send_all, send_direct, step, unregister_event,
}
use fifteen_thirty_one_go.Hub.Delivery.{is_full, queued}
use fifteen_thirty_one_go.Hub.Membership.{Membership, Represents, move_client-Represents, promised}
use fifteen_thirty_one_go.Hub.Rooms.{enter_room-clients, leave_room-clients}
use fifteen_thirty_one_go.Store.Games.{update}

-- Everybody in a room can be sent to.
abbrev pub AllOpen : Hub → Type 0
AllOpen h = (c r : ℕ) → contains c (members h r) ≡ true → h.closed c ≡ false

-- A client is registered, moved or answered while its channel is open.
abbrev pub Allowed : Hub → Event → Type 0
Allowed h (register_event c) = h.closed c ≡ false
Allowed h (join_event c room) = h.closed c ≡ false
Allowed h (unregister_event c) = Unit
Allowed h (broadcast_event r message) = Unit
Allowed h (direct_event c message) = h.closed c ≡ false
Allowed h (pump_event c) = Unit

queued-closed : (h : Hub) (message c : ℕ) → (queued h message c).closed ≡ h.closed
queued-closed h message c = elim (Bool-cases (is_full h c)) [
  | inl e ↦ ground arith
  | inr e ↦ ground arith
]

send_all_total :
    (cs : List ℕ) (h : Hub) (message : ℕ)
    → ((c : ℕ) → contains c cs ≡ true → h.closed c ≡ false)
    → (r : Hub × List ℕ) × (send_all h message cs ≡ some r)
unfolding send_all contains
send_all_total [] h message all = ((h, []), refl)
send_all_total (c ∷ cs) h message all =
    let open_still : h.closed c ≡ false = all c (ground arith) in
    let ((h', dead), f) =
      send_all_total cs (queued h message c) message
        (λ d i. ap (λ g. g d) (queued-closed h message c) ∙ all d (ground arith)) in
    ((h', (if is_full h c then c ∷ dead else dead)), rw (open_still, send_all, f) refl)

send_all_panics :
    (cs : List ℕ) (h : Hub) (message c : ℕ)
    → contains c cs ≡ true
    → h.closed c ≡ true
    → send_all h message cs ≡ none
unfolding send_all contains
send_all_panics [] h message c i shut = absurd (cc)
send_all_panics (x ∷ xs) h message c i shut = elim (Bool-cases (h.closed x)) [
  | inl e ↦ rw (e, send_all) refl
  | inr e ↦ elim (Bool-cases (x == c)) [
    | inl s ↦ absurd (cc (sym e ∙ ap h.closed ((==_iff x c).0 s) ∙ shut))
    | inr s ↦
        let later =
          send_all_panics xs (queued h message x) message c (ground (arith, i, s))
            (ap (λ g. g c) (queued-closed h message x) ∙ shut) in
        rw (e, send_all, later) refl
  ]
]

broadcast_total :
    (h : Hub) (r : ℕ) (message : Option ℕ)
    → AllOpen h
    → (h' : Hub) × (broadcast_to_room h r message ≡ some h')
unfolding broadcast_to_room
broadcast_total h r none all = (h, refl)
broadcast_total h r (some message) all =
    let ((sent, dead), f) = send_all_total (members h r) h message (λ c i. all c r i) in
    (remove_all sent dead, rw (f, broadcast_to_room) refl)

send_direct_total :
    (h : Hub) (c message : ℕ)
    → h.closed c ≡ false
    → (h' : Hub) × (send_direct h c message ≡ some h')
unfolding send_direct
send_direct_total h c message open_still = elim (Bool-cases (is_full h c)) [
  | inl e ↦ (h, ground arith)
  | inr e ↦ (record h { queue = update h.queue c (h.queue c ++ message ∷ []) }, ground arith)
]

-- While everybody in a room can be sent to, no event that is allowed is a panic.
pub step_no_panic :
    (h : Hub) (e : Event) → AllOpen h → Allowed h e → (h' : Hub) × (step h e ≡ some h')
unfolding step
step_no_panic h (register_event c) all allowed = (register h c, refl)
step_no_panic h (unregister_event c) all allowed = (remove_client h c, refl)
step_no_panic h (join_event c room) all allowed = (move_client_to_room h c room, refl)
step_no_panic h (broadcast_event r message) all allowed = broadcast_total h r message all
step_no_panic h (direct_event c message) all allowed = send_direct_total h c message allowed
step_no_panic h (pump_event c) all allowed = (pump h c, refl)

pub move_client-closed : (h : Hub) (c room : ℕ) → (move_client_to_room h c room).closed ≡ h.closed
unfolding move_client_to_room
move_client-closed h c room =
    let left = leave_room h c in
    (enter_room-clients (record left { room_of = update left.room_of c (or_global room) }) c
      (or_global room)).1
    ∙ (leave_room-clients h c).1

-- Where a client that the hub has closed is moved to a room, the next message to that room is a send on
-- a closed channel: the hub's goroutine panics.
pub join_closed_panics :
    (h h' : Hub) (m : Membership) (c room message : ℕ)
    → Represents h m
    → h.closed c ≡ true
    → step h (join_event c room) ≡ some h'
    → step h' (broadcast_event (or_global room) (some message)) ≡ none
unfolding step broadcast_to_room promised
join_closed_panics h h' m c room message rep shut e =
    let moved = move_client_to_room h c room in
    let same : moved ≡ h' = some-injective moved h' e in
    let r = move_client-Represents h m c room rep in
    let inside : contains c (members moved (or_global room)) ≡ true =
      r.same_members c (or_global room) ∙ ground arith in
    let still : moved.closed c ≡ true = ap (λ f. f c) (move_client-closed h c room) ∙ shut in
    subst (λ (x : Hub). broadcast_to_room x (or_global room) (some message) ≡ none) same
      (rw
        (
          send_all_panics (members moved (or_global room)) moved message c inside still,
          broadcast_to_room,
        )
        refl)
