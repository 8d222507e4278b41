-- ===== src/Hub/Refined.antt =====
-- Every event does to the rooms what is promised of it.
use mathlib.Core.Option.{some-injective}
use fifteen_thirty_one_go.Shared.{
  Bool-cases, List, Option, Option-cases, [], ap, arith, false, inl, inr, none, not, refl, some,
  subst, sym, true, ℕ, ◌&&◌, ◌++◌, ◌∙◌, ◌∷◌, ◌≡◌,
}
use fifteen_thirty_one_go.Hub.{
  Event, Hub, after_first, broadcast_event, broadcast_to_room, clients_in, contains, direct_event,
  join_event, members, move_client_to_room, no_room, pump, pump_event, register, register_event,
  remove_all, remove_client, send_all, send_direct, serve, step, unregister_event,
}
use fifteen_thirty_one_go.Hub.Delivery.{is_full, send_all-Sent}
use fifteen_thirty_one_go.Hub.Distinct.{Distinct}
use fifteen_thirty_one_go.Hub.Membership.{
  Membership, Represents, Represents-same, move_client-Represents, promised, queue-Represents,
  register-Represents, remove_client-Represents,
}
use fifteen_thirty_one_go.Store.Games.{update}

remove_all-Represents :
    (dead : List ℕ) (h : Hub) (m : Membership)
    → Represents h m
    → Represents
        (remove_all h dead)
        (record m { present = λ c. m.present c && not (contains c dead) })
unfolding remove_all contains
remove_all-Represents [] h m rep =
    Represents-same h m (record m { present = λ c. m.present c && not false }) rep (λ c. refl)
      (λ c. ground arith)
remove_all-Represents (d ∷ ds) h m rep =
    let gone : Membership = record m { present = update m.present d false } in
    Represents-same (remove_all (remove_client h d) ds)
      (record gone { present = λ c. gone.present c && not (contains c ds) })
      (record m { present = λ c. m.present c && not (contains c (d ∷ ds)) })
      (remove_all-Represents ds (remove_client h d) gone (remove_client-Represents h m rep d))
      (λ c. refl) (λ c. ground arith)

pub broadcast-sent :
    (h h' : Hub) (r message : ℕ)
    → broadcast_to_room h r (some message) ≡ some h'
    → (sent : Hub) × (dead : List ℕ) × (send_all h message (members h r) ≡ some (sent, dead))
      × (h' ≡ remove_all sent dead)
unfolding broadcast_to_room
broadcast-sent h h' r message e = elim (Option-cases (send_all h message (members h r))) [
  | inl f ↦ absurd (cc (rw (f, broadcast_to_room) at e))
  | inr ((sent, dead), f) ↦ (
    sent,
    dead,
    f,
    sym (some-injective (remove_all sent dead) h' (rw (f, broadcast_to_room) at e)),
  )
]

broadcast-Represents :
    (h h' : Hub) (m : Membership) (r message : ℕ)
    → Represents h m
    → broadcast_to_room h r (some message) ≡ some h'
    → Represents h' (promised (is_full h) m (broadcast_event r (some message)))
unfolding promised
broadcast-Represents h h' m r message rep e =
    let (sent, dead, f, last) = broadcast-sent h h' r message e in
    let s = send_all-Sent (members h r) h sent message dead (rep.no_repeats r) f in
    let kept : Represents sent m = record {
      same_room = λ c. ap (λ f. f c) s.same_room_of ∙ rep.same_room c;
      same_members = λ c q.
          ap (λ (rooms : ℕ → Option (List ℕ)). contains c (clients_in (rooms q))) s.same_rooms
          ∙ rep.same_members c q;
      nobody_nowhere =
          ap (λ (rooms : ℕ → Option (List ℕ)). clients_in (rooms no_room)) s.same_rooms
          ∙ rep.nobody_nowhere;
      no_repeats = λ q.
          subst (λ (rooms : ℕ → Option (List ℕ)). Distinct (clients_in (rooms q)))
            (sym s.same_rooms) (rep.no_repeats q);
    } in
    rw last (
      Represents-same (remove_all sent dead)
        (record m { present = λ c. m.present c && not (contains c dead) })
        (promised (is_full h) m (broadcast_event r (some message)))
        (remove_all-Represents dead sent m kept) (λ c. refl)
        (λ c. ground (arith, s.dead_full c, rep.same_members c r)))

send_direct-Represents :
    (h h' : Hub) (m : Membership) (c message : ℕ)
    → Represents h m
    → send_direct h c message ≡ some h'
    → Represents h' m
unfolding send_direct
send_direct-Represents h h' m c message rep e = elim (Bool-cases (h.closed c)) [
  | inl shut ↦ absurd (cc (rw (shut, send_direct) at e))
  | inr open_still ↦ elim (Bool-cases (is_full h c)) [
    | inl full ↦
        subst (λ x. Represents x m) (some-injective h h' (rw (open_still, send_direct, full) at e))
          rep
    | inr room ↦
        let waiting = update h.queue c (h.queue c ++ message ∷ []) in
        subst (λ x. Represents x m)
          (some-injective (record h { queue = waiting }) h'
            (rw (open_still, send_direct, room) at e))
          (queue-Represents h m waiting rep)
  ]
]

-- What every event does to the rooms of the hub is what is promised: a client that registers or joins is
-- in its new room and in no other, one that unregisters is in none, and a broadcast removes from
-- its room the clients whose buffer is full, and nobody else.
pub step-Represents :
    (h h' : Hub) (m : Membership) (e : Event)
    → Represents h m
    → step h e ≡ some h'
    → Represents h' (promised (is_full h) m e)
unfolding step promised broadcast_to_room pump
step-Represents h h' m (register_event c) rep e =
    rw (sym (some-injective (register h c) h' e)) (register-Represents h m rep c)
step-Represents h h' m (unregister_event c) rep e =
    rw (sym (some-injective (remove_client h c) h' e)) (remove_client-Represents h m rep c)
step-Represents h h' m (join_event c room) rep e =
    rw (sym (some-injective (move_client_to_room h c room) h' e))
      (move_client-Represents h m c room rep)
step-Represents h h' m (broadcast_event r none) rep e = rw (sym (some-injective h h' e)) rep
step-Represents h h' m (broadcast_event r (some message)) rep e =
    broadcast-Represents h h' m r message rep e
step-Represents h h' m (direct_event c message) rep e =
    send_direct-Represents h h' m c message rep e
step-Represents h h' m (pump_event c) rep e =
    rw (sym (some-injective (pump h c) h' e))
      (queue-Represents h m (update h.queue c (after_first (h.queue c))) rep)

-- NewHub, with the rooms that the clients ask for when they register.
abbrev pub new_hub : (ℕ → ℕ) → Hub
new_hub asked = record { rooms = λ r. none; room_of = asked; queue = λ c. []; closed = λ c. false }

pub new_hub-Represents :
    (asked : ℕ → ℕ) → Represents (new_hub asked) (record { room = asked; present = λ c. false })
unfolding contains
new_hub-Represents asked = record {
  same_room = λ c. refl;
  same_members = λ c r. refl;
  nobody_nowhere = refl;
  no_repeats = λ r. tt;
}

serve-Represents :
    (es : List Event) (h h' : Hub) (m : Membership)
    → Represents h m
    → serve h es ≡ some h'
    → (m' : Membership) × Represents h' m'
unfolding serve
serve-Represents [] h h' m rep e = (m, rw (sym (some-injective h h' e)) rep)
serve-Represents (ev ∷ es) h h' m rep e = elim (Option-cases (step h ev)) [
  | inl f ↦ absurd (cc (rw (f, serve) at e))
  | inr (h1, f) ↦
      serve-Represents es h1 h' (promised (is_full h) m ev) (step-Represents h h1 m ev rep f)
        (rw (f, serve) at e)
]

-- Whatever events a new hub has served, a client is in one room at most, the one it keeps as its own, once.
pub serve_one_room :
    (asked : ℕ → ℕ) (es : List Event) (h : Hub)
    → serve (new_hub asked) es ≡ some h
    → ((c r : ℕ) → contains c (members h r) ≡ true → h.room_of c ≡ r)
      × ((r : ℕ) → Distinct (members h r))
serve_one_room asked es h e =
    let (m, rep) =
      serve-Represents es (new_hub asked) h (record { room = asked; present = λ c. false })
        (new_hub-Represents asked) e in
    (λ c r i. ground (arith, rep.same_members c r, rep.same_room c), rep.no_repeats)
