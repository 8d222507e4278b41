-- ===== src/Hub/Membership.antt =====
-- The hub against what it promises: every client is in one room, its own, or in none.
use fifteen_thirty_one_go.Shared.{
  ==_iff, Bool, Bool-cases, List, [], ap, arith, false, inl, inr, none, not, refl, some, sym, true,
  ℕ, ◌&&◌, ◌==◌, ◌∙◌, ◌∷◌, ◌≡◌, ◌≢◌,
}
use fifteen_thirty_one_go.Hub.{
  Event, Hub, broadcast_event, contains, direct_event, enter_room, join_event, leave_room, members,
  move_client_to_room, no_room, or_global, pump_event, register, register_event, remove_client,
  unregister_event,
}
use fifteen_thirty_one_go.Hub.Distinct.{Distinct, enter_room-Distinct, leave_room-Distinct}
use fifteen_thirty_one_go.Hub.Rooms.{
  enter_room-clients, enter_room-contains, leave_room-clients, leave_room-contains,
}
use fifteen_thirty_one_go.Store.Games.{update}

-- The promise: the room of each client, and whether it is in it.
pub record Membership : Type 0 where
  pub room : ℕ → ℕ
  pub present : ℕ → Bool

-- What an event does to it. `full` says whose buffer is full when a broadcast comes.
unfoldable pub promised : (ℕ → Bool) → Membership → Event → Membership
promised full m (register_event c) = record {
  room = update m.room c (or_global (m.room c));
  present = update m.present c true;
}
promised full m (unregister_event c) = record m { present = update m.present c false }
promised full m (join_event c given) = record {
  room = update m.room c (or_global given);
  present = update m.present c true;
}
promised full m (broadcast_event r none) = m
promised full m (broadcast_event r (some message)) = record m {
  present = λ c. m.present c && not (m.room c == r && full c);
}
promised full m (direct_event c message) = m
promised full m (pump_event c) = m

-- The rooms of the hub are those of the promise, and the empty name is no room.
pub record Represents (h : Hub) (m : Membership) : Type 0 where
  pub same_room : (c : ℕ) → h.room_of c ≡ m.room c
  pub same_members : (c r : ℕ) → contains c (members h r) ≡ (m.present c && m.room c == r)
  pub nobody_nowhere : members h no_room ≡ []
  pub no_repeats : (r : ℕ) → Distinct (members h r)

-- The rooms do not depend on what waits in a buffer.
pub queue-Represents :
    (h : Hub) (m : Membership) (waiting : ℕ → List ℕ)
    → Represents h m
    → Represents (record h { queue = waiting }) m
queue-Represents h m waiting rep = record {
  same_room = rep.same_room;
  same_members = rep.same_members;
  nobody_nowhere = rep.nobody_nowhere;
  no_repeats = rep.no_repeats;
}

contains_none : (xs : List ℕ) → ((c : ℕ) → contains c xs ≡ false) → xs ≡ []
unfolding contains
contains_none [] h = refl
contains_none (x ∷ xs) h = absurd (ground (arith, h x))

-- What is read off pointwise is the same for promises that agree pointwise.
pub Represents-same :
    (h : Hub) (m m' : Membership)
    → Represents h m
    → ((c : ℕ) → m'.room c ≡ m.room c)
    → ((c : ℕ) → m'.present c ≡ m.present c)
    → Represents h m'
Represents-same h m m' rep rooms presents = record {
  same_room = λ c. rep.same_room c ∙ sym (rooms c);
  same_members = λ c r. ground (arith, rep.same_members c r, rooms c, presents c);
  nobody_nowhere = rep.nobody_nowhere;
  no_repeats = rep.no_repeats;
}

-- Queues and closed channels are no part of the promise.
pub Represents-channels :
    (h : Hub) (m : Membership) (queue : ℕ → List ℕ) (closed : ℕ → Bool)
    → Represents h m
    → Represents (record h { queue = queue; closed = closed }) m
Represents-channels h m queue closed rep = record {
  same_room = rep.same_room;
  same_members = rep.same_members;
  nobody_nowhere = rep.nobody_nowhere;
  no_repeats = rep.no_repeats;
}

module _ (h : Hub) (m : Membership) (rep : Represents h m) where
  -- Leaving: the client is present no more.
  leave_room-Represents :
      (d : ℕ) → Represents (leave_room h d) (record m { present = update m.present d false })
  unfolding contains
  leave_room-Represents d = record {
    same_room = λ c. ap (λ f. f c) (leave_room-clients h d).0 ∙ rep.same_room c;
    same_members = λ c r.
        leave_room-contains h d c r (λ _. rep.nobody_nowhere) ∙ elim (Bool-cases (d == c)) [
          | inl s ↦
              ground (arith, rep.same_members c r, rep.same_room d, ap m.room ((==_iff d c).0 s))
          | inr s ↦ ground (arith, rep.same_members c r)
        ];
    nobody_nowhere = contains_none (members (leave_room h d) no_room) (λ c.
        leave_room-contains h d c no_room (λ _. rep.nobody_nowhere)
        ∙ rw rep.nobody_nowhere (ground arith));
    no_repeats = λ r. leave_room-Distinct h d r rep.no_repeats;
  }

  -- Who is present has a room.
  present_room : (d : ℕ) → m.present d ≡ true → m.room d ≢ no_room
  unfolding contains
  present_room d e z =
      let nowhere = ap (contains d) rep.nobody_nowhere in
      ground (arith, rep.same_members d no_room, nowhere)

  -- Entering a room, from none or from the same one.
  enter_room-Represents :
      (d room : ℕ)
      → (m.present d ≡ true → m.room d ≡ room)
      → room ≢ no_room
      → Represents
          (enter_room (record h { room_of = update h.room_of d room }) d room)
          (record { room = update m.room d room; present = update m.present d true })
  unfolding contains
  enter_room-Represents d room here some_room =
      let moved = record h { room_of = update h.room_of d room } in
      record {
        same_room = λ c.
            ap (λ f. f c) (enter_room-clients moved d room).0 ∙ ground (arith, rep.same_room c);
        same_members = λ c r. enter_room-contains moved d room c r ∙ elim (Bool-cases (d == c)) [
          | inl s ↦ ground (
            arith,
            rep.same_members c r,
            ap m.present ((==_iff d c).0 s),
            ap m.room ((==_iff d c).0 s),
            here,
          )
          | inr s ↦ ground (arith, rep.same_members c r)
        ];
        nobody_nowhere = contains_none (members (enter_room moved d room) no_room) (λ c.
            enter_room-contains moved d room c no_room
            ∙ rw rep.nobody_nowhere (ground (arith, some_room)));
        no_repeats = λ r. enter_room-Distinct moved d room r rep.no_repeats;
      }

  pub register-Represents :
      (d : ℕ) → Represents (register h d) (promised (λ _. false) m (register_event d))
  unfolding register promised
  register-Represents d =
      let room = or_global (h.room_of d) in
      Represents-same (register h d)
        (record { room = update m.room d room; present = update m.present d true })
        (promised (λ _. false) m (register_event d))
        (enter_room-Represents d room (λ e. ground (arith, rep.same_room d, present_room d e))
          (ground arith))
        (λ c. ground (arith, rep.same_room d)) (λ c. refl)

  pub remove_client-Represents :
      (d : ℕ) → Represents (remove_client h d) (record m { present = update m.present d false })
  unfolding remove_client
  remove_client-Represents d =
      let left = leave_room h d in
      Represents-channels left (record m { present = update m.present d false }) left.queue
        (update left.closed d true) (leave_room-Represents d)

pub move_client-Represents :
    (h : Hub) (m : Membership) (d given : ℕ)
    → Represents h m
    → Represents (move_client_to_room h d given) (promised (λ _. false) m (join_event d given))
unfolding move_client_to_room promised
move_client-Represents h m d given rep =
    let room = or_global given in
    let left = leave_room h d in
    let gone : Membership = record m { present = update m.present d false } in
    Represents-same (move_client_to_room h d given)
      (record { room = update gone.room d room; present = update gone.present d true })
      (promised (λ _. false) m (join_event d given))
      (enter_room-Represents left gone (leave_room-Represents h m rep d) d room (λ e. ground arith)
        (ground arith))
      (λ c. refl) (λ c. ground arith)
