-- ===== src/Hub/Broadcast.antt =====
-- What a whole broadcast leaves in the queues.
use fifteen_thirty_one_go.Shared.{
  Bool, Bool-cases, List, Option-cases, [], ap, arith, false, inl, inr, refl, some, true, ℕ, ◌&&◌,
  ◌==◌, ◌||◌, ◌∙◌, ◌∷◌, ◌≡◌,
}
use fifteen_thirty_one_go.Hub.{
  Hub, broadcast_to_room, contains, leave_room, members, no_room, remove_all, remove_client,
}
use fifteen_thirty_one_go.Hub.Delivery.{delivered, is_full, send_all-Sent}
use fifteen_thirty_one_go.Hub.Membership.{Membership, Represents}
use fifteen_thirty_one_go.Hub.Open.{remove_all-closed}
use fifteen_thirty_one_go.Hub.Refined.{broadcast-sent}

remove_client-queue : (h : Hub) (d : ℕ) → (remove_client h d).queue ≡ h.queue
unfolding remove_client leave_room
remove_client-queue h d = elim (Bool-cases (h.room_of d == no_room)) [
  | inl e ↦ rw (e, leave_room) refl
  | inr e ↦ elim (Option-cases (h.rooms (h.room_of d))) [
    | inl f ↦ rw (e, leave_room, f) refl
    | inr (clients, f) ↦ rw (e, leave_room, f) refl
  ]
]

remove_all-queue : (dead : List ℕ) (h : Hub) → (remove_all h dead).queue ≡ h.queue
unfolding remove_all
remove_all-queue [] h = refl
remove_all-queue (d ∷ ds) h = remove_all-queue ds (remove_client h d) ∙ remove_client-queue h d

-- A broadcast gives its message once, last, to every client of the room whose buffer has a place left, all of
-- them open, and leaves every other queue as it was; it closes the clients of the room whose buffer
-- was full.
pub broadcast_to_room-delivered :
    (h h' : Hub) (m : Membership) (r message : ℕ)
    → Represents h m
    → broadcast_to_room h r (some message) ≡ some h'
    → ((c : ℕ) → h'.queue c ≡ delivered h message (members h r) c)
      × ((c : ℕ) → contains c (members h r) ≡ true → h.closed c ≡ false)
      × ((c : ℕ) → h'.closed c ≡ (h.closed c || (contains c (members h r) && is_full h c)))
broadcast_to_room-delivered h h' m r message rep e =
    let (sent, dead, f, last) = broadcast-sent h h' r message e in
    let s = send_all-Sent (members h r) h sent message dead (rep.no_repeats r) f in
    (
      λ c.
          ap (λ (x : Hub). x.queue c) last
          ∙ ap (λ g. g c) (remove_all-queue dead sent)
          ∙ s.queues c,
      s.all_open,
      λ c.
          ap (λ (x : Hub). x.closed c) last
          ∙ remove_all-closed dead sent c
          ∙ ground (arith, s.dead_full c, ap (λ (g : ℕ → Bool). g c) s.same_closed),
    )
