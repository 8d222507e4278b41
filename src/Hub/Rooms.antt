-- ===== src/Hub/Rooms.antt =====
-- Who is in which room after a client has left its room or entered one.
use fifteen_thirty_one_go.Shared.{
  ==_iff, Bool-cases, List, Option, Option-cases, [], ap, arith, false, if◌then◌else◌, inl, inr,
  none, not, refl, some, sym, true, ℕ, ◌&&◌, ◌==◌, ◌||◌, ◌∙◌, ◌∷◌, ◌≡◌, ◌⊎◌,
}
use fifteen_thirty_one_go.Hub.{
  Hub, clients_in, contains, delete_client, enter_room, kept_room, leave_room, members, no_room,
}
use fifteen_thirty_one_go.Store.Games.{update}

pub contains-delete_client :
    (c d : ℕ) (xs : List ℕ) → contains c (delete_client d xs) ≡ (not (d == c) && contains c xs)
unfolding contains delete_client
contains-delete_client c d [] = ground arith
contains-delete_client c d (x ∷ xs) = ground (arith, contains-delete_client c d xs)

-- Reading the rooms through `members` hides whether an empty room is kept.
pub clients_in-kept_room : (xs : List ℕ) → clients_in (kept_room xs) ≡ xs
unfolding kept_room
clients_in-kept_room [] = refl
clients_in-kept_room (x ∷ xs) = refl

clients_in-update :
    (rooms : ℕ → Option (List ℕ)) (room r : ℕ) (v : Option (List ℕ))
    → clients_in (update rooms room v r)
      ≡ (if room == r then clients_in v else clients_in (rooms r))
clients_in-update rooms room r v = elim (Bool-cases (room == r)) [
  | inl e ↦ ground arith
  | inr e ↦ ground arith
]

clients_in-same :
    (rooms : ℕ → Option (List ℕ)) (room r : ℕ) (v : Option (List ℕ))
    → rooms room ≡ v
    → (room == r) ≡ true
    → clients_in (rooms r) ≡ clients_in v
clients_in-same rooms room r v f s = ap clients_in (sym (ap rooms ((==_iff room r).0 s)) ∙ f)

-- A client that leaves an empty room changes nothing.
contains_nobody :
    (c d r room : ℕ) (xs : List ℕ)
    → ((room == r) ≡ true → xs ≡ [])
    → contains c xs ≡ (contains c xs && not (d == c && room == r))
unfolding contains
contains_nobody c d r room xs nobody = elim (Bool-cases (room == r)) [
  | inl s ↦ rw (nobody s) refl
  | inr s ↦ ground (arith, s)
]

-- A client that leaves is gone from its own room, and from no other.
pub leave_room-contains :
    (h : Hub) (d c r : ℕ)
    → (h.room_of d ≡ no_room → members h no_room ≡ [])
    → contains c (members (leave_room h d) r)
      ≡ (contains c (members h r) && not (d == c && h.room_of d == r))
unfolding leave_room
leave_room-contains h d c r nobody = elim (Bool-cases (h.room_of d == no_room)) [
  | inl e ↦
      let at_none = (==_iff (h.room_of d) no_room).0 e in
      rw (e, leave_room)
        (contains_nobody c d r (h.room_of d) (members h r)
          (λ s. ap (members h) (sym ((==_iff (h.room_of d) r).0 s) ∙ at_none) ∙ nobody at_none))
  | inr e ↦ elim (Option-cases (h.rooms (h.room_of d))) [
    | inl f ↦
        rw (e, leave_room, f)
          (contains_nobody c d r (h.room_of d) (members h r)
            (clients_in-same h.rooms (h.room_of d) r none f))
    | inr (clients, f) ↦ rw (e, leave_room, f) (left_from clients f (Bool-cases (h.room_of d == r)))
  ]
]
  where
    left_from :
        (clients : List ℕ)
        → h.rooms (h.room_of d) ≡ some clients
        → (((h.room_of d == r) ≡ true) ⊎ ((h.room_of d == r) ≡ false))
        → contains c
            (clients_in (update h.rooms (h.room_of d) (kept_room (delete_client d clients)) r))
          ≡ (contains c (members h r) && not (d == c && h.room_of d == r))
    left_from clients f at_room =
        let here = clients_in-same h.rooms (h.room_of d) r (some clients) f in
        let after =
          ap (contains c)
            (clients_in-update h.rooms (h.room_of d) r (kept_room (delete_client d clients))) in
        let deleted =
          ap (contains c) (clients_in-kept_room (delete_client d clients))
          ∙ contains-delete_client c d clients in
        after ∙ elim at_room [
          | inl s ↦ rw (s, here s) (deleted ∙ ground arith)
          | inr s ↦ rw s (ground arith)
        ]

contains_again :
    (c d : ℕ) (xs : List ℕ)
    → contains c (if contains d xs then xs else d ∷ xs) ≡ (contains c xs || d == c)
unfolding contains
contains_again c d xs = elim (Bool-cases (contains d xs)) [
  | inl e ↦ rw e (elim (Bool-cases (d == c)) [
    | inl s ↦ rw (s, ap (λ x. contains x xs) (sym ((==_iff d c).0 s)) ∙ e) refl
    | inr s ↦ rw s (ground arith)
  ])
  | inr e ↦ rw e (ground arith)
]

pub enter_room-contains :
    (h : Hub) (d room c r : ℕ)
    → contains c (members (enter_room h d room) r)
      ≡ (contains c (members h r) || (d == c && room == r))
unfolding enter_room contains
enter_room-contains h d room c r = elim (Option-cases (h.rooms room)) [
  | inl f ↦
      rw (f, enter_room)
        (ap (contains c) (clients_in-update h.rooms room r (some (d ∷ [])))
          ∙ elim (Bool-cases (room == r)) [
            | inl s ↦ rw (s, clients_in-same h.rooms room r none f s) (ground arith)
            | inr s ↦ rw s (ground arith)
          ])
  | inr (clients, f) ↦
      let more = if contains d clients then clients else d ∷ clients in
      rw (f, enter_room)
        (ap (contains c) (clients_in-update h.rooms room r (some more))
          ∙ elim (Bool-cases (room == r)) [
            | inl s ↦
                rw (s, clients_in-same h.rooms room r (some clients) f s)
                  (contains_again c d clients ∙ ground arith)
            | inr s ↦ rw s (ground arith)
          ])
]

-- Leaving and entering change the rooms only.
pub leave_room-clients :
    (h : Hub) (d : ℕ)
    → ((leave_room h d).room_of ≡ h.room_of) × ((leave_room h d).closed ≡ h.closed)
unfolding leave_room
leave_room-clients h d = elim (Bool-cases (h.room_of d == no_room)) [
  | inl e ↦ rw (e, leave_room) (refl, refl)
  | inr e ↦ elim (Option-cases (h.rooms (h.room_of d))) [
    | inl f ↦ rw (e, leave_room, f) (refl, refl)
    | inr (clients, f) ↦ rw (e, leave_room, f) (refl, refl)
  ]
]

pub enter_room-clients :
    (h : Hub) (d room : ℕ)
    → ((enter_room h d room).room_of ≡ h.room_of) × ((enter_room h d room).closed ≡ h.closed)
unfolding enter_room
enter_room-clients h d room = elim (Option-cases (h.rooms room)) [
  | inl f ↦ rw (f, enter_room) (refl, refl)
  | inr (clients, f) ↦ rw (f, enter_room) (refl, refl)
]
