-- ===== src/Hub/Distinct.antt =====
-- The clients of a room stand in its list once.
use fifteen_thirty_one_go.Shared.{
  Bool-cases, List, Option, Option-cases, [], arith, false, if◌then◌else◌, inl, inr, refl, some,
  subst, sym, ℕ, ◌==◌, ◌∙◌, ◌∷◌, ◌≡◌,
}
use fifteen_thirty_one_go.Hub.{
  Hub, clients_in, contains, delete_client, enter_room, kept_room, leave_room, members, no_room,
}
use fifteen_thirty_one_go.Hub.Rooms.{clients_in-kept_room, contains-delete_client}
use fifteen_thirty_one_go.Store.Games.{update}

abbrev pub Distinct : List ℕ → Type 0
Distinct [] = Unit
Distinct (x ∷ xs) = (contains x xs ≡ false) × Distinct xs

delete_client-Distinct : (d : ℕ) (xs : List ℕ) → Distinct xs → Distinct (delete_client d xs)
unfolding delete_client
delete_client-Distinct d [] h = tt
delete_client-Distinct d (x ∷ xs) h = elim (Bool-cases (x == d)) [
  | inl e ↦ rw e (delete_client-Distinct d xs h.1)
  | inr e ↦
      rw e (contains-delete_client x d xs ∙ ground (arith, h.0), delete_client-Distinct d xs h.1)
]

update-Distinct :
    (rooms : ℕ → Option (List ℕ)) (room : ℕ) (v : Option (List ℕ))
    → ((r : ℕ) → Distinct (clients_in (rooms r)))
    → Distinct (clients_in v)
    → (r : ℕ) → Distinct (clients_in (update rooms room v r))
update-Distinct rooms room v h new r = elim (Bool-cases (room == r)) [
  | inl e ↦ rw e new
  | inr e ↦ rw e (h r)
]

pub leave_room-Distinct :
    (h : Hub) (d r : ℕ) → ((r : ℕ) → Distinct (members h r)) → Distinct (members (leave_room h d) r)
unfolding leave_room
leave_room-Distinct h d r all = elim (Bool-cases (h.room_of d == no_room)) [
  | inl e ↦ rw (e, leave_room) (all r)
  | inr e ↦ elim (Option-cases (h.rooms (h.room_of d))) [
    | inl f ↦ rw (e, leave_room, f) (all r)
    | inr (clients, f) ↦
        let old : Distinct clients = subst (λ v. Distinct (clients_in v)) f (all (h.room_of d)) in
        rw (e, leave_room, f)
          (update-Distinct h.rooms (h.room_of d) (kept_room (delete_client d clients)) all
            (subst (λ xs. Distinct xs) (sym (clients_in-kept_room (delete_client d clients)))
              (delete_client-Distinct d clients old))
            r)
  ]
]

pub enter_room-Distinct :
    (h : Hub) (d room r : ℕ)
    → ((r : ℕ) → Distinct (members h r))
    → Distinct (members (enter_room h d room) r)
unfolding enter_room contains
enter_room-Distinct h d room r all = elim (Option-cases (h.rooms room)) [
  | inl f ↦ rw (f, enter_room) (update-Distinct h.rooms room (some (d ∷ [])) all (refl, tt) r)
  | inr (clients, f) ↦
      let old : Distinct clients = subst (λ v. Distinct (clients_in v)) f (all room) in
      let new : Distinct (if contains d clients then clients else d ∷ clients) =
        elim (Bool-cases (contains d clients)) [ inl e ↦ rw e old | inr e ↦ rw e (e, old) ] in
      rw (f, enter_room)
        (update-Distinct h.rooms room (some (if contains d clients then clients else d ∷ clients))
          all new r)
]
