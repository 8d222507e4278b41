-- ===== src/Hub/Delivery.antt =====
-- Who gets a broadcast.
use mathlib.Core.Option.{some-injective}
use fifteen_thirty_one_go.Shared.{
  ==_iff, Bool, Bool-cases, List, Option-cases, [], ap, arith, false, if◌then◌else◌, inl, inr, leb,
  length, not, refl, some, subst, sym, true, ℕ, ◌&&◌, ◌++◌, ◌==◌, ◌∙◌, ◌∷◌, ◌≡◌,
}
use fifteen_thirty_one_go.Hub.{Hub, contains, send_all, send_buffer}
use fifteen_thirty_one_go.Hub.Distinct.{Distinct}
use fifteen_thirty_one_go.Store.Games.{update}

abbrev pub is_full : Hub → ℕ → Bool
is_full h c = leb send_buffer (length (h.queue c))

-- The queue of a client after a broadcast to some clients.
abbrev pub delivered : Hub → ℕ → List ℕ → ℕ → List ℕ
delivered h message cs c =
    if contains c cs && not (is_full h c) then h.queue c ++ message ∷ [] else h.queue c

pub record Sent (h h' : Hub) (message : ℕ) (cs dead : List ℕ) : Type 0 where
  pub same_rooms : h'.rooms ≡ h.rooms
  pub same_room_of : h'.room_of ≡ h.room_of
  pub same_closed : h'.closed ≡ h.closed
  pub all_open : (c : ℕ) → contains c cs ≡ true → h.closed c ≡ false
  pub queues : (c : ℕ) → h'.queue c ≡ delivered h message cs c
  pub dead_full : (c : ℕ) → contains c dead ≡ (contains c cs && is_full h c)

abbrev pub queued : Hub → ℕ → ℕ → Hub
queued h message c =
    if is_full h c then h else record h { queue = update h.queue c (h.queue c ++ message ∷ []) }

-- One send to an open client, and the rest.
send_all-parts :
    (h h' : Hub) (message c : ℕ) (cs dead : List ℕ)
    → send_all h message (c ∷ cs) ≡ some (h', dead)
    → (h.closed c ≡ false)
      × ((rest : List ℕ) × (send_all (queued h message c) message cs ≡ some (h', rest))
          × (dead ≡ (if is_full h c then c ∷ rest else rest)))
unfolding send_all
send_all-parts h h' message c cs dead e = elim (Bool-cases (h.closed c)) [
  | inl shut ↦ absurd (ground arith)
  | inr open_still ↦ elim (Option-cases (send_all (queued h message c) message cs)) [
    | inl f ↦ absurd (cc (rw (open_still, send_all, f) at e))
    | inr ((h1, rest), f) ↦
        let same =
          some-injective (h1, (if is_full h c then c ∷ rest else rest)) (h', dead)
            (rw (open_still, send_all, f) at e) in
        (
          open_still,
          (
            rest,
            f ∙ ap (λ x. some (x, rest)) (ap (λ (x : Hub × List ℕ). x.0) same),
            sym (ap (λ (x : Hub × List ℕ). x.1) same),
          ),
        )
  ]
]

-- The first client's buffer is full.
Sent-full :
    (h h' : Hub) (message c : ℕ) (cs rest dead : List ℕ)
    → is_full h c ≡ true
    → h.closed c ≡ false
    → Sent h h' message cs rest
    → dead ≡ c ∷ rest
    → Sent h h' message (c ∷ cs) dead
unfolding contains
Sent-full h h' message c cs rest dead full open_still ih dead_is = rw dead_is (record {
  same_rooms = ih.same_rooms;
  same_room_of = ih.same_room_of;
  same_closed = ih.same_closed;
  all_open = λ d i. elim (Bool-cases (c == d)) [
    | inl s ↦ ap h.closed (sym ((==_iff c d).0 s)) ∙ open_still
    | inr s ↦ ih.all_open d (ground arith)
  ];
  queues = λ d. elim (Bool-cases (c == d)) [
    | inl s ↦
        let full_d : is_full h d ≡ true = subst (λ x. is_full h x ≡ true) ((==_iff c d).0 s) full in
        ih.queues d ∙ rw full_d (ground arith)
    | inr s ↦ ih.queues d ∙ rw s refl
  ];
  dead_full = λ d. elim (Bool-cases (c == d)) [
    | inl s ↦
        let full_d : is_full h d ≡ true = subst (λ x. is_full h x ≡ true) ((==_iff c d).0 s) full in
        rw (s, full_d) refl
    | inr s ↦ rw s (ih.dead_full d)
  ];
})

-- The first client has room for the message.
Sent-queued :
    (h h' : Hub) (message c : ℕ) (cs rest dead : List ℕ)
    → is_full h c ≡ false
    → h.closed c ≡ false
    → contains c cs ≡ false
    → Sent (record h { queue = update h.queue c (h.queue c ++ message ∷ []) }) h' message cs rest
    → dead ≡ rest
    → Sent h h' message (c ∷ cs) dead
unfolding contains
Sent-queued h h' message c cs rest dead room open_still once ih dead_is = rw dead_is (record {
  same_rooms = ih.same_rooms;
  same_room_of = ih.same_room_of;
  same_closed = ih.same_closed;
  all_open = λ d i. elim (Bool-cases (c == d)) [
    | inl s ↦ ap h.closed (sym ((==_iff c d).0 s)) ∙ open_still
    | inr s ↦ ih.all_open d (ground arith)
  ];
  queues = λ d. elim (Bool-cases (c == d)) [
    | inl s ↦
        let here = (==_iff c d).0 s in
        let alone : contains d cs ≡ false = subst (λ x. contains x cs ≡ false) here once in
        let roomy : is_full h d ≡ false = subst (λ x. is_full h x ≡ false) here room in
        let got = ap (λ x. h.queue x ++ message ∷ []) here in ih.queues d ∙ rw (alone, s, roomy) got
    | inr s ↦ ih.queues d ∙ rw s refl
  ];
  dead_full = λ d. elim (Bool-cases (c == d)) [
    | inl s ↦
        let here = (==_iff c d).0 s in
        let alone : contains d cs ≡ false = subst (λ x. contains x cs ≡ false) here once in
        let roomy : is_full h d ≡ false = subst (λ x. is_full h x ≡ false) here room in
        ih.dead_full d ∙ rw (alone, roomy) (ground arith)
    | inr s ↦ ih.dead_full d ∙ rw s refl
  ];
})

pub send_all-Sent :
    (cs : List ℕ) (h h' : Hub) (message : ℕ) (dead : List ℕ)
    → Distinct cs
    → send_all h message cs ≡ some (h', dead)
    → Sent h h' message cs dead
unfolding send_all contains
send_all-Sent [] h h' message dead distinct e =
    let same = some-injective (h, []) (h', dead) e in
    subst (λ (x : Hub × List ℕ). Sent h x.0 message [] x.1) same
      (record {
        same_rooms = refl;
        same_room_of = refl;
        same_closed = refl;
        all_open = λ c i. absurd (cc);
        queues = λ c. refl;
        dead_full = λ c. refl;
      })
send_all-Sent (c ∷ cs) h h' message dead distinct e =
    let (open_still, (rest, f, dead_is)) = send_all-parts h h' message c cs dead e in
    let ih = send_all-Sent cs (queued h message c) h' message rest distinct.1 f in
    elim (Bool-cases (is_full h c)) [
      | inl full ↦
          Sent-full h h' message c cs rest dead full open_still (rw full at ih) (rw full at dead_is)
      | inr room ↦
          Sent-queued h h' message c cs rest dead room open_still distinct.0 (rw room at ih)
            (rw room at dead_is)
    ]
