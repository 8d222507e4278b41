-- ===== src/Hub/Open.antt =====
-- A hub that is only given open clients never panics.
use mathlib.Core.Option.{some-injective}
use fifteen_thirty_one_go.Shared.{
  ==_iff, Bool, Bool-cases, List, [], ap, arith, false, inl, inr, none, refl, some, sym, true, ℕ,
  ◌==◌, ◌||◌, ◌∙◌, ◌∷◌, ◌≡◌,
}
use fifteen_thirty_one_go.Hub.{
  Event, Hub, broadcast_event, broadcast_to_room, contains, direct_event, join_event, members,
  move_client_to_room, or_global, pump, pump_event, register, register_event, remove_all,
  remove_client, send_direct, serve, step, unregister_event,
}
use fifteen_thirty_one_go.Hub.Closed.{AllOpen, Allowed, move_client-closed, step_no_panic}
use fifteen_thirty_one_go.Hub.Delivery.{is_full, send_all-Sent}
use fifteen_thirty_one_go.Hub.Membership.{Membership, Represents, promised}
use fifteen_thirty_one_go.Hub.Refined.{broadcast-sent, new_hub, new_hub-Represents, step-Represents}
use fifteen_thirty_one_go.Hub.Rooms.{enter_room-clients, leave_room-clients}
use fifteen_thirty_one_go.Store.Games.{update}

-- Who is present can be sent to.
abbrev Open : Hub → Membership → Type 0
Open h m = (c : ℕ) → m.present c ≡ true → h.closed c ≡ false

Open-AllOpen : (h : Hub) (m : Membership) → Represents h m → Open h m → AllOpen h
Open-AllOpen h m rep all c r i = all c (ground (arith, rep.same_members c r))

remove_client-closed : (h : Hub) (d : ℕ) → (remove_client h d).closed ≡ update h.closed d true
unfolding remove_client
remove_client-closed h d = ap (λ f. update f d true) (leave_room-clients h d).1

pub remove_all-closed :
    (dead : List ℕ) (h : Hub) (c : ℕ)
    → (remove_all h dead).closed c ≡ (h.closed c || contains c dead)
unfolding remove_all contains
remove_all-closed [] h c = ground arith
remove_all-closed (d ∷ ds) h c =
    remove_all-closed ds (remove_client h d) c
    ∙ ap (λ (f : ℕ → Bool). f c || contains c ds) (remove_client-closed h d)
    ∙ ground arith

register-closed : (h : Hub) (c : ℕ) → (register h c).closed ≡ h.closed
unfolding register
register-closed h c =
    let room = or_global (h.room_of c) in
    (enter_room-clients (record h { room_of = update h.room_of c room }) c room).1

broadcast-Open :
    (h h' : Hub) (m : Membership) (r message : ℕ)
    → Represents h m
    → Open h m
    → broadcast_to_room h r (some message) ≡ some h'
    → Open h' (promised (is_full h) m (broadcast_event r (some message)))
unfolding promised
broadcast-Open h h' m r message rep all e c here =
    let (sent, dead, f, last) = broadcast-sent h h' r message e in
    let s = send_all-Sent (members h r) h sent message dead (rep.no_repeats r) f in
    let open_still : h.closed c ≡ false = all c (ground (arith, here)) in
    let not_dead : contains c dead ≡ false =
      s.dead_full c ∙ ground (arith, here, rep.same_members c r) in
    ap (λ (x : Hub). x.closed c) last
    ∙ remove_all-closed dead sent c
    ∙ rw (not_dead, s.same_closed, open_still) refl

send_direct-closed :
    (h h' : Hub) (d message c : ℕ) → send_direct h d message ≡ some h' → h'.closed c ≡ h.closed c
unfolding send_direct
send_direct-closed h h' d message c e = ground arith

step-Open :
    (h h' : Hub) (m : Membership) (e : Event)
    → Represents h m
    → Open h m
    → Allowed h e
    → step h e ≡ some h'
    → Open h' (promised (is_full h) m e)
unfolding step promised broadcast_to_room pump
step-Open h h' m (register_event d) rep all allowed e c here =
    ap (λ (x : Hub). x.closed c) (sym (some-injective (register h d) h' e))
    ∙ ap (λ f. f c) (register-closed h d)
    ∙ elim (Bool-cases (d == c)) [
      | inl s ↦ ap h.closed (sym ((==_iff d c).0 s)) ∙ allowed
      | inr s ↦ all c (ground (arith, here, s))
    ]
step-Open h h' m (unregister_event d) rep all allowed e c here =
    ap (λ (x : Hub). x.closed c) (sym (some-injective (remove_client h d) h' e))
    ∙ ap (λ f. f c) (remove_client-closed h d)
    ∙ elim (Bool-cases (d == c)) [
      | inl s ↦ absurd (ground (arith, here, s))
      | inr s ↦ rw s (all c (ground (arith, here, s)))
    ]
step-Open h h' m (join_event d room) rep all allowed e c here =
    ap (λ (x : Hub). x.closed c) (sym (some-injective (move_client_to_room h d room) h' e))
    ∙ ap (λ f. f c) (move_client-closed h d room)
    ∙ elim (Bool-cases (d == c)) [
      | inl s ↦ ap h.closed (sym ((==_iff d c).0 s)) ∙ allowed
      | inr s ↦ all c (ground (arith, here, s))
    ]
step-Open h h' m (broadcast_event r none) rep all allowed e c here =
    ap (λ (x : Hub). x.closed c) (sym (some-injective h h' e)) ∙ all c here
step-Open h h' m (broadcast_event r (some message)) rep all allowed e c here =
    broadcast-Open h h' m r message rep all e c here
step-Open h h' m (direct_event d message) rep all allowed e c here =
    send_direct-closed h h' d message c e ∙ all c here
step-Open h h' m (pump_event d) rep all allowed e c here =
    ap (λ (x : Hub). x.closed c) (sym (some-injective (pump h d) h' e)) ∙ all c here

-- Each event is allowed when it is served.
abbrev pub AllAllowed : Hub → List Event → Type 0
AllAllowed h [] = Unit
AllAllowed h (e ∷ es) = Allowed h e × ((h' : Hub) → step h e ≡ some h' → AllAllowed h' es)

serve_from :
    (es : List Event) (h : Hub) (m : Membership)
    → Represents h m
    → Open h m
    → AllAllowed h es
    → (h' : Hub) × (serve h es ≡ some h')
unfolding serve
serve_from [] h m rep all allowed = (h, refl)
serve_from (e ∷ es) h m rep all allowed =
    let (h1, f) = step_no_panic h e (Open-AllOpen h m rep all) allowed.0 in
    let (h2, g) =
      serve_from es h1 (promised (is_full h) m e) (step-Represents h h1 m e rep f)
        (step-Open h h1 m e rep all allowed.0 f) (allowed.1 h1 f) in
    (h2, rw (f, serve) g)

-- A new hub serves every sequence of events without a panic in which clients register, join and are
-- answered directly only while their channel is open: also those that unregister twice, that join
-- where they are, and that are removed by a broadcast.
pub serve_no_panic :
    (asked : ℕ → ℕ) (es : List Event)
    → AllAllowed (new_hub asked) es
    → (h : Hub) × (serve (new_hub asked) es ≡ some h)
serve_no_panic asked es allowed =
    serve_from es (new_hub asked) (record { room = asked; present = λ c. false })
      (new_hub-Represents asked) (λ c here. absurd (cc)) allowed
