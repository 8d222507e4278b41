-- ===== src/Engine/Conserved.antt =====
-- Discard of internal/game/cribbage/cribbage.go: the cards of a state.
use fifteen_thirty_one_go.Shared.{
  Bool, Bool-cases, List, Option, Option-cases, [], arith, err, false, get_elem?, if◌then◌else◌,
  inl, inr, leb, length, ltb, negsuc, none, not, ok, panic, pos, refl, remove_at, set, some, true,
  ℕ, ℤ, ◌&&◌, ◌*◌, ◌++◌, ◌+◌, ◌==◌, ◌∙◌, ◌∷◌, ◌≡◌,
}
use fifteen_thirty_one_go.Cards.{Card}
use fifteen_thirty_one_go.Deck.Counting.{
  count, count-append, count-cons, count-nil, count-remove_at, count_all, count_all-set, count_one,
  one_if,
}
use fifteen_thirty_one_go.Engine.Discarding.{
  complete_crib, discard, discard_of, fill_crib, move_to_crib, note_discard, start_pegging,
}
use fifteen_thirty_one_go.Engine.State.{
  Done, Result, State, discard_already_completed, discarding, find_card, find_card-get_elem?,
  invalid_discard_count, players, pop, stage_eq,
}
use fifteen_thirty_one_go.Rules.{crib_size, discard_count}

abbrev pub count_cut : Card → Option Card → ℕ
count_cut c none = 0
count_cut c (some d) = one_if c d

-- How often a card is in the deck, the hands and the crib, or is the cut.
abbrev pub cards_in : Card → State → ℕ
cards_in c s = count c s.deck + count_all c s.hands + count c s.crib + count_cut c s.cut

-- With the card that an operation hands out.
held : Card → State × Result Card → ℕ
held c (s, ok d) = cards_in c s + one_if c d
held c (s, err e) = cards_in c s
held c (s, panic) = cards_in c s

pop-held : (c : Card) (s : State) → held c (pop s) ≡ cards_in c s
unfolding pop held
pop-held c s = from s.deck refl
  where
    from : (deck : List Card) → s.deck ≡ deck → held c (pop s) ≡ cards_in c s
    from [] e = rw (e, pop) (ground (arith, count-nil c))
    from (d ∷ rest) e = rw (e, pop) (omega (arith, count-cons c d rest))

start_pegging-held :
    (c : Card) (r : State × Result Card)
    → r.0.cut ≡ none
    → cards_in c (start_pegging r).0 ≡ held c r
unfolding start_pegging held
start_pegging-held c (s, ok d) h = rw h (omega arith)
start_pegging-held c (s, err e) h = refl
start_pegging-held c (s, panic) h = refl

cut-pop : (s : State) → (pop s).0.cut ≡ s.cut
unfolding pop
cut-pop s = ground arith

fill_crib-held :
    (c : Card) (r : State × Result Card) → r.0.cut ≡ none → cards_in c (fill_crib r).0 ≡ held c r
unfolding fill_crib held
fill_crib-held c (s, ok d) h =
    let s' : State = record s { crib = s.crib ++ d ∷ [] } in
    omega (
      arith,
      start_pegging-held c (pop s') (cut-pop s' ∙ h),
      pop-held c s',
      count-append c s.crib (d ∷ []),
      count_one c d,
    )
fill_crib-held c (s, err e) h = refl
fill_crib-held c (s, panic) h = refl

complete_crib-cards :
    (c : Card) (s : State) → s.cut ≡ none → cards_in c (complete_crib s).0 ≡ cards_in c s
unfolding complete_crib
complete_crib-cards c s h =
    elim (Bool-cases (players s == 3 && ltb (length s.crib) (crib_size s.rules))) [
      | inl e ↦ rw e (fill_crib-held c (pop s) (cut-pop s ∙ h) ∙ pop-held c s)
      | inr e ↦ rw e (start_pegging-held c (pop s) (cut-pop s ∙ h) ∙ pop-held c s)
    ]

-- The cards are the same, and the cut is as it was.
Moved : Card → State → State → Type 0
Moved c s t = (cards_in c t ≡ cards_in c s) × (t.cut ≡ s.cut)

to_crib :
    (c dc : Card) (p i : ℕ) (s : State) (hand : List Card)
    → get_elem? s.hands p ≡ some hand
    → find_card dc hand ≡ some i
    → cards_in c (record s { hands = set s.hands p (remove_at i hand); crib = s.crib ++ dc ∷ [] })
      ≡ cards_in c s
to_crib c dc p i s hand e f = omega (
  arith,
  count_all-set c s.hands p hand (remove_at i hand) e,
  count-remove_at c hand i dc (find_card-get_elem? dc hand i f),
  count-append c s.crib (dc ∷ []),
  count_one c dc,
)

move_to_crib-Moved :
    (c : Card) (p : ℕ) (cards : List Card) (s : State) → Moved c s (move_to_crib p cards s).0
unfolding move_to_crib Moved
move_to_crib-Moved c p [] s = (refl, refl)
move_to_crib-Moved c p (dc ∷ cards) s = elim (Option-cases (get_elem? s.hands p)) [
  | inl e ↦ rw (e, move_to_crib) (refl, refl)
  | inr (hand, e) ↦ elim (Option-cases (find_card dc hand)) [
    | inl f ↦ rw (e, move_to_crib) (rw (f, move_to_crib) (refl, refl))
    | inr (i, f) ↦
        let s' : State = record s {
          hands = set s.hands p (remove_at i hand);
          crib = s.crib ++ dc ∷ [];
        } in
        let (kept, cut) = move_to_crib-Moved c p cards s' in
        rw (e, move_to_crib) (rw (f, move_to_crib) (kept ∙ to_crib c dc p i s hand e f, cut))
  ]
]

note_discard-cards :
    (c : Card) (p : ℕ) (r : State × Done)
    → r.0.cut ≡ none
    → cards_in c (note_discard p r).0 ≡ cards_in c r.0
unfolding note_discard
note_discard-cards c p (s, ok _) h =
    let s' : State = record s { discard_completed = set s.discard_completed p true } in
    elim (Bool-cases (length s.crib == players s * discard_count s.rules)) [
      | inl e ↦ rw e (complete_crib-cards c s' h)
      | inr e ↦ rw e refl
    ]
note_discard-cards c p (s, err e) h = refl
note_discard-cards c p (s, panic) h = refl

discard_of-cards :
    (c : Card) (s : State) (p : ℕ) (cards : List Card)
    → s.cut ≡ none
    → cards_in c (discard_of s p cards).0 ≡ cards_in c s
unfolding discard_of Moved
discard_of-cards c s p cards h =
    let (kept, cut) = move_to_crib-Moved c p cards s in
    let noted = note_discard-cards c p (move_to_crib p cards s) (cut ∙ h) ∙ kept in
    elim (Bool-cases (leb (players s) p)) [
      | inl e ↦ rw e refl
      | inr e ↦ rw e (by_completed noted (get_elem? s.discard_completed p) refl)
    ]
  where
    by_completed :
        cards_in c (note_discard p (move_to_crib p cards s)).0 ≡ cards_in c s
        → (x : Option Bool) → get_elem? s.discard_completed p ≡ x
        → cards_in c
            (elim x as (λ _. State × Done) [
              | none ↦ (s, panic)
              | some completed ↦
                  if completed
                  then (s, err discard_already_completed)
                  else if not (length cards == discard_count s.rules)
                  then (s, err invalid_discard_count)
                  else note_discard p (move_to_crib p cards s)
            ]).0
          ≡ cards_in c s
    by_completed noted none e = refl
    by_completed noted (some true) e = refl
    by_completed noted (some false) e = elim (Bool-cases (length cards == discard_count s.rules)) [
      | inl f ↦ rw f noted
      | inr f ↦ rw f refl
    ]

-- Before the cut, Discard neither loses a card nor makes one up: in the deck, the hands, the crib and
-- the cut together every card is there as often as before, for any player number and cards, also
-- where an error stops it half-way.
pub discard-cards :
    (c : Card) (s : State) (player : ℤ) (cards : List Card)
    → s.cut ≡ none
    → cards_in c (discard s player cards).0 ≡ cards_in c s
unfolding discard
discard-cards c s (negsuc n) cards h = ground arith
discard-cards c s (pos p) cards h = elim (Bool-cases (stage_eq s.stage discarding)) [
  | inr e ↦ rw e refl
  | inl e ↦ rw e (discard_of-cards c s p cards h)
]
