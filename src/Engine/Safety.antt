-- ===== src/Engine/Safety.antt =====
-- internal/game/cribbage/cribbage.go: PlayPeggingCard, Go and Discard on well-formed states.
use fifteen_thirty_one_go.Shared.{
  Bool, Bool-cases, List, Option-cases, [], arith, drop, err, false, get_elem?_in, if◌then◌else◌,
  inl, inr, leb, length, length-append, length-drop, length-replicate, length-set, length-take, ltb,
  negsuc, not, ok, panic, pos, remove_at, set, take, true, ℕ, ℤ, ◌%◌, ◌&&◌, ◌*◌, ◌++◌, ◌+◌, ◌<◌,
  ◌==◌, ◌∷◌, ◌≡◌,
}
use fifteen_thirty_one_go.Cards.{Card, value15}
use fifteen_thirty_one_go.Engine.Discarding.{
  complete_crib, discard, discard_of, fill_crib, move_to_crib, note_discard, start_pegging,
}
use fifteen_thirty_one_go.Engine.Invariant.{
  IsSafe, WellFormed, advance-WellFormed, award_last-WellFormed, maybe_finish_round-IsSafe,
  next_player, reset-WellFormed,
}
use fifteen_thirty_one_go.Engine.Play.{
  after_pass, all_passed_loop, end_sequence, go, pass, pass_turn, play_of, play_pegging_card,
  record_play, with_value,
}
use fifteen_thirty_one_go.Engine.Rounds.{
  add_score, advance_to_next_playable_or_go, award_last, can_play, reset_pegging_after_sequence_end,
  score_of,
}
use fifteen_thirty_one_go.Engine.State.{
  Done, Result, State, discard_already_completed, discarding, find_card, invalid_discard_count,
  pegging, players, pop, stage_eq,
}
use fifteen_thirty_one_go.Rules.{crib_size, discard_count}
use fifteen_thirty_one_go.Scoring.Pegging.{pegging_score}

with_value-IsSafe : {A : Type 0} (a : A) (r : State × Done) → IsSafe r → IsSafe (with_value a r)
unfolding with_value
with_value-IsSafe a (s, ok _) h = (h.0, tt)
with_value-IsSafe a (s, err e) h = h
with_value-IsSafe a (s, panic) h = h

pub record_play-WellFormed :
    (s : State) (p : ℕ) (card : Card) (i : ℕ) (hand : List Card)
    → p < players s
    → WellFormed s
    → WellFormed (record_play s p card i hand)
unfolding record_play add_score
record_play-WellFormed s p card i hand h w =
    let pegged = pegging_score s.pegging_seq card s.pegging_total in
    ground (
      arith,
      length-set s.scores p (score_of s p + pegged.points),
      length-set s.pegging_passed p false,
      length-set s.hands p (remove_at i hand),
    )

with_next-WellFormed :
    (c : ℕ) (s : State)
    → WellFormed s
    → WellFormed (record s { current_index = (c + 1) % players s })
with_next-WellFormed c s w = let h = next_player c (players s) w.at_least_two in ground arith

pass_turn-WellFormed : (p : ℕ) (s : State) → WellFormed s → WellFormed (pass_turn p s)
unfolding pass_turn
pass_turn-WellFormed p s w = elim (Bool-cases (s.pegging_total == 31)) [
  | inl e ↦
      rw e
        (advance-WellFormed _ (reset-WellFormed _ s (next_player p (players s) w.at_least_two) w))
  | inr e ↦ rw e (advance-WellFormed _ (with_next-WellFormed s.current_index s w))
]

play_of-IsSafe :
    (s : State) (p : ℕ) (card : Card) → p < players s → WellFormed s → IsSafe (play_of s p card)
unfolding play_of
play_of-IsSafe s p card h w =
    let (hand, eh) = get_elem?_in s.hands p (omega (arith, w.length_hands)) in
    elim (Option-cases (find_card card hand)) [
      | inl e ↦ rw (eh, play_of) (rw (e, play_of) (w, tt))
      | inr (i, e) ↦
          rw (eh, play_of)
            (rw (e, play_of)
              (elim (Bool-cases (ltb 31 (s.pegging_total + value15 card))) [
                | inl over ↦ rw over (w, tt)
                | inr fits ↦ rw fits (
                    with_value-IsSafe _ _ (
                      maybe_finish_round-IsSafe _
                        (pass_turn-WellFormed p _ (record_play-WellFormed s p card i hand h w))))
              ]))
    ]

-- PlayPeggingCard keeps a well-formed state well-formed and does not panic, for any player number
-- and card, also where it returns an error.
pub play_pegging_card-IsSafe :
    (s : State) (player : ℤ) (card : Card) → WellFormed s → IsSafe (play_pegging_card s player card)
unfolding play_pegging_card
play_pegging_card-IsSafe s (negsuc n) card w = ground arith
play_pegging_card-IsSafe s (pos p) card w = elim (Bool-cases (stage_eq s.stage pegging)) [
  | inr e ↦ rw e (w, tt)
  | inl e ↦ rw e (elim (Bool-cases (p == s.current_index)) [
    | inr f ↦ rw f (w, tt)
    | inl f ↦ rw f (play_of-IsSafe s p card (ground (arith, w.current_in)) w)
  ])
]

pub pass-WellFormed : (p : ℕ) (s : State) → WellFormed s → WellFormed (pass p s)
unfolding pass
pass-WellFormed p s w =
    let h = next_player s.current_index (players s) w.at_least_two in
    ground (arith, length-set s.pegging_passed p true)

pub players-award_last : (s : State) → players (award_last s) ≡ players s
unfolding award_last add_score
players-award_last s = ground arith

end_sequence-WellFormed : (s : State) → WellFormed s → WellFormed (end_sequence s).0
unfolding end_sequence
end_sequence-WellFormed s w = by_last s.last_play_index
  where
    lead : (i : ℕ) → (i + 1) % players s < players s
    lead i = next_player i (players s) w.at_least_two

    by_last :
        (l : ℤ)
        → WellFormed (
            let r : State × ℕ = elim l [
              | negsuc _ ↦ (
                advance_to_next_playable_or_go
                    (reset_pegging_after_sequence_end ((s.dealer_index + 1) % players s) s),
                0,
              )
              | pos i ↦ (
                advance_to_next_playable_or_go
                    (reset_pegging_after_sequence_end ((i + 1) % players s) (award_last s)),
                (if not (s.pegging_total == 31) then 1 else 0),
              )
            ] in
            r.0)
    by_last (negsuc _) = advance-WellFormed _ (reset-WellFormed _ s (lead s.dealer_index) w)
    by_last (pos i) = advance-WellFormed _ (
        reset-WellFormed _ (award_last s) (rw (players-award_last s) (lead i))
          (award_last-WellFormed s w))

after_pass-IsSafe : (s : State) → WellFormed s → IsSafe (after_pass s)
unfolding after_pass
after_pass-IsSafe s w = elim (Bool-cases (all_passed_loop (players s) 0 s)) [
  | inl e ↦ rw e (with_value-IsSafe _ _ (maybe_finish_round-IsSafe _ (end_sequence-WellFormed s w)))
  | inr e ↦ rw e (with_value-IsSafe _ _ (maybe_finish_round-IsSafe _ (advance-WellFormed s w)))
]

-- Go keeps a well-formed state well-formed and does not panic, for any player number.
pub go-IsSafe : (s : State) (player : ℤ) → WellFormed s → IsSafe (go s player)
unfolding go
go-IsSafe s (negsuc n) w = ground arith
go-IsSafe s (pos p) w = elim (Bool-cases (stage_eq s.stage pegging)) [
  | inr e ↦ rw e (w, tt)
  | inl e ↦ rw e (elim (Bool-cases (p == s.current_index)) [
    | inr f ↦ rw f (w, tt)
    | inl f ↦ rw f (elim (Bool-cases (can_play s (pos p))) [
      | inl c ↦ rw c (w, tt)
      | inr c ↦ rw c (after_pass-IsSafe (pass p s) (pass-WellFormed p s w))
    ])
  ])
]

with_crib-WellFormed :
    (s : State) (p : ℕ) (hand crib : List Card)
    → WellFormed s
    → WellFormed (record s { hands = set s.hands p hand; crib = crib })
with_crib-WellFormed s p hand crib w = ground (arith, length-set s.hands p hand)

move_to_crib-IsSafe :
    (p : ℕ) (cards : List Card) (s : State)
    → p < players s
    → WellFormed s
    → IsSafe (move_to_crib p cards s)
unfolding move_to_crib
move_to_crib-IsSafe p [] s h w = (w, tt)
move_to_crib-IsSafe p (dc ∷ cards) s h w =
    let (hand, eh) = get_elem?_in s.hands p (omega (arith, w.length_hands)) in
    elim (Option-cases (find_card dc hand)) [
      | inl e ↦ rw (eh, move_to_crib) (rw (e, move_to_crib) (w, tt))
      | inr (i, e) ↦
          rw (eh, move_to_crib)
            (rw (e, move_to_crib)
              (move_to_crib-IsSafe p cards _ h
                (with_crib-WellFormed s p (remove_at i hand) (s.crib ++ dc ∷ []) w)))
    ]

pop-IsSafe : (s : State) → WellFormed s → IsSafe (pop s)
unfolding pop
pop-IsSafe s w = ground arith

length-kept :
    (n : ℕ) (hands kept : List (List Card))
    → length hands ≡ n
    → length kept ≡ n
    → length (take n hands ++ drop n kept) ≡ n
length-kept n hands kept h k =
    omega
      (arith, length-append (take n hands) (drop n kept), length-take n hands, length-drop n kept)

start_pegging-IsSafe : (r : State × Result Card) → IsSafe r → IsSafe (start_pegging r)
unfolding start_pegging
start_pegging-IsSafe (s, ok c) (w, _) =
    let h = next_player s.dealer_index (players s) w.at_least_two in
    ground (
      arith,
      length-replicate (players s) false,
      length-kept (players s) s.hands s.kept_hands w.length_hands w.length_kept,
    )
start_pegging-IsSafe (s, err e) h = h
start_pegging-IsSafe (s, panic) h = h

fill_crib-IsSafe : (r : State × Result Card) → IsSafe r → IsSafe (fill_crib r)
unfolding fill_crib
fill_crib-IsSafe (s, ok c) (w, _) = start_pegging-IsSafe _ (pop-IsSafe _ (ground arith))
fill_crib-IsSafe (s, err e) h = h
fill_crib-IsSafe (s, panic) h = h

complete_crib-IsSafe : (s : State) → WellFormed s → IsSafe (complete_crib s)
unfolding complete_crib
complete_crib-IsSafe s w =
    elim (Bool-cases (players s == 3 && ltb (length s.crib) (crib_size s.rules))) [
      | inl e ↦ rw e (fill_crib-IsSafe (pop s) (pop-IsSafe s w))
      | inr e ↦ rw e (start_pegging-IsSafe (pop s) (pop-IsSafe s w))
    ]

note_discard-IsSafe : (p : ℕ) (r : State × Done) → IsSafe r → IsSafe (note_discard p r)
unfolding note_discard
note_discard-IsSafe p (s, ok _) (w, _) =
    elim (Bool-cases (length s.crib == players s * discard_count s.rules)) [
      | inl e ↦ rw e (complete_crib-IsSafe _ completed)
      | inr e ↦ rw e (completed, tt)
    ]
  where
    completed : WellFormed (record s { discard_completed = set s.discard_completed p true })
    completed = ground (arith, length-set s.discard_completed p true)
note_discard-IsSafe p (s, err e) h = h
note_discard-IsSafe p (s, panic) h = h

discard_of-IsSafe :
    (s : State) (p : ℕ) (cards : List Card) → WellFormed s → IsSafe (discard_of s p cards)
unfolding discard_of
discard_of-IsSafe s p cards w = elim (Bool-cases (leb (players s) p)) [
  | inl e ↦ rw e (w, tt)
  | inr e ↦
      let h : p < players s = ground arith in
      let (completed, ec) =
        get_elem?_in s.discard_completed p (omega (arith, w.length_completed)) in
      rw e (rw (ec, discard_of) (by_completed completed h))
]
  where
    by_completed :
        (b : Bool)
        → p < players s
        → IsSafe (
            if b
            then (s, err discard_already_completed)
            else if not (length cards == discard_count s.rules)
            then (s, err invalid_discard_count)
            else note_discard p (move_to_crib p cards s))
    by_completed true h = (w, tt)
    by_completed false h = elim (Bool-cases (length cards == discard_count s.rules)) [
      | inr e ↦ rw e (w, tt)
      | inl e ↦ rw e (note_discard-IsSafe p _ (move_to_crib-IsSafe p cards s h w))
    ]

-- Discard keeps a well-formed state well-formed and does not panic, for any player number and cards,
-- also where it returns an error.
pub discard-IsSafe :
    (s : State) (player : ℤ) (cards : List Card) → WellFormed s → IsSafe (discard s player cards)
unfolding discard
discard-IsSafe s (negsuc n) cards w = ground arith
discard-IsSafe s (pos p) cards w = elim (Bool-cases (stage_eq s.stage discarding)) [
  | inr e ↦ rw e (w, tt)
  | inl e ↦ rw e (discard_of-IsSafe s p cards w)
]
