-- ===== src/Engine/Discarding.antt =====
-- Discard: a player gives cards to the crib; with the last discard the cut is turned and the play
-- starts.
use fifteen_thirty_one_go.Shared.{
  List, [], drop, err, false, get_elem?, if◌then◌else◌, leb, length, ltb, negsuc, none, not, ok,
  panic, pos, remove_at, replicate, set, some, take, true, ℕ, ℤ, ◌%◌, ◌&&◌, ◌*◌, ◌++◌, ◌+◌, ◌==◌,
  ◌∷◌,
}
use fifteen_thirty_one_go.Cards.{Card}
use fifteen_thirty_one_go.Engine.State.{
  Done, Result, State, discard_already_completed, discard_card_not_in_hand, discarding, find_card,
  invalid_discard_count, invalid_player, not_in_discard_stage, pegging, players, pop, stage_eq,
}
use fifteen_thirty_one_go.Rules.{crib_size, discard_count}

-- The loop over the discarded cards. An error leaves the cards before it in the crib.
unfoldable pub move_to_crib : ℕ → List Card → State → State × Done
move_to_crib p [] s = (s, ok tt)
move_to_crib p (dc ∷ cards) s = elim (get_elem? s.hands p) [
  | none ↦ (s, panic)
  | some hand ↦ elim (find_card dc hand) [
    | none ↦ (s, err discard_card_not_in_hand)
    | some i ↦
        move_to_crib p cards
          (record s { hands = set s.hands p (remove_at i hand); crib = s.crib ++ dc ∷ [] })
  ]
]

-- `s.Cut = &cut` and the assignments below it. KeptHands takes the place of the hands one by one.
unfoldable pub start_pegging : State × Result Card → State × Done
start_pegging (s, ok c) = (
  record s {
    cut = some c;
    stage = pegging;
    count_summary = none;
    pegging_total = 0;
    pegging_seq = [];
    pegging_passed = replicate (players s) false;
    last_play_index = negsuc 0;
    discard_completed = replicate (players s) false;
    kept_hands = take (players s) s.hands ++ drop (players s) s.kept_hands;
    current_index = (s.dealer_index + 1) % players s;
  },
  ok tt,
)
start_pegging (s, err e) = (s, err e)
start_pegging (s, panic) = (s, panic)

-- The card of the deck that completes the crib of three players.
unfoldable pub fill_crib : State × Result Card → State × Done
unfolding start_pegging
fill_crib (s, ok c) = start_pegging (pop (record s { crib = s.crib ++ c ∷ [] }))
fill_crib (s, err e) = (s, err e)
fill_crib (s, panic) = (s, panic)

unfoldable pub complete_crib : State → State × Done
unfolding fill_crib
complete_crib s =
    if players s == 3 && ltb (length s.crib) (crib_size s.rules)
    then fill_crib (pop s)
    else start_pegging (pop s)

-- After the loop.
unfoldable pub note_discard : ℕ → State × Done → State × Done
note_discard p (s, ok _) =
    let s' = record s { discard_completed = set s.discard_completed p true } in
    if length s'.crib == players s' * discard_count s'.rules then complete_crib s' else (s', ok tt)
note_discard p (s, err e) = (s, err e)
note_discard p (s, panic) = (s, panic)

unfoldable pub discard_of : State → ℕ → List Card → State × Done
discard_of s p cards =
    if leb (players s) p then (s, err invalid_player) else elim (get_elem? s.discard_completed p) [
      | none ↦ (s, panic)
      | some completed ↦
          if completed
          then (s, err discard_already_completed)
          else if not (length cards == discard_count s.rules)
          then (s, err invalid_discard_count)
          else note_discard p (move_to_crib p cards s)
    ]

unfoldable pub discard : State → ℤ → List Card → State × Done
unfolding discard_of
discard s player cards =
    if not (stage_eq s.stage discarding)
    then (s, err not_in_discard_stage)
    else elim player [ negsuc _ ↦ (s, err invalid_player) | pos p ↦ discard_of s p cards ]
