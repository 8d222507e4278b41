-- ===== src/Engine/Play.antt =====
-- PlayPeggingCard and Go of internal/game/cribbage/cribbage.go.
use fifteen_thirty_one_go.Shared.{
  Bool, List, [], err, false, get_elem?, get_or, if◌then◌else◌, ltb, negsuc, none, not, ok, panic,
  pos, remove_at, set, some, suc, true, zero, ℕ, ℤ, ◌%◌, ◌&&◌, ◌++◌, ◌+◌, ◌==◌, ◌∷◌,
}
use fifteen_thirty_one_go.Cards.{Card, value15}
use fifteen_thirty_one_go.Engine.Rounds.{
  add_score, advance_to_next_playable_or_go, award_last, can_play, maybe_finish_round,
  reset_pegging_after_sequence_end,
}
use fifteen_thirty_one_go.Engine.State.{
  Done, Result, State, card_not_in_hand, find_card, has_legal_play, not_in_pegging_stage,
  not_your_turn, pegging, players, stage_eq, would_exceed_31,
}
use fifteen_thirty_one_go.Scoring.Pegging.{PegReason, pegging_score}

unfoldable pub with_value : {A : Type 0} → A → State × Done → State × Result A
with_value a (s, ok _) = (s, ok a)
with_value a (s, err e) = (s, err e)
with_value a (s, panic) = (s, panic)

-- The assignments for a card that is played, found at index i of the hand.
unfoldable pub record_play : State → ℕ → Card → ℕ → List Card → State
record_play s p card i hand =
    let pegged = pegging_score s.pegging_seq card s.pegging_total in
    record (add_score p pegged.points s) {
      pegging_total = pegged.new_total;
      pegging_seq = s.pegging_seq ++ card ∷ [];
      last_play_index = pos p;
      pegging_passed = set s.pegging_passed p false;
      hands = set s.hands p (remove_at i hand);
    }

-- Who plays next.
unfoldable pub pass_turn : ℕ → State → State
pass_turn p s =
    if s.pegging_total == 31
    then advance_to_next_playable_or_go (reset_pegging_after_sequence_end ((p + 1) % players s) s)
    else advance_to_next_playable_or_go
        (record s { current_index = (s.current_index + 1) % players s })

unfoldable pub play_of : State → ℕ → Card → State × Result (ℕ × List PegReason)
unfolding with_value
play_of s p card = elim (get_elem? s.hands p) [
  | none ↦ (s, panic)
  | some hand ↦ elim (find_card card hand) [
    | none ↦ (s, err card_not_in_hand)
    | some i ↦
        let pegged = pegging_score s.pegging_seq card s.pegging_total in
        if ltb 31 (s.pegging_total + value15 card)
        then (s, err would_exceed_31)
        else with_value (pegged.points, pegged.reasons)
            (maybe_finish_round (pass_turn p (record_play s p card i hand)))
  ]
]

unfoldable pub play_pegging_card : State → ℤ → Card → State × Result (ℕ × List PegReason)
unfolding play_of
play_pegging_card s player card =
    if not (stage_eq s.stage pegging) then (s, err not_in_pegging_stage) else elim player [
      | negsuc _ ↦ (s, err not_your_turn)
      | pos p ↦ if not (p == s.current_index) then (s, err not_your_turn) else play_of s p card
    ]

-- `!s.PeggingPassed[i] && s.canPlay(i)` for no i.
unfoldable pub all_passed_loop : ℕ → ℕ → State → Bool
all_passed_loop zero i s = true
all_passed_loop (suc k) i s =
    if not (get_or s.pegging_passed i false) && can_play s (pos i)
    then false
    else all_passed_loop k (i + 1) s

-- The end of a sequence: the point for the last card, unless 31 was hit, and the next lead.
unfoldable pub end_sequence : State → State × ℕ
end_sequence s = elim s.last_play_index [
  | negsuc _ ↦ (
    advance_to_next_playable_or_go
        (reset_pegging_after_sequence_end ((s.dealer_index + 1) % players s) s),
    0,
  )
  | pos i ↦ (
    advance_to_next_playable_or_go
        (reset_pegging_after_sequence_end ((i + 1) % players s) (award_last s)),
    (if not (s.pegging_total == 31) then 1 else 0),
  )
]

unfoldable pub pass : ℕ → State → State
pass p s = record s {
  pegging_passed = set s.pegging_passed p true;
  current_index = (s.current_index + 1) % players s;
}

unfoldable pub after_pass : State → State × Result ℕ
unfolding with_value
after_pass s =
    let (ended, awarded) = end_sequence s in
    if all_passed_loop (players s) 0 s
    then with_value awarded (maybe_finish_round ended)
    else with_value 0 (maybe_finish_round (advance_to_next_playable_or_go s))

unfoldable pub go : State → ℤ → State × Result ℕ
unfolding after_pass
go s player =
    if not (stage_eq s.stage pegging) then (s, err not_in_pegging_stage) else elim player [
      | negsuc _ ↦ (s, err not_your_turn)
      | pos p ↦
          if not (p == s.current_index)
          then (s, err not_your_turn)
          else if can_play s (pos p)
          then (s, err has_legal_play)
          else after_pass (pass p s)
    ]
