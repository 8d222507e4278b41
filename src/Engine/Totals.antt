-- ===== src/Engine/Totals.antt =====
-- internal/game/cribbage/cribbage.go: the running total of the play.
use fifteen_thirty_one_go.Shared.{
  Bool, Bool-cases, List, Option-cases, arith, err, false, get_elem?, inl, inr, leb, ltb, negsuc,
  ok, panic, pos, refl, some, suc, true, zero, ℕ, ℤ, ◌%◌, ◌+◌, ◌-◌, ◌==◌, ◌∙◌, ◌≡◌, ◌≤◌,
}
use fifteen_thirty_one_go.Cards.{Card, value15}
use fifteen_thirty_one_go.Engine.Play.{
  pass_turn, play_of, play_pegging_card, record_play, with_value,
}
use fifteen_thirty_one_go.Engine.Rounds.{
  add_score, advance_loop, advance_to_next_playable_or_go, all_empty_loop, append_round_summary,
  award_last, count_crib, count_dealer, count_hand, count_others, count_round, end_game,
  finish_round, maybe_finish_round, reset_pegging_after_sequence_end, score_of, start_counting,
}
use fifteen_thirty_one_go.Engine.State.{Done, State, find_card, players}
use fifteen_thirty_one_go.Scoring.Longest.{pegging_score-new_total}
use fifteen_thirty_one_go.Scoring.Pegging.{PegReason, pegging_score}

total-advance_loop : (k i : ℕ) (s : State) → (advance_loop k i s).pegging_total ≡ s.pegging_total
unfolding advance_loop
total-advance_loop zero i s = refl
total-advance_loop (suc k) i s = ground (arith, total-advance_loop k (i + 1) s)

total-advance : (s : State) → (advance_to_next_playable_or_go s).pegging_total ≡ s.pegging_total
unfolding advance_to_next_playable_or_go
total-advance s = total-advance_loop (players s) 0 s

total-count_others :
    (k off : ℕ) (cut : Card) (before : List ℕ) (s : State)
    → (count_others k off cut before s).0.pegging_total ≡ s.pegging_total
unfolding count_others count_hand add_score end_game append_round_summary
total-count_others zero off cut before s = refl
total-count_others (suc k) off cut before s =
    let i = (s.dealer_index + off) % players s in
    let s' = count_hand cut i s in
    elim (Bool-cases (leb 121 (score_of s' i))) [
      | inl e ↦ rw e refl
      | inr e ↦ rw e (total-count_others k (off + 1) cut before s')
    ]

total-count_dealer :
    (cut : Card) (before : List ℕ) (r : State × Bool)
    → (count_dealer cut before r).pegging_total ≡ r.0.pegging_total
unfolding count_dealer count_hand count_crib add_score end_game append_round_summary
total-count_dealer cut before (s, true) = refl
total-count_dealer cut before (s, false) =
    let s' = count_hand cut s.dealer_index s in
    let s'' = count_crib cut s' in
    elim (Bool-cases (leb 121 (score_of s' s'.dealer_index))) [
      | inl e ↦ rw e refl
      | inr e ↦ rw e (elim (Bool-cases (leb 121 (score_of s'' s''.dealer_index))) [
        | inl f ↦ rw f refl
        | inr f ↦ rw f refl
      ])
    ]

total-finish_round : (s : State) → (finish_round s).0.pegging_total ≡ s.pegging_total
unfolding finish_round count_round
total-finish_round s = elim (Option-cases s.cut) [
  | inl e ↦ rw (e, finish_round) refl
  | inr (cut, e) ↦
      rw (e, finish_round)
        (total-count_dealer cut s.scores _ ∙ total-count_others (players s - 1) 1 cut s.scores s)
]

total-award_last : (s : State) → (award_last s).pegging_total ≡ s.pegging_total
unfolding award_last add_score
total-award_last s = ground arith

total-maybe_finish_round : (s : State) → (maybe_finish_round s).0.pegging_total ≡ s.pegging_total
unfolding maybe_finish_round start_counting
total-maybe_finish_round s = elim (Bool-cases (all_empty_loop (players s) 0 s)) [
  | inl e ↦ rw e (total-finish_round (start_counting (award_last s)) ∙ total-award_last s)
  | inr e ↦ rw e refl
]

total-with_value :
    {A : Type 0} (a : A) (r : State × Done) → (with_value a r).0.pegging_total ≡ r.0.pegging_total
unfolding with_value
total-with_value a (s, ok _) = refl
total-with_value a (s, err e) = refl
total-with_value a (s, panic) = refl

-- Below 31: a sequence goes on.
abbrev pub IsOpen : State → Type 0
IsOpen s = s.pegging_total ≤ 30

pass_turn-IsOpen : (p : ℕ) (s : State) → s.pegging_total ≤ 31 → IsOpen (pass_turn p s)
unfolding pass_turn reset_pegging_after_sequence_end
pass_turn-IsOpen p s h = elim (Bool-cases (s.pegging_total == 31)) [
  | inl e ↦
      rw e (omega (arith, total-advance (reset_pegging_after_sequence_end ((p + 1) % players s) s)))
  | inr e ↦ rw e (
      ground
        (arith, total-advance (record s { current_index = (s.current_index + 1) % players s })))
]

total-record_play :
    (s : State) (p : ℕ) (card : Card) (i : ℕ) (hand : List Card)
    → (record_play s p card i hand).pegging_total ≡ s.pegging_total + value15 card
unfolding record_play pegging_score add_score
total-record_play s p card i hand = pegging_score-new_total s.pegging_seq card s.pegging_total

play_of-IsOpen : (s : State) (p : ℕ) (card : Card) → IsOpen s → IsOpen (play_of s p card).0
unfolding play_of
play_of-IsOpen s p card h = elim (Option-cases (get_elem? s.hands p)) [
  | inl e ↦ rw (e, play_of) h
  | inr (hand, e) ↦ elim (Option-cases (find_card card hand)) [
    | inl f ↦ rw (e, play_of) (rw f h)
    | inr (i, f) ↦ elim (Bool-cases (ltb 31 (s.pegging_total + value15 card))) [
      | inl g ↦ rw (e, play_of) (rw (f, g) h)
      | inr g ↦ played e f g
    ]
  ]
]
  where
    played :
        {hand : List Card} {i : ℕ}
        → get_elem? s.hands p ≡ some hand
        → find_card card hand ≡ some i
        → ltb 31 (s.pegging_total + value15 card) ≡ false
        → IsOpen (play_of s p card).0
    played {hand = hand} {i = i} e f g =
        let next = record_play s p card i hand in
        let pegged = pegging_score s.pegging_seq card s.pegging_total in
        let turned = pass_turn-IsOpen p next (ground (arith, total-record_play s p card i hand)) in
        let ended = total-maybe_finish_round (pass_turn p next) in
        let valued =
          total-with_value {A = ℕ × List PegReason} (pegged.points, pegged.reasons)
            (maybe_finish_round (pass_turn p next)) in
        rw (e, play_of) (rw (f, g) (omega (arith, turned, ended, valued)))

-- A play never leaves a total of 31 or more: what exceeds 31 is refused, and a total of 31 ends the
-- sequence, so that the next one starts from 0.
pub play_pegging_card-IsOpen :
    (s : State) (player : ℤ) (card : Card) → IsOpen s → IsOpen (play_pegging_card s player card).0
unfolding play_pegging_card
play_pegging_card-IsOpen s (negsuc n) card h = ground arith
play_pegging_card-IsOpen s (pos p) card h = ground (arith, play_of-IsOpen s p card h)
