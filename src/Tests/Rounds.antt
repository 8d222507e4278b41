-- ===== src/Tests/Rounds.antt =====
-- Cards, the deck, scoring and the engine.
use fifteen_thirty_one_go.Shared.{
  List, [], arith, false, inr, none, ok, pos, refl, replicate, true, ℕ, ◌*◌, ◌++◌, ◌+◌, ◌<◌, ◌↔◌,
  ◌∷◌, ◌≡◌, ◌≢◌, ◌≤◌, ◌⊎◌,
}
use fifteen_thirty_one_go.Cards.{clubs, diamonds, hearts, spades}
use fifteen_thirty_one_go.Cards.Text.{card_string, parse_card, parse_card-card_string}
use fifteen_thirty_one_go.Deck.{shuffle}
use fifteen_thirty_one_go.Deck.Shuffled.{shuffle_total}
use fifteen_thirty_one_go.Engine.Conserved.{cards_in, discard-cards}
use fifteen_thirty_one_go.Engine.Dealing.{deal}
use fifteen_thirty_one_go.Engine.Dealt.{IsDealt, deal-IsSafe, deal_lem}
use fifteen_thirty_one_go.Engine.Discarding.{discard}
use fifteen_thirty_one_go.Engine.Invariant.{IsSafe, WellFormed, new_state-WellFormed}
use fifteen_thirty_one_go.Engine.Play.{go, play_pegging_card}
use fifteen_thirty_one_go.Engine.Rounds.{all_empty_loop, maybe_finish_round, score_of}
use fifteen_thirty_one_go.Engine.Safety.{discard-IsSafe, go-IsSafe, play_pegging_card-IsSafe}
use fifteen_thirty_one_go.Engine.State.{State, counting, discarding, finished, new_state}
use fifteen_thirty_one_go.Engine.Totals.{IsOpen, play_pegging_card-IsOpen}
use fifteen_thirty_one_go.Engine.Winner.{HasWinner, maybe_finish_round-decides}
use fifteen_thirty_one_go.Scoring.Consecutive.{in_ranks}
use fifteen_thirty_one_go.Scoring.Fifteens.{score_fifteens, score_fifteens-ways, ways}
use fifteen_thirty_one_go.Scoring.Flush.{IsOneSuit, score_flush, score_flush_lem}
use fifteen_thirty_one_go.Scoring.Longest.{EndsInRun, run_loop_longest}
use fifteen_thirty_one_go.Scoring.Pegging.{is_run, pegging_score, run_loop, window_of}
use fifteen_thirty_one_go.Scoring.Played.{IsLongestRun, Ranked, pegging_score-rules}
use fifteen_thirty_one_go.Tests.Table.{card_of, hand_a, hand_b, in_play, in_play-WellFormed}

parse_card-card_string_example :
    parse_card (card_string (card_of 10 hearts)) ≡ ok (card_of 10 hearts)
parse_card-card_string_example =
    parse_card-card_string (card_of 10 hearts) (omega arith) (omega arith)

shuffle_total_example : (shuffle (hand_a ++ hand_b) (7 ∷ 0 ∷ 1 ∷ [])).1 ≡ ok tt
shuffle_total_example =
    shuffle_total (hand_a ++ hand_b) (7 ∷ 0 ∷ 1 ∷ []) (omega arith) (omega arith)

score_fifteens-ways_example :
    score_fifteens (card_of 11 diamonds ∷ hand_a ++ hand_b)
    ≡ 2 * ways 15 (card_of 11 diamonds ∷ hand_a ++ hand_b)
score_fifteens-ways_example = score_fifteens-ways (card_of 11 diamonds ∷ hand_a ++ hand_b)

-- A five on a five and a ten.
on_a_pair : Ranked ((card_of 10 clubs ∷ card_of 5 hearts ∷ []) ++ card_of 5 spades ∷ [])
unfolding in_ranks
on_a_pair r there = ground arith

pegging_score-rules_example :
    let r = pegging_score (card_of 10 clubs ∷ card_of 5 hearts ∷ []) (card_of 5 spades) 15 in
    (r.new_total ≡ 20)
    × ((n : ℕ) × IsLongestRun n (card_of 10 clubs ∷ card_of 5 hearts ∷ card_of 5 spades ∷ [])
        × (r.points ≡ 0 + 0 + (1 + 1) * 1 + n))
pegging_score-rules_example =
    pegging_score-rules (card_of 10 clubs ∷ []) (card_of 5 hearts ∷ []) (card_of 5 spades) 15
      (refl, tt) (inr ([], card_of 10 clubs, refl, λ e. absurd (omega arith))) (omega arith)
      on_a_pair

-- Four, six, five.
run_loop_longest_example :
    let last = card_of 4 clubs ∷ card_of 6 spades ∷ card_of 5 hearts ∷ [] in
    let found = run_loop 3 last in
    ((found ≡ 0) ⊎ ((3 ≤ found) × (found ≤ 3) × EndsInRun found last))
    × ((m : ℕ) → 3 ≤ m → found < m → m ≤ 3 → is_run (window_of m last) ≡ false)
run_loop_longest_example =
    run_loop_longest 3 (card_of 4 clubs ∷ card_of 6 spades ∷ card_of 5 hearts ∷ [])

score_flush_lem_example :
    let hand = card_of 2 clubs ∷ card_of 4 clubs ∷ card_of 9 clubs ∷ card_of 12 clubs ∷ [] in
    let cut = card_of 5 spades in
    ((score_flush hand cut false ≡ 5) ↔ IsOneSuit spades hand)
    × ((score_flush hand cut false ≡ 4)
        ↔ ((false ≡ false) × IsOneSuit clubs hand × (spades ≢ clubs)))
    × (score_flush hand cut false ≢ 0
        → (score_flush hand cut false ≡ 4) ⊎ (score_flush hand cut false ≡ 5))
score_flush_lem_example =
    score_flush_lem (card_of 2 clubs) (card_of 4 clubs) (card_of 9 clubs) (card_of 12 clubs)
      (card_of 5 spades) false

-- The five is played on the ten.
play_pegging_card-IsSafe_example : IsSafe (play_pegging_card in_play (pos 0) (card_of 5 spades))
play_pegging_card-IsSafe_example =
    play_pegging_card-IsSafe in_play (pos 0) (card_of 5 spades) in_play-WellFormed

play_pegging_card-IsOpen_example : IsOpen (play_pegging_card in_play (pos 0) (card_of 5 spades)).0
play_pegging_card-IsOpen_example =
    play_pegging_card-IsOpen in_play (pos 0) (card_of 5 spades) (omega arith)

-- At 28 neither card of the first player can be played.
abbrev at_28 : State
at_28 = record in_play { pegging_total = 28 }

at_28-WellFormed : WellFormed at_28
at_28-WellFormed = record {
  at_least_two = omega arith;
  at_most_four = omega arith;
  dealer_in = omega arith;
  current_in = omega arith;
  last_in = omega arith;
  length_hands = refl;
  length_kept = refl;
  length_scores = refl;
  length_completed = refl;
  length_passed = λ _. refl;
}

go-IsSafe_example : IsSafe (go at_28 (pos 0))
go-IsSafe_example = go-IsSafe at_28 (pos 0) at_28-WellFormed

-- A hand is dealt to three players with 51 draws.
abbrev pub draws_51 : List ℕ
draws_51 = replicate 51 17

deal_lem_example :
    let r = deal draws_51 (new_state (pos 3)) in
    (r.1 ≡ ok tt) × WellFormed r.0 × IsDealt (new_state (pos 3)) r.0
deal_lem_example =
    deal_lem draws_51 (new_state (pos 3)) (new_state-WellFormed (pos 3)) (omega arith)

discard-IsSafe_example : IsSafe (
    discard
      (deal draws_51 (new_state (pos 2))).0
      (pos 0)
      (card_of 5 spades ∷ card_of 9 hearts ∷ []))
discard-IsSafe_example =
    discard-IsSafe (deal draws_51 (new_state (pos 2))).0 (pos 0)
      (card_of 5 spades ∷ card_of 9 hearts ∷ [])
      (deal-IsSafe draws_51 (new_state (pos 2)) (new_state-WellFormed (pos 2))).0

-- Before the discards of the first player are complete there is no cut.
abbrev in_discards : State
in_discards = record in_play {
  stage = discarding;
  cut = none;
  hands = (hand_a ++ card_of 2 spades ∷ []) ∷ hand_b ∷ [];
  discard_completed = false ∷ true ∷ [];
  crib = card_of 1 spades ∷ card_of 8 spades ∷ [];
}

discard-cards_example :
    cards_in (card_of 9 hearts) (discard in_discards (pos 0) hand_a).0
    ≡ cards_in (card_of 9 hearts) in_discards
discard-cards_example = discard-cards (card_of 9 hearts) in_discards (pos 0) hand_a refl

-- The last card has been played.
abbrev played_out : State
played_out = record in_play { hands = [] ∷ [] ∷ []; scores = 118 ∷ 90 ∷ [] }

played_out-WellFormed : WellFormed played_out
played_out-WellFormed = record {
  at_least_two = omega arith;
  at_most_four = omega arith;
  dealer_in = omega arith;
  current_in = omega arith;
  last_in = omega arith;
  length_hands = refl;
  length_kept = refl;
  length_scores = refl;
  length_completed = refl;
  length_passed = λ _. refl;
}

maybe_finish_round-decides_example :
    let t = (maybe_finish_round played_out).0 in
    ((t.stage ≡ finished) × HasWinner t)
    ⊎ ((t.stage ≡ counting) × ((j : ℕ) → j < 2 → score_of t j < 121))
unfolding all_empty_loop
maybe_finish_round-decides_example =
    maybe_finish_round-decides played_out (card_of 11 diamonds) played_out-WellFormed refl refl
