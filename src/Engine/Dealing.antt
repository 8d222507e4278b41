-- ===== src/Engine/Dealing.antt =====
-- Deal: a new deck is shuffled and dealt, and the state is set for the discards.
use fifteen_thirty_one_go.Shared.{
  List, Outcome, [], err, false, get_elem?, if◌then◌else◌, ltb, negsuc, none, ok, panic, replicate,
  set, some, suc, zero, ℕ, ◌%◌, ◌++◌, ◌+◌, ◌||◌, ◌∷◌,
}
use fifteen_thirty_one_go.Cards.{Card}
use fifteen_thirty_one_go.Deck.{ShuffleError, new_standard_deck, shuffle}
use fifteen_thirty_one_go.Engine.State.{
  Done, Result, State, discarding, invalid_player_count, players, pop, shuffle_failed,
}
use fifteen_thirty_one_go.Rules.{hand_size}

unfoldable pub and_then : State × Done → (State → State × Done) → State × Done
and_then (s, ok _) next = next s
and_then (s, err e) next = (s, err e)
and_then (s, panic) next = (s, panic)

-- `s.Hands[p] = append(s.Hands[p], c)` for a card from pop.
unfoldable pub take_card : ℕ → State × Result Card → State × Done
take_card p (s, ok c) = elim (get_elem? s.hands p) [
  | none ↦ (s, panic)
  | some hand ↦ (record s { hands = set s.hands p (hand ++ c ∷ []) }, ok tt)
]
take_card p (s, err e) = (s, err e)
take_card p (s, panic) = (s, panic)

-- The inner loop of the deal, from the player p.
unfoldable pub deal_players : ℕ → ℕ → State → State × Done
unfolding and_then take_card
deal_players zero p s = (s, ok tt)
deal_players (suc k) p s = and_then (take_card p (pop s)) (λ t. deal_players k (p + 1) t)

unfoldable pub deal_rounds : ℕ → State → State × Done
unfolding and_then
deal_rounds zero s = (s, ok tt)
deal_rounds (suc rounds) s = and_then (deal_players (players s) 0 s) (λ t. deal_rounds rounds t)

-- `s.Hands[i] = s.Hands[i][:0]` for the first players.
unfoldable pub clear_hands : ℕ → List (List Card) → List (List Card)
clear_hands zero hands = hands
clear_hands (suc k) [] = []
clear_hands (suc k) (hand ∷ hands) = [] ∷ clear_hands k hands

-- The assignments after the loops.
unfoldable pub start_hand : State → State × Done
start_hand s = (
  record s {
    crib = [];
    cut = none;
    count_summary = none;
    ready_next_hand = [];
    stage = discarding;
    kept_hands = replicate (players s) [];
    pegging_passed = replicate (players s) false;
    pegging_seq = [];
    pegging_total = 0;
    last_play_index = negsuc 0;
    discard_completed = replicate (players s) false;
    current_index = (s.dealer_index + 1) % players s;
  },
  ok tt,
)

unfoldable pub after_shuffle : State → List Card × Outcome ShuffleError (Unit {0}) → State × Done
unfolding deal_rounds clear_hands
after_shuffle s (deck, err _) = (record s { deck = deck }, err shuffle_failed)
after_shuffle s (deck, panic) = (record s { deck = deck }, panic)
after_shuffle s (deck, ok _) =
    and_then
      (deal_rounds (hand_size s.rules)
        (record s { deck = deck; hands = clear_hands (players s) s.hands }))
      start_hand

unfoldable pub deal : List ℕ → State → State × Done
unfolding after_shuffle deal_players
deal draws s =
    if ltb (players s) 2 || ltb 4 (players s)
    then (s, err invalid_player_count)
    else after_shuffle s (shuffle new_standard_deck draws)
