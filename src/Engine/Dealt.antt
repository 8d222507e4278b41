-- ===== src/Engine/Dealt.antt =====
-- Deal of internal/game/cribbage/cribbage.go: where the cards of a new deck go.
use fifteen_thirty_one_go.Shared.{
  List, Outcome, [], ap, arith, err, false, get_elem?, get_elem?_bound, get_elem?_in, get_or,
  get_or-replicate, get_or-set, get_or_of, if◌then◌else◌, leb, length, length-append,
  length-replicate, length-set, ltb, ok, panic, refl, replicate, set, some, suc, zero, ℕ, ◌%◌, ◌&&◌,
  ◌*◌, ◌++◌, ◌+◌, ◌<◌, ◌||◌, ◌∙◌, ◌∷◌, ◌≡◌, ◌≢◌, ◌≤◌,
}
use fifteen_thirty_one_go.Cards.{Card}
use fifteen_thirty_one_go.Deck.{ShuffleError, new_standard_deck, shuffle}
use fifteen_thirty_one_go.Deck.Counting.{
  SameCards, count, count-append, count-cons, count_all, count_all-set, count_one,
}
use fifteen_thirty_one_go.Deck.Shuffled.{
  length-shuffle, shuffle-SameCards, shuffle_no_panic, shuffle_total,
}
use fifteen_thirty_one_go.Deck.Standard.{count-new_standard_deck, is_real, length-new_standard_deck}
use fifteen_thirty_one_go.Engine.Dealing.{
  after_shuffle, and_then, clear_hands, deal, deal_players, deal_rounds, start_hand, take_card,
}
use fifteen_thirty_one_go.Engine.Invariant.{IsSafe, WellFormed, next_player}
use fifteen_thirty_one_go.Engine.Rounds.{hand_of}
use fifteen_thirty_one_go.Engine.State.{State, discarding, players, pop}
use fifteen_thirty_one_go.Rules.{hand_size, hand_size-discard_count}

-- The cards that are in the deck and in the hands.
abbrev cards_of : Card → State → ℕ
cards_of c s = count c s.deck + count_all c s.hands

take_card-pop :
    (s : State) (p : ℕ) (c : Card) (rest hand : List Card)
    → s.deck ≡ c ∷ rest
    → get_elem? s.hands p ≡ some hand
    → take_card p (pop s)
      ≡ (record s { deck = rest; hands = set s.hands p (hand ++ c ∷ []) }, ok tt)
unfolding take_card pop
take_card-pop s p c rest hand e h = ground arith

-- The inner loop has dealt one card to each of the players from p on.
record Served (k p : ℕ) (s t : State) : Type 0 where
  length_deck : length t.deck + k ≡ length s.deck
  length_hands : length t.hands ≡ length s.hands
  same_cards : (c : Card) → cards_of c t ≡ cards_of c s
  one_more :
      (q : ℕ)
      → length (hand_of t q) ≡ length (hand_of s q) + (if leb p q && ltb q (p + k) then 1 else 0)

Served-cons :
    (k p : ℕ) (s t : State) (c : Card) (rest hand : List Card)
    → s.deck ≡ c ∷ rest
    → get_elem? s.hands p ≡ some hand
    → Served k (p + 1) (record s { deck = rest; hands = set s.hands p (hand ++ c ∷ []) }) t
    → Served (suc k) p s t
Served-cons k p s t c rest hand e h v = record {
  length_deck = omega (arith, v.length_deck, ap length e);
  length_hands = omega (arith, v.length_hands, length-set s.hands p (hand ++ c ∷ []));
  same_cards = λ d. omega (
    arith,
    v.same_cards d,
    ap (count d) e,
    count-cons d c rest,
    count-append d hand (c ∷ []),
    count_one d c,
    count_all-set d s.hands p hand (hand ++ c ∷ []) h,
  );
  one_more = λ q. ground (
    arith,
    v.one_more q,
    get_or-set s.hands p q (hand ++ c ∷ []) [] (get_elem?_bound s.hands p h),
    get_or_of s.hands p [] h,
    length-append hand (c ∷ []),
  );
}

deal_players_lem :
    (k p : ℕ) (s : State)
    → k ≤ length s.deck
    → p + k ≤ length s.hands
    → (deck : List Card) × (hands : List (List Card)) × (deal_players k p s
        ≡ (record s { deck = deck; hands = hands }, ok tt))
      × Served k p s (record s { deck = deck; hands = hands })
unfolding deal_players
deal_players_lem zero p s h i = (
  s.deck,
  s.hands,
  refl,
  record {
    length_deck = omega arith;
    length_hands = refl;
    same_cards = λ c. refl;
    one_more = λ q. ground arith;
  },
)
deal_players_lem (suc k) p s h i = by_deck s.deck refl (λ t. deal_players_lem k (p + 1) t)
  where
    by_deck :
        (deck : List Card)
        → s.deck ≡ deck
        → ((t : State)
            → k ≤ length t.deck
            → p + 1 + k ≤ length t.hands
            → (deck : List Card) × (hands : List (List Card)) × (deal_players k (p + 1) t
                ≡ (record t { deck = deck; hands = hands }, ok tt))
              × Served k (p + 1) t (record t { deck = deck; hands = hands }))
        → (deck : List Card) × (hands : List (List Card)) × (deal_players (suc k) p s
            ≡ (record s { deck = deck; hands = hands }, ok tt))
          × Served (suc k) p s (record s { deck = deck; hands = hands })
    by_deck [] e ih = absurd (omega (arith, ap length e))
    by_deck (c ∷ rest) e ih =
        let (hand, eh) = get_elem?_in s.hands p (omega arith) in
        let dealt : State = record s { deck = rest; hands = set s.hands p (hand ++ c ∷ []) } in
        let (deck, hands, done, served) =
          ih dealt (omega (arith, ap length e))
            (omega (arith, length-set s.hands p (hand ++ c ∷ []))) in
        (
          deck,
          hands,
          rw (take_card-pop s p c rest hand e eh) done,
          Served-cons k p s _ c rest hand e eh served,
        )

-- All rounds of the deal, to all players.
record DealtRounds (rounds : ℕ) (s t : State) : Type 0 where
  length_deck : length t.deck + rounds * players s ≡ length s.deck
  length_hands : length t.hands ≡ length s.hands
  same_cards : (c : Card) → cards_of c t ≡ cards_of c s
  more : (q : ℕ) → q < players s → length (hand_of t q) ≡ length (hand_of s q) + rounds

DealtRounds-suc :
    (rounds : ℕ) (s t u : State)
    → players t ≡ players s
    → Served (players s) 0 s t
    → DealtRounds rounds t u
    → DealtRounds (suc rounds) s u
DealtRounds-suc rounds s t u e v d = record {
  length_deck = grind (arith, v.length_deck, d.length_deck);
  length_hands = omega (arith, v.length_hands, d.length_hands);
  same_cards = λ c. omega (arith, v.same_cards c, d.same_cards c);
  more = λ q h. ground (arith, v.one_more q, d.more q);
}

deal_rounds_lem :
    (rounds : ℕ) (s : State)
    → length s.hands ≡ players s
    → rounds * players s ≤ length s.deck
    → (deck : List Card) × (hands : List (List Card)) × (deal_rounds rounds s
        ≡ (record s { deck = deck; hands = hands }, ok tt))
      × DealtRounds rounds s (record s { deck = deck; hands = hands })
unfolding deal_rounds
deal_rounds_lem zero s h i = (
  s.deck,
  s.hands,
  refl,
  record {
    length_deck = omega arith;
    length_hands = refl;
    same_cards = λ c. refl;
    more = λ q k. omega arith;
  },
)
deal_rounds_lem (suc rounds) s h i =
    let (deck, hands, done, served) =
      deal_players_lem (players s) 0 s (grind arith) (omega arith) in
    let t : State = record s { deck = deck; hands = hands } in
    let (deck', hands', done', dealt) =
      deal_rounds_lem rounds t (omega (arith, served.length_hands))
        (grind (arith, served.length_deck)) in
    (deck', hands', rw done done', DealtRounds-suc rounds s t _ refl served dealt)

clear_hands-replicate :
    (n : ℕ) (hands : List (List Card)) → length hands ≡ n → clear_hands n hands ≡ replicate n []
unfolding clear_hands
clear_hands-replicate zero [] h = refl
clear_hands-replicate zero (x ∷ hands) h = absurd (omega arith)
clear_hands-replicate (suc n) [] h = absurd (omega arith)
clear_hands-replicate (suc n) (x ∷ hands) h =
    ap (◌∷◌ []) (clear_hands-replicate n hands (omega arith))

count_all-replicate : (c : Card) (n : ℕ) → count_all c (replicate n []) ≡ 0
unfolding count_all count
count_all-replicate c zero = refl
count_all-replicate c (suc n) = omega (arith, count_all-replicate c n)

-- What the state holds once a hand is dealt.
pub record IsDealt (s t : State) : Type 0 where
  pub in_discard_stage : t.stage ≡ discarding
  pub whole_deck : (c : Card) → count c t.deck + count_all c t.hands ≡ (if is_real c then 1 else 0)
  pub full_hands : (q : ℕ) → q < players s → length (hand_of t q) ≡ hand_size s.rules
  pub rest_of_deck : length t.deck + hand_size s.rules * players s ≡ 52
  pub empty_crib : t.crib ≡ []
  pub same_dealer : t.dealer_index ≡ s.dealer_index
  pub left_of_dealer : t.current_index ≡ (s.dealer_index + 1) % players s
  pub same_scores : t.scores ≡ s.scores

start_hand-WellFormed : (s : State) → WellFormed s → WellFormed (start_hand s).0
unfolding start_hand and_then
start_hand-WellFormed s w =
    let h = next_player s.dealer_index (players s) w.at_least_two in
    let e : length (replicate (players s) []) ≡ players s =
      length-replicate {A = List Card} (players s) [] in
    ground (arith, e, length-replicate (players s) false)

after_shuffle_ok :
    (s : State) (r : List Card × Outcome ShuffleError (Unit {0}))
    → r.1 ≡ ok tt
    → after_shuffle s r
      ≡ and_then
          (deal_rounds
            (hand_size s.rules)
            (record s { deck = r.0; hands = clear_hands (players s) s.hands }))
          start_hand
unfolding after_shuffle
after_shuffle_ok s (deck, ok _) h = refl
after_shuffle_ok s (deck, err e) h = cc
after_shuffle_ok s (deck, panic) h = cc

-- The state when the hands are emptied and the deck is new.
abbrev cleared : State → List Card → State
cleared s deck = record s { deck = deck; hands = clear_hands (players s) s.hands }

with_table-WellFormed :
    (s : State) (deck : List Card) (hands : List (List Card))
    → length hands ≡ players s
    → WellFormed s
    → WellFormed (record s { deck = deck; hands = hands })
with_table-WellFormed s deck hands h w = ground arith

-- Dealing to the players of a well-formed state from a deck of 52 cards.
deal_from_lem :
    (s : State) (deck : List Card)
    → WellFormed s
    → SameCards deck new_standard_deck
    → length deck ≡ 52
    → let r = and_then (deal_rounds (hand_size s.rules) (cleared s deck)) start_hand in
      (r.1 ≡ ok tt) × WellFormed r.0 × IsDealt s r.0
unfolding start_hand and_then
deal_from_lem s deck w same size =
    let n = players s in
    let empty = clear_hands-replicate n s.hands w.length_hands in
    let places : length (clear_hands n s.hands) ≡ n =
      ap length empty ∙ length-replicate {A = List Card} n [] in
    let room =
      (hand_size-discard_count s.rules
        (record { at_least_two = w.at_least_two; at_most_four = w.at_most_four })).2 in
    let (left, hands, done, dealt) =
      deal_rounds_lem (hand_size s.rules) (cleared s deck) places (grind (arith, room)) in
    let w' = with_table-WellFormed s left hands (dealt.length_hands ∙ places) w in
    rw done (
      refl,
      start_hand-WellFormed _ w',
      record {
        in_discard_stage = refl;
        whole_deck = λ c. omega (
          arith,
          dealt.same_cards c,
          same c,
          count-new_standard_deck c,
          ap (count_all c) empty,
          count_all-replicate c n,
        );
        full_hands = λ q h. omega (
          arith,
          dealt.more q h,
          ap (λ hs. length (get_or hs q [])) empty,
          ap length (get_or-replicate {A = List Card} n q []),
        );
        rest_of_deck = omega (arith, dealt.length_deck);
        empty_crib = refl;
        same_dealer = refl;
        left_of_dealer = refl;
        same_scores = refl;
      },
    )

-- Deal succeeds on a well-formed state where the generator returns at least 51 numbers. Every player
-- then holds a hand of the size that the rules give, the hands and the deck together hold each of
-- the 52 cards exactly once, the crib is empty, the player left of the dealer is next, and the
-- scores and the dealer are unchanged.
pub deal_lem :
    (draws : List ℕ) (s : State)
    → WellFormed s
    → 51 ≤ length draws
    → let r = deal draws s in (r.1 ≡ ok tt) × WellFormed r.0 × IsDealt s r.0
unfolding deal
deal_lem draws s w enough =
    let shuffled = shuffle new_standard_deck draws in
    let accepted : (ltb (players s) 2 || ltb 4 (players s)) ≡ false =
      ground (arith, w.at_least_two, w.at_most_four) in
    let size = length-new_standard_deck in
    let total = shuffle_total new_standard_deck draws (omega (arith, size)) (omega (arith, size)) in
    rw (accepted, after_shuffle_ok s shuffled total)
      (deal_from_lem s shuffled.0 w (shuffle-SameCards new_standard_deck draws)
        (length-shuffle new_standard_deck draws ∙ size))

-- Deal keeps a well-formed state well-formed and does not panic, also where the generator fails.
pub deal-IsSafe : (draws : List ℕ) (s : State) → WellFormed s → IsSafe (deal draws s)
unfolding deal after_shuffle
deal-IsSafe draws s w =
    let accepted : (ltb (players s) 2 || ltb 4 (players s)) ≡ false =
      ground (arith, w.at_least_two, w.at_most_four) in
    rw accepted (
      by_outcome (shuffle new_standard_deck draws)
        (shuffle_no_panic new_standard_deck draws (omega (arith, length-new_standard_deck)))
        (shuffle-SameCards new_standard_deck draws)
        (length-shuffle new_standard_deck draws ∙ length-new_standard_deck))
  where
    by_outcome :
        (r : List Card × Outcome ShuffleError (Unit {0}))
        → r.1 ≢ panic
        → SameCards r.0 new_standard_deck
        → length r.0 ≡ 52
        → IsSafe (after_shuffle s r)
    by_outcome (deck, ok _) h same size =
        let (done, w', dealt) = deal_from_lem s deck w same size in (w', rw done tt)
    by_outcome (deck, err e) h same size =
        (with_table-WellFormed s deck s.hands w.length_hands w, tt)
    by_outcome (deck, panic) h same size = absurd (h refl)
