-- ===== src/Engine/State.antt =====
-- The state of one game, the errors that its operations return, and the operations that the others
-- share. A method that mutates `*State` returns the new state with its outcome; a nil slice and an
-- empty one are the same list.
use fifteen_thirty_one_go.Shared.{
  Bool, Bool-cases, List, Option, Option-cases, Outcome, [], arith, err, false, get_elem?,
  if◌then◌else◌, inl, inr, negsuc, none, ok, pos, refl, replicate, some, suc, true, ℕ, ℤ, ◌↔◌, ◌∷◌,
  ◌≡◌,
}
use fifteen_thirty_one_go.Cards.{Card, card_eq, card_eq_iff}
use fifteen_thirty_one_go.Deck.Counting.{count, one_if}
use fifteen_thirty_one_go.Rules.{Rules, default_rules}
use fifteen_thirty_one_go.Scoring.Show.{ScoreBreakdown}

pub data Stage : Type 0 where
  dealing discarding pegging counting finished : Stage

pub data Error : Type 0 where
  invalid_player_count shuffle_failed empty_deck missing_cut_card : Error
  not_in_discard_stage invalid_player discard_already_completed invalid_discard_count : Error
  discard_card_not_in_hand not_in_pegging_stage not_your_turn card_not_in_hand : Error
  would_exceed_31 has_legal_play : Error

-- A map from player indices to breakdowns, in order of insertion.
abbrev pub Breakdowns : Type 0
Breakdowns = List (ℕ × ScoreBreakdown)

pub record CountSummary : Type 0 where
  pub order : List ℕ
  pub hands : Breakdowns
  pub crib : Option ScoreBreakdown

pub record RoundSummary : Type 0 where
  pub round : ℕ
  pub dealer_index : ℕ
  pub cut : Option Card
  pub hands : Breakdowns
  pub crib : Option ScoreBreakdown
  pub scores_before : List ℕ
  pub scores_after : List ℕ

pub record State : Type 0 where
  pub version : ℕ
  pub rules : Rules
  pub dealer_index : ℕ
  pub current_index : ℕ
  pub last_play_index : ℤ
  pub deck : List Card
  pub cut : Option Card
  pub hands : List (List Card)
  pub kept_hands : List (List Card)
  pub crib : List Card
  pub pegging_total : ℕ
  pub pegging_seq : List Card
  pub pegging_passed : List Bool
  pub discard_completed : List Bool
  pub scores : List ℕ
  pub stage : Stage
  pub ready_next_hand : List Bool
  pub count_summary : Option CountSummary
  pub history : List RoundSummary

abbrev pub players : State → ℕ
players s = s.rules.max_players

abbrev pub Result : Type 0 → Type 0
Result A = Outcome Error A

abbrev pub Done : Type 0
Done = Result (Unit {0})

unfoldable pub stage_eq : Stage → Stage → Bool
stage_eq dealing dealing = true
stage_eq discarding discarding = true
stage_eq pegging pegging = true
stage_eq counting counting = true
stage_eq finished finished = true
stage_eq _ _ = false

pub stage_eq_iff : (a b : Stage) → (stage_eq a b ≡ true) ↔ (a ≡ b)
unfolding stage_eq
stage_eq_iff a b = ground arith

-- NewState.
unfoldable pub new_state : ℤ → State
new_state n =
    let r = default_rules n in
    record {
      version = 0;
      rules = r;
      dealer_index = 0;
      current_index = 0;
      last_play_index = negsuc 0;
      deck = [];
      cut = none;
      hands = replicate r.max_players [];
      kept_hands = replicate r.max_players [];
      crib = [];
      pegging_total = 0;
      pegging_seq = [];
      pegging_passed = [];
      discard_completed = replicate r.max_players false;
      scores = replicate r.max_players 0;
      stage = dealing;
      ready_next_hand = [];
      count_summary = none;
      history = [];
    }

-- pop: the first card of the deck.
unfoldable pub pop : State → State × Result Card
pop s = elim s.deck [ [] ↦ (s, err empty_deck) | c ∷ rest ↦ (record s { deck = rest }, ok c) ]

-- `hc.Rank == c.Rank && hc.Suit == c.Suit`, over the cards of a hand: the index that is found.
unfoldable pub find_card : Card → List Card → Option ℕ
find_card c [] = none
find_card c (hc ∷ hand) =
    if card_eq hc c then some 0 else elim (find_card c hand) [ none ↦ none | some i ↦ some (suc i) ]

-- The `int` index of a value of type int; `none` where it is out of range.
abbrev pub at_index {ℓ} : {A : Type ℓ} → List A → ℤ → Option A
at_index xs (pos i) = get_elem? xs i
at_index xs (negsuc _) = none

-- A found card is the one looked for.
pub find_card-get_elem? :
    (c : Card) (hand : List Card) (i : ℕ) → find_card c hand ≡ some i → get_elem? hand i ≡ some c
unfolding find_card
find_card-get_elem? c [] i h = absurd (ground arith)
find_card-get_elem? c (hc ∷ hand) i h = elim (Bool-cases (card_eq hc c)) [
  | inl e ↦ ground (arith, (card_eq_iff hc c).0 e)
  | inr e ↦ elim (Option-cases (find_card c hand)) [
    | inl f ↦ absurd (ground arith)
    | inr (j, f) ↦ ground (arith, find_card-get_elem? c hand j f)
  ]
]

-- A card that is not found is not in the hand.
pub find_card-none : (c : Card) (hand : List Card) → find_card c hand ≡ none → count c hand ≡ 0
unfolding find_card count one_if
find_card-none c [] h = refl
find_card-none c (hc ∷ hand) h =
    ground (arith, card_eq_iff hc c, card_eq_iff c hc, find_card-none c hand)
