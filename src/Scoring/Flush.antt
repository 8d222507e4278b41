-- ===== src/Scoring/Flush.antt =====
-- scoreFlush and scoreNobs.
use fifteen_thirty_one_go.Shared.{
  Bool, List, [], arith, false, if◌then◌else◌, length, not, refl, true, ℕ, ◌&&◌, ◌==◌, ◌↔◌, ◌∷◌,
  ◌≡◌, ◌≢◌, ◌⊎◌,
}
use fifteen_thirty_one_go.Cards.{Card, Suit, jack, suit_eq, suit_eq_iff}

-- The loop over the cards after the first.
all_of_suit : Suit → List Card → Bool
all_of_suit s [] = true
all_of_suit s (c ∷ cards) = if suit_eq c.suit s then all_of_suit s cards else false

unfoldable pub score_flush : List Card → Card → Bool → ℕ
unfolding all_of_suit
score_flush [] cut is_crib = 0
score_flush (first ∷ rest) cut is_crib =
    if not (length (first ∷ rest) == 4)
    then 0
    else if not (all_of_suit first.suit rest)
    then 0
    else if is_crib
    then (if suit_eq cut.suit first.suit then 5 else 0)
    else if suit_eq cut.suit first.suit
    then 5
    else 4

unfoldable pub score_nobs : List Card → Card → ℕ
score_nobs [] cut = 0
score_nobs (c ∷ cards) cut =
    if c.rank == jack && suit_eq c.suit cut.suit then 1 else score_nobs cards cut

-- All cards of a list have one suit.
abbrev pub IsOneSuit : Suit → List Card → Type 0
IsOneSuit s [] = Unit
IsOneSuit s (c ∷ cards) = (c.suit ≡ s) × IsOneSuit s cards

all_of_suit_iff : (s : Suit) (cards : List Card) → (all_of_suit s cards ≡ true) ↔ IsOneSuit s cards
unfolding all_of_suit
all_of_suit_iff s [] = (λ _. tt, λ _. refl)
all_of_suit_iff s (c ∷ cards) = ground (arith, suit_eq_iff c.suit s, all_of_suit_iff s cards)

-- The four cards of a hand and the cut score 5 exactly where all five have one suit, in the hand and
-- in the crib; 4 exactly where the four of a hand have one suit that is not the cut's; a crib never
-- scores 4; and there is no other score.
pub score_flush_lem :
    (a b c d cut : Card) (is_crib : Bool)
    → let hand = a ∷ b ∷ c ∷ d ∷ [] in
      ((score_flush hand cut is_crib ≡ 5) ↔ IsOneSuit cut.suit hand)
      × ((score_flush hand cut is_crib ≡ 4)
          ↔ ((is_crib ≡ false) × IsOneSuit a.suit hand × (cut.suit ≢ a.suit)))
      × (score_flush hand cut is_crib ≢ 0
          → (score_flush hand cut is_crib ≡ 4) ⊎ (score_flush hand cut is_crib ≡ 5))
unfolding score_flush all_of_suit
score_flush_lem a b c d cut is_crib = ground (
  arith,
  suit_eq_iff b.suit a.suit,
  suit_eq_iff c.suit a.suit,
  suit_eq_iff d.suit a.suit,
  suit_eq_iff cut.suit a.suit,
)
