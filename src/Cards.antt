-- ===== src/Cards.antt =====
-- internal/game/common/cards.go: a card, its value towards fifteen and thirty-one, and the equality
-- test that the engine writes out as `a.Rank == b.Rank && a.Suit == b.Suit`.
pub mod Text
use fifteen_thirty_one_go.Shared.{
  Bool, arith, false, if◌then◌else◌, leb, refl, true, ℕ, ◌&&◌, ◌==◌, ◌↔◌, ◌≡◌, ◌≤◌,
}

-- Of the strings of type Suit only the four constants occur.
pub data Suit : Type 0 where
  spades hearts diamonds clubs : Suit

pub record Card : Type 0 where
  pub rank : ℕ
  pub suit : Suit

abbrev pub ace : ℕ
ace = 1

abbrev pub jack : ℕ
jack = 11

abbrev pub queen : ℕ
queen = 12

abbrev pub king : ℕ
king = 13

unfoldable pub value15 : Card → ℕ
value15 c = if leb 10 c.rank then 10 else c.rank

unfoldable pub suit_eq : Suit → Suit → Bool
suit_eq spades spades = true
suit_eq hearts hearts = true
suit_eq diamonds diamonds = true
suit_eq clubs clubs = true
suit_eq _ _ = false

unfoldable pub card_eq : Card → Card → Bool
unfolding suit_eq
card_eq a b = a.rank == b.rank && suit_eq a.suit b.suit

pub suit_eq_iff : (a b : Suit) → (suit_eq a b ≡ true) ↔ (a ≡ b)
unfolding suit_eq
suit_eq_iff a b = ground arith

pub card_eq_iff : (a b : Card) → (card_eq a b ≡ true) ↔ (a ≡ b)
unfolding card_eq
card_eq_iff a b = ground arith

pub card_eq_refl : (a : Card) → card_eq a a ≡ true
card_eq_refl a = (card_eq_iff a a).1 refl

-- No card counts for more than ten.
pub value15-le : (c : Card) → value15 c ≤ 10
unfolding value15
value15-le c = ground arith
