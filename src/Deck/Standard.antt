-- ===== src/Deck/Standard.antt =====
-- NewStandardDeck of internal/game/common/deck.go.
use fifteen_thirty_one_go.Shared.{
  Bool, List, [], arith, if◌then◌else◌, leb, length, ltb, refl, suc, zero, ℕ, ◌&&◌, ◌+◌, ◌∷◌, ◌≡◌,
}
use fifteen_thirty_one_go.Cards.{Card, Suit, card_eq, clubs, diamonds, hearts, spades, suit_eq}
use fifteen_thirty_one_go.Deck.{new_standard_deck, ranks_from, suits_loop}
use fifteen_thirty_one_go.Deck.Counting.{count, count-append, count-nil, one_if}

pub length-new_standard_deck : length new_standard_deck ≡ 52
unfolding new_standard_deck
length-new_standard_deck = refl

-- A card with one of the thirteen ranks.
abbrev pub is_real : Card → Bool
is_real c = leb 1 c.rank && leb c.rank 13

-- A run of ranks of one suit holds each of its cards once.
count-ranks_from :
    (k r : ℕ) (s : Suit) (c : Card)
    → count c (ranks_from k r s)
      ≡ (if suit_eq c.suit s && (leb r c.rank && ltb c.rank (r + k)) then 1 else 0)
unfolding ranks_from count one_if card_eq
count-ranks_from zero r s c = ground arith
count-ranks_from (suc k) r s c = ground (arith, count-ranks_from k (r + 1) s c)

count-suits_loop :
    (s : Suit) (suits : List Suit) (c : Card)
    → count c (suits_loop (s ∷ suits))
      ≡ (if suit_eq c.suit s && is_real c then 1 else 0) + count c (suits_loop suits)
unfolding suits_loop suit_eq
count-suits_loop s suits c =
    rw (count-append c (ranks_from 13 1 s) (suits_loop suits))
      (ground (arith, count-ranks_from 13 1 s c))

-- The standard deck holds every card of a rank from 1 to 13 exactly once, and no other card.
pub count-new_standard_deck : (c : Card) → count c new_standard_deck ≡ (if is_real c then 1 else 0)
unfolding new_standard_deck suit_eq
count-new_standard_deck c = ground (
  arith,
  count-suits_loop spades (hearts ∷ diamonds ∷ clubs ∷ []) c,
  count-suits_loop hearts (diamonds ∷ clubs ∷ []) c,
  count-suits_loop diamonds (clubs ∷ []) c,
  count-suits_loop clubs [] c,
  count-nil c,
)
