-- ===== src/Deck.antt =====
-- internal/game/common/deck.go: the standard deck and the Fisher-Yates shuffle. The results of
-- `rand.Int` are a list of draws, and a generator that fails is a list that has run out.
pub mod Counting
pub mod Standard
pub mod Shuffled
use fifteen_thirty_one_go.Shared.{
  List, Option, Outcome, [], err, length, none, ok, panic, some, suc, swap, zero, ℕ, ◌%◌, ◌++◌, ◌+◌,
  ◌-◌, ◌∷◌,
}
use fifteen_thirty_one_go.Cards.{Card, Suit, clubs, diamonds, hearts, spades}

-- `for r := 1; r <= 13; r++`, for the rounds that are left.
ranks_from : ℕ → ℕ → Suit → List Card
ranks_from zero r s = []
ranks_from (suc k) r s = record { rank = r; suit = s } ∷ ranks_from k (r + 1) s

suits_loop : List Suit → List Card
unfolding ranks_from
suits_loop [] = []
suits_loop (s ∷ suits) = ranks_from 13 1 s ++ suits_loop suits

unfoldable pub new_standard_deck : List Card
unfolding suits_loop
new_standard_deck = suits_loop (spades ∷ hearts ∷ diamonds ∷ clubs ∷ [])

pub data ShuffleError : Type 0 where
  secure_shuffle_failed : ShuffleError

-- `rand.Int(rand.Reader, big.NewInt(bound))`: a number below the bound.
unfoldable pub rand_int : ℕ → List ℕ → Option (ℕ × List ℕ)
rand_int bound [] = none
rand_int bound (d ∷ draws) = some (d % bound, draws)

-- The loop from `i` down to 1. The slice is shuffled in place, so that it is returned on every
-- branch.
shuffle_from : ℕ → List Card → List ℕ → List Card × Outcome ShuffleError (Unit {0})
unfolding rand_int
shuffle_from zero cards draws = (cards, ok tt)
shuffle_from (suc i) cards draws = elim (rand_int (suc i + 1) draws) [
  | none ↦ (cards, err secure_shuffle_failed)
  | some (j, rest) ↦ elim (swap cards (suc i) j) [
    | none ↦ (cards, panic)
    | some swapped ↦ shuffle_from i swapped rest
  ]
]

unfoldable pub shuffle : List Card → List ℕ → List Card × Outcome ShuffleError (Unit {0})
unfolding shuffle_from
shuffle cards draws = shuffle_from (length cards - 1) cards draws
