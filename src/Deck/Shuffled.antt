-- ===== src/Deck/Shuffled.antt =====
-- Shuffle of internal/game/common/deck.go: what it does to the slice.
use native.Mathlib.Decide.{ℕ_discrete}
use fifteen_thirty_one_go.Shared.{
  List, Option-cases, [], ap, arith, get_elem?, get_elem?-set_ne, get_elem?-set_self,
  get_elem?_bound, inl, inr, length, length-swap, ok, panic, refl, set, some, suc, swap, swap_in,
  swap_parts, zero, ℕ, ◌%◌, ◌+◌, ◌-◌, ◌<◌, ◌∙◌, ◌∷◌, ◌≡◌, ◌≢◌, ◌≤◌,
}
use fifteen_thirty_one_go.Cards.{Card}
use fifteen_thirty_one_go.Deck.{shuffle, shuffle_from}
use fifteen_thirty_one_go.Deck.Counting.{SameCards, count, count-set}

count-exchange :
    (c : Card) (xs : List Card) (i j : ℕ) (a b : Card)
    → get_elem? xs i ≡ some a
    → get_elem? xs j ≡ some b
    → count c (set (set xs i b) j a) ≡ count c xs
count-exchange c xs i j a b ea eb = elim (ℕ_discrete i j) [
  | yes same ↦
      let own = get_elem?-set_self xs i b (get_elem?_bound xs i ea) in
      let there : get_elem? (set xs i b) j ≡ some b = rw (← same) own in
      omega (arith, count-set c xs i a b ea, count-set c (set xs i b) j b a there)
  | no other ↦
      let there : get_elem? (set xs i b) j ≡ some b = get_elem?-set_ne xs b other ∙ eb in
      omega (arith, count-set c xs i a b ea, count-set c (set xs i b) j b a there)
]

count-swap :
    (c : Card) (xs ys : List Card) (i j : ℕ) → swap xs i j ≡ some ys → count c ys ≡ count c xs
count-swap c xs ys i j h =
    let (a, b, ea, eb, e) = swap_parts xs ys i j h in
    ap (count c) e ∙ count-exchange c xs i j a b ea eb

shuffle_from-count :
    (i : ℕ) (xs : List Card) (draws : List ℕ) (c : Card)
    → count c (shuffle_from i xs draws).0 ≡ count c xs
unfolding shuffle_from
shuffle_from-count zero xs draws c = refl
shuffle_from-count (suc i) xs [] c = refl
shuffle_from-count (suc i) xs (d ∷ draws) c =
    elim (Option-cases (swap xs (suc i) (d % (suc i + 1)))) [
      | inl e ↦ rw (e, shuffle_from) refl
      | inr (ys, e) ↦
          rw (e, shuffle_from)
            (shuffle_from-count i ys draws c ∙ count-swap c xs ys (suc i) (d % (suc i + 1)) e)
    ]

-- Shuffle loses no card and makes none up, whatever the generator returns, and also when it fails
-- half-way.
pub shuffle-SameCards :
    (cards : List Card) (draws : List ℕ) → SameCards (shuffle cards draws).0 cards
unfolding shuffle
shuffle-SameCards cards draws c = shuffle_from-count (length cards - 1) cards draws c

length-shuffle_from :
    (i : ℕ) (xs : List Card) (draws : List ℕ) → length (shuffle_from i xs draws).0 ≡ length xs
unfolding shuffle_from
length-shuffle_from zero xs draws = refl
length-shuffle_from (suc i) xs [] = refl
length-shuffle_from (suc i) xs (d ∷ draws) =
    elim (Option-cases (swap xs (suc i) (d % (suc i + 1)))) [
      | inl e ↦ rw (e, shuffle_from) refl
      | inr (ys, e) ↦
          rw (e, shuffle_from)
            (length-shuffle_from i ys draws ∙ length-swap xs ys (suc i) (d % (suc i + 1)) e)
    ]

pub length-shuffle :
    (cards : List Card) (draws : List ℕ) → length (shuffle cards draws).0 ≡ length cards
unfolding shuffle
length-shuffle cards draws = length-shuffle_from (length cards - 1) cards draws

-- One draw for each round is enough, and no exchange is out of range.
shuffle_from_total :
    (i : ℕ) (xs : List Card) (draws : List ℕ)
    → i < length xs
    → i ≤ length draws
    → (shuffle_from i xs draws).1 ≡ ok tt
unfolding shuffle_from
shuffle_from_total zero xs draws h k = refl
shuffle_from_total (suc i) xs [] h k = absurd (omega arith)
shuffle_from_total (suc i) xs (d ∷ draws) h k =
    let j = d % (suc i + 1) in
    let (ys, e) = swap_in xs (suc i) j h (omega arith) in
    rw (e, shuffle_from)
      (shuffle_from_total i ys draws (omega (arith, length-swap xs ys (suc i) j e)) (omega arith))

shuffle_from_no_panic :
    (i : ℕ) (xs : List Card) (draws : List ℕ) → i < length xs → (shuffle_from i xs draws).1 ≢ panic
unfolding shuffle_from
shuffle_from_no_panic zero xs draws h = λ e. cc
shuffle_from_no_panic (suc i) xs [] h = λ e. cc
shuffle_from_no_panic (suc i) xs (d ∷ draws) h =
    let j = d % (suc i + 1) in
    let (ys, e) = swap_in xs (suc i) j h (omega arith) in
    rw (e, shuffle_from)
      (shuffle_from_no_panic i ys draws (omega (arith, length-swap xs ys (suc i) j e)))

pub shuffle_no_panic :
    (cards : List Card) (draws : List ℕ) → 0 < length cards → (shuffle cards draws).1 ≢ panic
unfolding shuffle
shuffle_no_panic cards draws h = shuffle_from_no_panic (length cards - 1) cards draws (omega arith)

-- Shuffle succeeds, with no index out of range, on a deck that is not empty, where the generator
-- returns at least one number for each card but the first.
pub shuffle_total :
    (cards : List Card) (draws : List ℕ)
    → 0 < length cards
    → length cards ≤ length draws + 1
    → (shuffle cards draws).1 ≡ ok tt
unfolding shuffle
shuffle_total cards draws h k =
    shuffle_from_total (length cards - 1) cards draws (omega arith) (omega arith)
