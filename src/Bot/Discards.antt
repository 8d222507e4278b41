-- ===== src/Bot/Discards.antt =====
-- ChooseDiscardN of internal/game/cribbage/bot.go.
use fifteen_thirty_one_go.Shared.{
  Bool-cases, List, [], ap, arith, drop, false, get_elem?, inl, inr, length, ok, pos, refl, some,
  suc, take, true, zero, ℕ, ◌++◌, ◌+◌, ◌<◌, ◌∙◌, ◌∷◌, ◌≡◌, ◌≤◌,
}
use fifteen_thirty_one_go.Bot.{before, choose_discard_n, insert_card, ordered, sort_cards}
use fifteen_thirty_one_go.Cards.{Card, value15}
use fifteen_thirty_one_go.Deck.Counting.{SameCards, count, one_if}
use fifteen_thirty_one_go.Deck.Shuffled.{length-shuffle, shuffle-SameCards}
use fifteen_thirty_one_go.Store.Games.{BotDifficulty, easy, hard, medium, unknown_difficulty}

count-insert_card :
    (a c : Card) (cards : List Card) → count a (insert_card c cards) ≡ one_if a c + count a cards
unfolding insert_card count
count-insert_card a c [] = refl
count-insert_card a c (d ∷ cards) = ground (arith, count-insert_card a c cards)

sort_cards-SameCards : (cards : List Card) → SameCards (sort_cards cards) cards
unfolding sort_cards count
sort_cards-SameCards [] a = refl
sort_cards-SameCards (c ∷ cards) a =
    omega (arith, count-insert_card a c (sort_cards cards), sort_cards-SameCards cards a)

length-insert_card :
    (c : Card) (cards : List Card) → length (insert_card c cards) ≡ suc (length cards)
unfolding insert_card
length-insert_card c [] = refl
length-insert_card c (d ∷ cards) = ground (arith, length-insert_card c cards)

length-sort_cards : (cards : List Card) → length (sort_cards cards) ≡ length cards
unfolding sort_cards
length-sort_cards [] = refl
length-sort_cards (c ∷ cards) =
    omega (arith, length-insert_card c (sort_cards cards), length-sort_cards cards)

ordered-SameCards :
    (difficulty : BotDifficulty) (hand : List Card) (draws : List ℕ)
    → SameCards (ordered difficulty hand draws) hand
unfolding ordered
ordered-SameCards easy hand draws = shuffle-SameCards hand draws
ordered-SameCards medium hand draws = sort_cards-SameCards hand
ordered-SameCards hard hand draws = sort_cards-SameCards hand
ordered-SameCards unknown_difficulty hand draws = shuffle-SameCards hand draws

length-ordered :
    (difficulty : BotDifficulty) (hand : List Card) (draws : List ℕ)
    → length (ordered difficulty hand draws) ≡ length hand
unfolding ordered
length-ordered easy hand draws = length-shuffle hand draws
length-ordered medium hand draws = length-sort_cards hand
length-ordered hard hand draws = length-sort_cards hand
length-ordered unknown_difficulty hand draws = length-shuffle hand draws

-- A hand is dealt out into the discards, as many as asked for, and the cards that are kept.
pub record Discarded (hand : List Card) (n : ℕ) (discards : List Card) : Type 0 where
  pub kept : List Card
  pub enough : length discards ≡ n
  pub same_cards : SameCards (discards ++ kept) hand

length-take : (n : ℕ) (cards : List Card) → n ≤ length cards → length (take n cards) ≡ n
length-take zero cards h = refl
length-take (suc n) [] h = absurd (omega arith)
length-take (suc n) (c ∷ cards) h = omega (arith, length-take n cards (omega arith))

take-drop : (n : ℕ) (cards : List Card) → take n cards ++ drop n cards ≡ cards
take-drop zero cards = refl
take-drop (suc n) [] = refl
take-drop (suc n) (c ∷ cards) = ap (◌∷◌ c) (take-drop n cards)

-- Where at least one card is asked for and the hand has that many, the bot of every difficulty
-- discards exactly so many cards, all of them from its hand and none more often than it holds it.
pub choose_discard_n-Discarded :
    (hand : List Card) (n : ℕ) (difficulty : BotDifficulty) (draws : List ℕ)
    → 0 < n
    → n ≤ length hand
    → (discards : List Card) × (choose_discard_n hand (pos n) difficulty draws ≡ ok discards)
      × Discarded hand n discards
unfolding choose_discard_n
choose_discard_n-Discarded hand n difficulty draws h k =
    let cards = ordered difficulty hand draws in
    (
      take n cards,
      ground arith,
      record {
        kept = drop n cards;
        enough = length-take n cards (omega (arith, length-ordered difficulty hand draws));
        same_cards =
            λ c. ap (count c) (take-drop n cards) ∙ ordered-SameCards difficulty hand draws c;
      },
    )

-- Every card of a list counts at least v.
abbrev AtLeast : ℕ → List Card → Type 0
AtLeast v [] = Unit
AtLeast v (d ∷ cards) = (v ≤ value15 d) × AtLeast v cards

-- Sorted by what the cards count for.
abbrev IsSorted : List Card → Type 0
IsSorted [] = Unit
IsSorted (c ∷ cards) = AtLeast (value15 c) cards × IsSorted cards

AtLeast-insert_card :
    (v : ℕ) (c : Card) (cards : List Card)
    → v ≤ value15 c
    → AtLeast v cards
    → AtLeast v (insert_card c cards)
unfolding insert_card
AtLeast-insert_card v c [] h k = (h, tt)
AtLeast-insert_card v c (d ∷ cards) h (k, ks) = elim (Bool-cases (before d c)) [
  | inl e ↦ rw (e, insert_card) (k, AtLeast-insert_card v c cards h ks)
  | inr e ↦ rw (e, insert_card) (h, (k, ks))
]

AtLeast-trans : (u v : ℕ) (cards : List Card) → u ≤ v → AtLeast v cards → AtLeast u cards
AtLeast-trans u v [] h k = tt
AtLeast-trans u v (d ∷ cards) h (k, ks) = (omega arith, AtLeast-trans u v cards h ks)

value15-before : (d c : Card) → before d c ≡ true → value15 d ≤ value15 c
unfolding before
value15-before d c h = ground arith

value15-not_before : (d c : Card) → before d c ≡ false → value15 c ≤ value15 d
unfolding before
value15-not_before d c h = ground arith

insert_card-IsSorted :
    (c : Card) (cards : List Card) → IsSorted cards → IsSorted (insert_card c cards)
unfolding insert_card
insert_card-IsSorted c [] k = (tt, tt)
insert_card-IsSorted c (d ∷ cards) (k, ks) = elim (Bool-cases (before d c)) [
  | inl e ↦
      rw (e, insert_card)
        (
          AtLeast-insert_card (value15 d) c cards (value15-before d c e) k,
          insert_card-IsSorted c cards ks,
        )
  | inr e ↦
      rw (e, insert_card)
        (
          (
            value15-not_before d c e,
            AtLeast-trans (value15 c) (value15 d) cards (value15-not_before d c e) k,
          ),
          (k, ks),
        )
]

sort_cards-IsSorted : (cards : List Card) → IsSorted (sort_cards cards)
unfolding sort_cards
sort_cards-IsSorted [] = tt
sort_cards-IsSorted (c ∷ cards) =
    insert_card-IsSorted c (sort_cards cards) (sort_cards-IsSorted cards)

AtLeast-get_elem? :
    (v : ℕ) (cards : List Card) (j : ℕ) (d : Card)
    → AtLeast v cards
    → get_elem? cards j ≡ some d
    → v ≤ value15 d
AtLeast-get_elem? v [] j d k h = absurd (ground arith)
AtLeast-get_elem? v (c ∷ cards) zero d (k, ks) h = ground arith
AtLeast-get_elem? v (c ∷ cards) (suc j) d (k, ks) h = AtLeast-get_elem? v cards j d ks h

AtLeast-drop : (v n : ℕ) (cards : List Card) → AtLeast v cards → AtLeast v (drop n cards)
AtLeast-drop v zero cards k = k
AtLeast-drop v (suc n) [] k = tt
AtLeast-drop v (suc n) (c ∷ cards) (k, ks) = AtLeast-drop v n cards ks

take_before_drop :
    (n : ℕ) (cards : List Card) (i j : ℕ) (c d : Card)
    → IsSorted cards
    → get_elem? (take n cards) i ≡ some c
    → get_elem? (drop n cards) j ≡ some d
    → value15 c ≤ value15 d
take_before_drop zero cards i j c d k h e = absurd (ground arith)
take_before_drop (suc n) [] i j c d k h e = absurd (ground arith)
take_before_drop (suc n) (x ∷ cards) zero j c d (k, ks) h e =
    let bound =
      AtLeast-get_elem? (value15 x) (drop n cards) j d (AtLeast-drop (value15 x) n cards k) e in
    ground (arith, bound)
take_before_drop (suc n) (x ∷ cards) (suc i) j c d (k, ks) h e =
    take_before_drop n cards i j c d ks h e

-- Where at least one card is asked for and the hand has that many, a medium or hard bot discards so
-- many cards of its hand that count least: none of them counts more than a card that is kept.
pub choose_discard_n_lowest :
    (hand : List Card) (n : ℕ) (draws : List ℕ)
    → 0 < n
    → n ≤ length hand
    → (discards : List Card) × (q : Discarded hand n discards) × (choose_discard_n hand
          (pos n)
          medium
          draws
        ≡ ok discards)
      × (choose_discard_n hand (pos n) hard draws ≡ ok discards)
      × ((i j : ℕ) (c d : Card)
          → get_elem? discards i ≡ some c
          → get_elem? q.kept j ≡ some d
          → value15 c ≤ value15 d)
unfolding choose_discard_n ordered
choose_discard_n_lowest hand n draws h k = (
  take n (sort_cards hand),
  record {
    kept = drop n (sort_cards hand);
    enough = length-take n (sort_cards hand) (omega (arith, length-sort_cards hand));
    same_cards = λ c. ap (count c) (take-drop n (sort_cards hand)) ∙ sort_cards-SameCards hand c;
  },
  ground arith,
  ground arith,
  λ i j c d e f. take_before_drop n (sort_cards hand) i j c d (sort_cards-IsSorted hand) e f,
)
