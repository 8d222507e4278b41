-- ===== src/Deck/Counting.antt =====
-- Cards counted with their multiplicity.
use fifteen_thirty_one_go.Shared.{
  List, [], arith, get_elem?, if◌then◌else◌, refl, remove_at, set, some, suc, zero, ℕ, ◌++◌, ◌+◌,
  ◌∷◌, ◌≡◌,
}
use fifteen_thirty_one_go.Cards.{Card, card_eq}

-- 1 for the card itself, 0 for any other.
unfoldable pub one_if : Card → Card → ℕ
one_if c d = if card_eq c d then 1 else 0

unfoldable pub count : Card → List Card → ℕ
count c [] = 0
count c (d ∷ cards) = one_if c d + count c cards

-- The cards of several hands together.
unfoldable pub count_all : Card → List (List Card) → ℕ
count_all c [] = 0
count_all c (hand ∷ hands) = count c hand + count_all c hands

-- Two lists hold the same cards, each as often.
abbrev pub SameCards : List Card → List Card → Type 0
SameCards xs ys = (c : Card) → count c xs ≡ count c ys

pub count-append : (c : Card) (xs ys : List Card) → count c (xs ++ ys) ≡ count c xs + count c ys
unfolding count
count-append c [] ys = omega arith
count-append c (x ∷ xs) ys = omega (arith, count-append c xs ys)

pub count_one : (c d : Card) → count c (d ∷ []) ≡ one_if c d
unfolding count
count_one c d = omega arith

pub count-cons : (c d : Card) (xs : List Card) → count c (d ∷ xs) ≡ one_if c d + count c xs
unfolding count
count-cons c d xs = refl

pub count-nil : (c : Card) → count c [] ≡ 0
unfolding count
count-nil c = refl

pub count-set :
    (c : Card) (xs : List Card) (i : ℕ) (a b : Card)
    → get_elem? xs i ≡ some a
    → count c (set xs i b) + one_if c a ≡ count c xs + one_if c b
unfolding count
count-set c [] i a b h = absurd (ground arith)
count-set c (x ∷ xs) zero a b h = ground arith
count-set c (x ∷ xs) (suc i) a b h = omega (arith, count-set c xs i a b h)

pub count-remove_at :
    (c : Card) (xs : List Card) (i : ℕ) (a : Card)
    → get_elem? xs i ≡ some a
    → count c (remove_at i xs) + one_if c a ≡ count c xs
unfolding count
count-remove_at c [] i a h = absurd (ground arith)
count-remove_at c (x ∷ xs) zero a h = ground arith
count-remove_at c (x ∷ xs) (suc i) a h = omega (arith, count-remove_at c xs i a h)

-- One hand is replaced by another.
pub count_all-set :
    (c : Card) (hands : List (List Card)) (i : ℕ) (old new : List Card)
    → get_elem? hands i ≡ some old
    → count_all c (set hands i new) + count c old ≡ count_all c hands + count c new
unfolding count_all
count_all-set c [] i old new h = absurd (ground arith)
count_all-set c (x ∷ xs) zero old new h = ground arith
count_all-set c (x ∷ xs) (suc i) old new h = omega (arith, count_all-set c xs i old new h)
