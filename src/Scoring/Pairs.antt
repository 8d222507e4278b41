-- ===== src/Scoring/Pairs.antt =====
-- scorePairs: the ranks are counted in a map, and a rank that occurs n times gives n choose 2 pairs.
use fifteen_thirty_one_go.Shared.{
  List, [], arith, if◌then◌else◌, leb, refl, suc, zero, ℕ, ◌*◌, ◌+◌, ◌-◌, ◌/◌, ◌==◌, ◌∷◌, ◌≡◌,
}
use fifteen_thirty_one_go.Cards.{Card}

-- The map from ranks to their counts, in order of insertion. The loop over a map visits its entries
-- in no fixed order; what it computes here is a sum.
abbrev pub Counts : Type 0
Counts = List (ℕ × ℕ)

-- `count[r]`, 0 where there is no entry.
unfoldable pub lookup : ℕ → Counts → ℕ
lookup r [] = 0
lookup r ((q, n) ∷ m) = if q == r then n else lookup r m

-- `count[r]++`.
unfoldable pub increment : ℕ → Counts → Counts
increment r [] = (r, 1) ∷ []
increment r ((q, n) ∷ m) = if q == r then (q, n + 1) ∷ m else (q, n) ∷ increment r m

count_ranks : Counts → List Card → Counts
unfolding increment
count_ranks m [] = m
count_ranks m (c ∷ cards) = count_ranks (increment c.rank m) cards

pair_points : ℕ → ℕ
pair_points n = if leb 2 n then n * (n - 1) / 2 * 2 else 0

points_loop : Counts → ℕ
unfolding pair_points
points_loop [] = 0
points_loop ((r, n) ∷ m) = pair_points n + points_loop m

unfoldable pub score_pairs : List Card → ℕ
unfolding count_ranks points_loop
score_pairs cards = points_loop (count_ranks [] cards)

-- The description: how many cards have the rank, and how many pairs of two cards have the same.
unfoldable pub count_rank : ℕ → List Card → ℕ
count_rank r [] = 0
count_rank r (c ∷ cards) = (if c.rank == r then 1 else 0) + count_rank r cards

unfoldable pub same_rank_pairs : List Card → ℕ
same_rank_pairs [] = 0
same_rank_pairs (c ∷ cards) = count_rank c.rank cards + same_rank_pairs cards

-- What the entries of a map say of the ranks of some cards.
entries : Counts → List Card → ℕ
entries m [] = 0
entries m (c ∷ cards) = lookup c.rank m + entries m cards

half_product :
    (n : ℕ)
    → (suc (suc n) + 1) * (suc (suc n) + 1 - 1) / 2 * 2
      ≡ suc (suc n) * (suc (suc n) - 1) / 2 * 2 + 2 * suc (suc n)
half_product n =
    let upper : suc (suc n) + 1 - 1 ≡ n + 2 = omega arith in
    let lower : suc (suc n) - 1 ≡ n + 1 = omega arith in rw (upper, lower) (omega arith)

pair_points-suc : (n : ℕ) → pair_points (n + 1) ≡ pair_points n + 2 * n
unfolding pair_points
pair_points-suc zero = refl
pair_points-suc (suc zero) = refl
pair_points-suc (suc (suc n)) = ground (arith, half_product n)

points_loop-increment :
    (r : ℕ) (m : Counts) → points_loop (increment r m) ≡ points_loop m + 2 * lookup r m
unfolding points_loop increment lookup
points_loop-increment r [] = refl
points_loop-increment r ((q, n) ∷ m) = ground (arith, points_loop-increment r m, pair_points-suc n)

lookup-increment :
    (r q : ℕ) (m : Counts) → lookup q (increment r m) ≡ lookup q m + (if q == r then 1 else 0)
unfolding increment lookup
lookup-increment r q [] = ground arith
lookup-increment r q ((p, n) ∷ m) = ground (arith, lookup-increment r q m)

entries-increment :
    (r : ℕ) (m : Counts) (cards : List Card)
    → entries (increment r m) cards ≡ entries m cards + count_rank r cards
unfolding entries count_rank
entries-increment r m [] = refl
entries-increment r m (c ∷ cards) =
    ground (arith, lookup-increment r c.rank m, entries-increment r m cards)

entries-nil : (cards : List Card) → entries [] cards ≡ 0
unfolding entries lookup
entries-nil [] = refl
entries-nil (c ∷ cards) = omega (arith, entries-nil cards)

points_loop-count_ranks :
    (m : Counts) (cards : List Card)
    → points_loop (count_ranks m cards)
      ≡ points_loop m + 2 * entries m cards + 2 * same_rank_pairs cards
unfolding count_ranks same_rank_pairs entries
points_loop-count_ranks m [] = omega arith
points_loop-count_ranks m (c ∷ cards) = omega (
  arith,
  points_loop-count_ranks (increment c.rank m) cards,
  points_loop-increment c.rank m,
  entries-increment c.rank m cards,
)

-- scorePairs gives two points for each two cards of the same rank, and nothing else.
pub score_pairs-same_rank_pairs :
    (cards : List Card) → score_pairs cards ≡ 2 * same_rank_pairs cards
unfolding score_pairs
score_pairs-same_rank_pairs cards =
    unfold points_loop in omega (arith, points_loop-count_ranks [] cards, entries-nil cards)
