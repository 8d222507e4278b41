-- ===== src/Scoring/Runs.antt =====
-- scoreRuns: the longest runs of three or more ranks, each counted once for every choice of cards.
use fifteen_thirty_one_go.Shared.{
  List, [], get_or, if◌then◌else◌, leb, length, ltb, map, not, refl, suc, zero, ℕ, ◌*◌, ◌++◌, ◌+◌,
  ◌-◌, ◌==◌, ◌∷◌, ◌≡◌,
}
use fifteen_thirty_one_go.Cards.{Card, clubs}
use fifteen_thirty_one_go.Deck.Counting.{count}
use fifteen_thirty_one_go.Scoring.Pairs.{Counts, increment, lookup}

-- The first loop: the distinct ranks in order of appearance, and the map of their counts.
distinct_ranks : List Card → Counts → List ℕ → List ℕ × Counts
distinct_ranks [] count ranks = (ranks, count)
distinct_ranks (c ∷ cards) count ranks =
    distinct_ranks cards (increment c.rank count)
      (if lookup c.rank count == 0 then ranks ++ c.rank ∷ [] else ranks)

-- `sort.Ints`.
insert_int : ℕ → List ℕ → List ℕ
insert_int r [] = r ∷ []
insert_int r (q ∷ ranks) = if leb r q then r ∷ q ∷ ranks else q ∷ insert_int r ranks

sort_ints : List ℕ → List ℕ
sort_ints [] = []
sort_ints (r ∷ ranks) = insert_int r (sort_ints ranks)

-- `mult *= count[ranks[i]]`, for the rounds that are left; the indices lie inside the slice.
mult_loop : ℕ → ℕ → List ℕ → Counts → ℕ → ℕ
mult_loop zero i ranks count mult = mult
mult_loop (suc k) i ranks count mult =
    mult_loop k (i + 1) ranks count (mult * lookup (get_or ranks i 0) count)

pub record Best : Type 0 where
  pub best_len : ℕ
  pub best_mult : ℕ

-- One pass of the inner loop: the window from `start` to `end`.
window : List ℕ → Counts → ℕ → ℕ → Best → Best
window ranks count start end best =
    let run_len = end - start + 1 in
    let mult = mult_loop run_len start ranks count 1 in
    if ltb run_len 3
    then best
    else if not (get_or ranks end 0 - get_or ranks start 0 == run_len - 1)
    then best
    else if ltb best.best_len run_len
    then record { best_len = run_len; best_mult = mult }
    else if run_len == best.best_len
    then record { best_len = best.best_len; best_mult = best.best_mult + mult }
    else best

end_loop : ℕ → List ℕ → Counts → ℕ → ℕ → Best → Best
end_loop zero ranks count start end best = best
end_loop (suc k) ranks count start end best =
    end_loop k ranks count start (end + 1) (window ranks count start end best)

start_loop : ℕ → List ℕ → Counts → ℕ → Best → Best
start_loop zero ranks count start best = best
start_loop (suc k) ranks count start best =
    start_loop k ranks count (start + 1)
      (end_loop (length ranks - start) ranks count start start best)

unfoldable pub score_runs : List Card → ℕ
unfolding distinct_ranks insert_int sort_ints mult_loop window end_loop start_loop increment lookup
score_runs cards =
    let (found, count) = distinct_ranks cards [] [] in
    let ranks = sort_ints found in
    let best : Best =
      start_loop (length ranks) ranks count 0 (record { best_len = 0; best_mult = 0 }) in
    if best.best_len == 0 then 0 else best.best_len * best.best_mult

-- Two, three, three, four, five: two runs of four.
double_run : score_runs (map (λ r. record { rank = r; suit = clubs }) (3 ∷ 5 ∷ 2 ∷ 4 ∷ 3 ∷ [])) ≡ 8
unfolding score_runs
double_run = refl
