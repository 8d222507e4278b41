-- ===== src/Scoring/Longest.antt =====
-- What a played card scores: the total, the cards of its rank, and the longest run.
use mathlib.Core.List.{reverse}
use fifteen_thirty_one_go.Shared.{
  Bool, Bool-cases, List, [], arith, false, if◌then◌else◌, inl, inr, length, ltb, refl, subst, suc,
  true, zero, ℕ, ◌*◌, ◌++◌, ◌+◌, ◌-◌, ◌<◌, ◌==◌, ◌∙◌, ◌∷◌, ◌≡◌, ◌≤◌, ◌⊎◌,
}
use fifteen_thirty_one_go.Cards.{Card, value15}
use fifteen_thirty_one_go.Scoring.Pegging.{
  PegReason, Pegged, add_points, four_of_a_kind, is_run, makes_15, makes_31, pair, pegging_score,
  run, run_loop, same_loop, three_of_a_kind, window_of,
}

-- The test of the loop for the last n cards.
abbrev pub EndsInRun : ℕ → List Card → Type 0
EndsInRun n last = is_run (window_of n last) ≡ true

run_loop-lt : (n : ℕ) (last : List Card) → run_loop n last ≤ n
unfolding run_loop
run_loop-lt zero last = omega arith
run_loop-lt (suc n) last = ground (arith, run_loop-lt n last)

-- The loop finds the longest run of three or more: what it returns is 0 or the length of a run at the
-- end of the sequence, of three cards at least, and no longer one within its bound is a run.
pub run_loop_longest :
    (n : ℕ) (last : List Card)
    → let found = run_loop n last in
      ((found ≡ 0) ⊎ ((3 ≤ found) × (found ≤ n) × EndsInRun found last))
      × ((m : ℕ) → 3 ≤ m → found < m → m ≤ n → is_run (window_of m last) ≡ false)
unfolding run_loop
run_loop_longest zero last = (inl refl, λ m h k l. absurd (omega arith))
run_loop_longest (suc n) last = elim (Bool-cases (ltb (suc n) 3)) [
  | inl e ↦ rw e (inl refl, λ m h k l. absurd (ground arith))
  | inr e ↦ rw e (elim (Bool-cases (is_run (window_of (suc n) last))) [
    | inl f ↦ rw f (inr (ground arith, omega arith, f), λ m h k l. absurd (omega arith))
    | inr f ↦ rw f (shorter f (run_loop_longest n last))
  ])
]
  where
    wider :
        (run_loop n last ≡ 0)
          ⊎ ((3 ≤ run_loop n last) × (run_loop n last ≤ n) × EndsInRun (run_loop n last) last)
        → (run_loop n last ≡ 0)
          ⊎ ((3 ≤ run_loop n last) × (run_loop n last ≤ suc n) × EndsInRun (run_loop n last) last)
    wider (inl e) = inl e
    wider (inr (h, k, e)) = inr (h, omega arith, e)

    shorter :
        is_run (window_of (suc n) last) ≡ false
        → (((run_loop n last ≡ 0)
              ⊎ ((3 ≤ run_loop n last) × (run_loop n last ≤ n) × EndsInRun (run_loop n last) last))
            × ((m : ℕ) → 3 ≤ m → run_loop n last < m → m ≤ n → is_run (window_of m last) ≡ false))
        → ((run_loop n last ≡ 0)
            ⊎ ((3 ≤ run_loop n last)
                × (run_loop n last ≤ suc n)
                × EndsInRun (run_loop n last) last))
          × ((m : ℕ) → 3 ≤ m → run_loop n last < m → m ≤ suc n → is_run (window_of m last) ≡ false)
    shorter f (a, b) = (
      wider a,
      λ m h k l. elim (Bool-cases (m == suc n)) [
        | inl e ↦ subst (λ x. is_run (window_of x last) ≡ false) (ground arith) f
        | inr e ↦ b m h k (ground arith)
      ],
    )

-- How many cards at the end of the sequence have the rank of the card that is played, with it.
abbrev pub same_ranks : List Card → Card → ℕ
same_ranks play_seq card = same_loop card.rank (reverse play_seq) 1

points-add_points :
    (b : Bool) (n : ℕ) (r : PegReason) (p : Pegged)
    → (add_points b n r p).points ≡ p.points + (if b then n else 0)
points-add_points true n r p = refl
points-add_points false n r p = omega arith

total-add_points :
    (b : Bool) (n : ℕ) (r : PegReason) (p : Pegged) → (add_points b n r p).new_total ≡ p.new_total
total-add_points true n r p = refl
total-add_points false n r p = refl

-- The points for two, three and four cards of a rank are two for each pair.
pairs_of :
    (k : ℕ)
    → k ≤ 4
    → (if k == 2 then 2 else 0) + (if k == 3 then 6 else 0) + (if k == 4 then 12 else 0)
      ≡ k * (k - 1)
pairs_of zero h = refl
pairs_of (suc zero) h = refl
pairs_of (suc (suc zero)) h = refl
pairs_of (suc (suc (suc zero))) h = refl
pairs_of (suc (suc (suc (suc zero)))) h = refl
pairs_of (suc (suc (suc (suc (suc k))))) h = absurd (omega arith)

run_points : (n : ℕ) → (if ltb 0 n then n else 0) ≡ n
run_points n = ground arith

-- The chain of additions.
chain :
    (a b : Bool) (k n total : ℕ)
    → k ≤ 4
    → let start : Pegged = record { points = 0; new_total = total; reasons = [] } in
      let p2 =
        add_points (k == 2) 2 pair (add_points b 2 makes_31 (add_points a 2 makes_15 start)) in
      let p4 = add_points (k == 4) 12 four_of_a_kind (add_points (k == 3) 6 three_of_a_kind p2) in
      ((add_points (ltb 0 n) n run p4).new_total ≡ total)
      × ((add_points (ltb 0 n) n run p4).points
          ≡ (if a then 2 else 0) + (if b then 2 else 0) + k * (k - 1) + n)
chain a b k n total h =
    let start : Pegged = record { points = 0; new_total = total; reasons = [] } in
    let p15 = add_points a 2 makes_15 start in
    let p31 = add_points b 2 makes_31 p15 in
    let p2 = add_points (k == 2) 2 pair p31 in
    let p3 = add_points (k == 3) 6 three_of_a_kind p2 in
    let p4 = add_points (k == 4) 12 four_of_a_kind p3 in
    (
      total-add_points (ltb 0 n) n run p4
          ∙ total-add_points (k == 4) 12 four_of_a_kind p3
          ∙ total-add_points (k == 3) 6 three_of_a_kind p2
          ∙ total-add_points (k == 2) 2 pair p31
          ∙ total-add_points b 2 makes_31 p15
          ∙ total-add_points a 2 makes_15 start,
      omega (
        arith,
        points-add_points (ltb 0 n) n run p4,
        points-add_points (k == 4) 12 four_of_a_kind p3,
        points-add_points (k == 3) 6 three_of_a_kind p2,
        points-add_points (k == 2) 2 pair p31,
        points-add_points b 2 makes_31 p15,
        points-add_points a 2 makes_15 start,
        pairs_of k h,
        run_points n,
      ),
    )

-- A played card scores two for fifteen and two for thirty-one, for up to four cards of its rank two
-- for each pair of them, and the cards of the longest run among the last seven at most.
pub pegging_score_lem :
    (play_seq : List Card) (card : Card) (total : ℕ)
    → same_ranks play_seq card ≤ 4
    → let r = pegging_score play_seq card total in
      let last = play_seq ++ card ∷ [] in
      let k = same_ranks play_seq card in
      (r.new_total ≡ total + value15 card)
      × (r.points
          ≡ (if total + value15 card == 15 then 2 else 0)
            + (if total + value15 card == 31 then 2 else 0)
            + k * (k - 1)
            + run_loop (if ltb (length last) 7 then length last else 7) last)
unfolding pegging_score
pegging_score_lem play_seq card total h =
    let last = play_seq ++ card ∷ [] in
    chain (total + value15 card == 15) (total + value15 card == 31) (same_ranks play_seq card)
      (run_loop (if ltb (length last) 7 then length last else 7) last) (total + value15 card) h

-- The new total of a played card.
pub pegging_score-new_total :
    (play_seq : List Card) (card : Card) (total : ℕ)
    → (pegging_score play_seq card total).new_total ≡ total + value15 card
unfolding pegging_score
pegging_score-new_total play_seq card total = ground arith
