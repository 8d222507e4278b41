-- ===== src/Scoring/Show.antt =====
-- ScoreHand: what a hand of four cards, or the crib, scores with the cut.
use fifteen_thirty_one_go.Shared.{
  Bool, List, [], arith, false, if◌then◌else◌, ltb, refl, ℕ, ◌*◌, ◌++◌, ◌+◌, ◌∷◌, ◌≡◌,
}
use fifteen_thirty_one_go.Cards.{Card, clubs, diamonds, hearts, spades, suit_eq, value15}
use fifteen_thirty_one_go.Scoring.Fifteens.{score_fifteens, score_fifteens-ways, ways}
use fifteen_thirty_one_go.Scoring.Flush.{score_flush, score_nobs}
use fifteen_thirty_one_go.Scoring.Pairs.{same_rank_pairs, score_pairs, score_pairs-same_rank_pairs}
use fifteen_thirty_one_go.Scoring.Runs.{score_runs}

pub data Reason : Type 0 where
  by_fifteens by_pairs by_runs by_flush by_nobs : Reason

pub record ScoreBreakdown : Type 0 where
  pub total : ℕ
  pub fifteens : ℕ
  pub pairs : ℕ
  pub runs : ℕ
  pub flush : ℕ
  pub nobs : ℕ
  pub reasons : List (Reason × ℕ)

-- `if n > 0 { sb.Reasons[key] = n }`. An empty map and the nil map are the same list.
reason_if : Reason → ℕ → List (Reason × ℕ) → List (Reason × ℕ)
reason_if key n rest = if ltb 0 n then (key, n) ∷ rest else rest

unfoldable pub score_hand : List Card → Card → Bool → ScoreBreakdown
unfolding reason_if
score_hand hand cut is_crib =
    let all = hand ++ cut ∷ [] in
    let fifteens = score_fifteens all in
    let pairs = score_pairs all in
    let runs = score_runs all in
    let flush = score_flush hand cut is_crib in
    let nobs = score_nobs hand cut in
    record {
      total = fifteens + pairs + runs + flush + nobs;
      fifteens = fifteens;
      pairs = pairs;
      runs = runs;
      flush = flush;
      nobs = nobs;
      reasons = reason_if by_fifteens fifteens (
          reason_if by_pairs pairs
            (reason_if by_runs runs (reason_if by_flush flush (reason_if by_nobs nobs []))));
    }

-- The points that the reasons of a breakdown name.
unfoldable pub sum_reasons : List (Reason × ℕ) → ℕ
sum_reasons [] = 0
sum_reasons ((key, n) ∷ rest) = n + sum_reasons rest

sum-reason_if :
    (key : Reason) (n : ℕ) (rest : List (Reason × ℕ))
    → sum_reasons (reason_if key n rest) ≡ n + sum_reasons rest
unfolding reason_if sum_reasons
sum-reason_if key n rest = ground arith

sum-no_reasons : sum_reasons [] ≡ 0
unfolding sum_reasons
sum-no_reasons = refl

-- The reasons that ScoreHand shows add up to the total, and the fifteens and the pairs among them
-- are those of the independent descriptions, over the hand and the cut together.
pub score_hand-sum_reasons :
    (hand : List Card) (cut : Card) (is_crib : Bool)
    → let b = score_hand hand cut is_crib in
      let all = hand ++ cut ∷ [] in
      (sum_reasons b.reasons ≡ b.total)
      × (b.total ≡ 2 * ways 15 all + 2 * same_rank_pairs all + b.runs + b.flush + b.nobs)
unfolding score_hand
score_hand-sum_reasons hand cut is_crib =
    let all = hand ++ cut ∷ [] in
    (
      omega (arith, sum-reason_if, sum-no_reasons),
      omega (arith, score_fifteens-ways all, score_pairs-same_rank_pairs all),
    )

-- The best hand: J 5 5 5 with the fourth 5, of the jack's suit, cut.
perfect_hand :
    (score_hand
      (record { rank = 11; suit = hearts }
        ∷ record { rank = 5; suit = spades }
        ∷ record { rank = 5; suit = clubs }
        ∷ record { rank = 5; suit = diamonds }
        ∷ [])
      (record { rank = 5; suit = hearts })
      false).total
    ≡ 29
unfolding score_hand score_fifteens score_pairs score_runs score_flush score_nobs value15 suit_eq
perfect_hand = refl
