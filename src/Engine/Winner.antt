-- ===== src/Engine/Winner.antt =====
-- maybeFinishRound of internal/game/cribbage/cribbage.go: the end of a game in the count.
use native.Mathlib.Nat.{add-mod_right, mod-eq_of_lt}
use fifteen_thirty_one_go.Shared.{
  Bool, Bool-cases, List, ap, arith, false, get_or, get_or-set_other, inl, inr, leb, ltb, refl, set,
  some, subst, suc, sym, true, zero, ℕ, ◌%◌, ◌+◌, ◌-◌, ◌<◌, ◌==◌, ◌∙◌, ◌≡◌, ◌≢◌, ◌≤◌, ◌⊎◌,
}
use fifteen_thirty_one_go.Cards.{Card}
use fifteen_thirty_one_go.Engine.Invariant.{
  WellFormed, award_last-WellFormed, start_counting-WellFormed,
}
use fifteen_thirty_one_go.Engine.Rounds.{
  add_score, all_empty_loop, append_round_summary, award_last, count_crib, count_dealer, count_hand,
  count_others, count_round, end_game, finish_round, maybe_finish_round, score_of, start_counting,
}
use fifteen_thirty_one_go.Engine.Safety.{players-award_last}
use fifteen_thirty_one_go.Engine.State.{State, counting, finished, players}

-- A player has won.
abbrev pub HasWinner : State → Type 0
HasWinner s = (j : ℕ) × (121 ≤ score_of s j)

-- Points for one player leave the others below 121, and this one where the new score is below.
add_score-low :
    (i n j : ℕ) (s : State)
    → score_of (add_score i n s) i < 121
    → (j ≢ i → score_of s j < 121)
    → score_of (add_score i n s) j < 121
unfolding add_score
add_score-low i n j s h k = elim (Bool-cases (i == j)) [
  | inl e ↦ subst (λ x. get_or (set s.scores i (score_of s i + n)) x 0 < 121) (ground arith) h
  | inr e ↦
      let other : i ≢ j = λ f. ground arith in
      omega
        (arith, get_or-set_other s.scores i j (score_of s i + n) 0 other, k (λ f. other (sym f)))
]

count_hand-low :
    (cut : Card) (i j : ℕ) (s : State)
    → score_of (count_hand cut i s) i < 121
    → (j ≢ i → score_of s j < 121)
    → score_of (count_hand cut i s) j < 121
unfolding count_hand
count_hand-low cut i j s h k = add_score-low i _ j _ h k

dealer-count_hand :
    (cut : Card) (i : ℕ) (s : State) → (count_hand cut i s).dealer_index ≡ s.dealer_index
unfolding count_hand add_score
dealer-count_hand cut i s = refl

players-count_hand : (cut : Card) (i : ℕ) (s : State) → players (count_hand cut i s) ≡ players s
unfolding count_hand add_score
players-count_hand cut i s = refl

dealer-count_crib : (cut : Card) (s : State) → (count_crib cut s).dealer_index ≡ s.dealer_index
unfolding count_crib add_score
dealer-count_crib cut s = refl

stage-counted :
    (cut : Card) (s : State) → (count_crib cut (count_hand cut s.dealer_index s)).stage ≡ s.stage
unfolding count_hand count_crib add_score
stage-counted cut s = refl

count_crib-low :
    (cut : Card) (j : ℕ) (s : State)
    → score_of (count_crib cut s) s.dealer_index < 121
    → (j ≢ s.dealer_index → score_of s j < 121)
    → score_of (count_crib cut s) j < 121
unfolding count_crib
count_crib-low cut j s h k = add_score-low s.dealer_index _ j _ h k

-- Nobody that the loop has counted has 121 in t, nor has anybody who was below in s.
abbrev LowAfter : ℕ → ℕ → State → State → Type 0
LowAfter k off s t =
    ((j : ℕ) → score_of s j < 121 → score_of t j < 121)
    × ((o : ℕ) → o < k → score_of t ((s.dealer_index + (off + o)) % players s) < 121)

LowAfter-suc :
    (k off : ℕ) (s s' t : State)
    → s'.dealer_index ≡ s.dealer_index
    → players s' ≡ players s
    → ((j : ℕ) → score_of s j < 121 → score_of s' j < 121)
    → score_of s' ((s.dealer_index + off) % players s) < 121
    → LowAfter k (off + 1) s' t
    → LowAfter (suc k) off s t
LowAfter-suc k off s s' t d p keep low (all, rest) = (λ j l. all j (keep j l), counted)
  where
    counted : (o : ℕ) → o < suc k → score_of t ((s.dealer_index + (off + o)) % players s) < 121
    counted zero l =
        let e : off + 0 ≡ off = omega arith in
        subst (λ x. score_of t ((s.dealer_index + x) % players s) < 121) (sym e) (all _ low)
    counted (suc o) l =
        let e : off + 1 + o ≡ off + suc o = omega arith in
        subst (λ x. score_of t ((s.dealer_index + x) % players s) < 121) e
          (subst (λ x. score_of t ((x + (off + 1 + o)) % players s) < 121) d
            (subst (λ x. score_of t ((s'.dealer_index + (off + 1 + o)) % x) < 121) p
              (rest o (omega arith))))

count_others-LowAfter :
    (k off : ℕ) (cut : Card) (before : List ℕ) (s : State)
    → (count_others k off cut before s).1 ≡ false
    → LowAfter k off s (count_others k off cut before s).0
unfolding count_others
count_others-LowAfter zero off cut before s h = (λ j l. l, λ o l. absurd (omega arith))
count_others-LowAfter (suc k) off cut before s h =
    let i = (s.dealer_index + off) % players s in
    let s' = count_hand cut i s in
    elim (Bool-cases (leb 121 (score_of s' i))) [
      | inl e ↦ absurd (ground arith)
      | inr e ↦
          let low : score_of s' i < 121 = ground arith in
          rw e (
            LowAfter-suc k off s s' (count_others k (off + 1) cut before s').0
              (dealer-count_hand cut i s) (players-count_hand cut i s)
              (λ j l. count_hand-low cut i j s low (λ _. l)) low
              (count_others-LowAfter k (off + 1) cut before s' (rw e at h)))
    ]

count_others-HasWinner :
    (k off : ℕ) (cut : Card) (before : List ℕ) (s : State)
    → (count_others k off cut before s).1 ≡ true
    → HasWinner (count_others k off cut before s).0
unfolding count_others end_game append_round_summary
count_others-HasWinner zero off cut before s h = absurd (ground arith)
count_others-HasWinner (suc k) off cut before s h =
    let i = (s.dealer_index + off) % players s in
    let s' = count_hand cut i s in
    elim (Bool-cases (leb 121 (score_of s' i))) [
      | inl e ↦ rw e (i, ground arith)
      | inr e ↦ rw e (count_others-HasWinner k (off + 1) cut before s' (rw e at h))
    ]

dealer-count_others :
    (k off : ℕ) (cut : Card) (before : List ℕ) (s : State)
    → (count_others k off cut before s).0.dealer_index ≡ s.dealer_index
unfolding count_others end_game append_round_summary count_hand add_score
dealer-count_others zero off cut before s = refl
dealer-count_others (suc k) off cut before s =
    let i = (s.dealer_index + off) % players s in
    let s' = count_hand cut i s in
    elim (Bool-cases (leb 121 (score_of s' i))) [
      | inl e ↦ rw e refl
      | inr e ↦ rw e (dealer-count_others k (off + 1) cut before s')
    ]

count_others-stage :
    (k off : ℕ) (cut : Card) (before : List ℕ) (s : State)
    → ((count_others k off cut before s).1 ≡ true
        → (count_others k off cut before s).0.stage ≡ finished)
      × ((count_others k off cut before s).1 ≡ false
          → (count_others k off cut before s).0.stage ≡ s.stage)
unfolding count_others end_game append_round_summary count_hand add_score
count_others-stage zero off cut before s = (λ h. absurd (ground arith), λ h. refl)
count_others-stage (suc k) off cut before s =
    let i = (s.dealer_index + off) % players s in
    let s' = count_hand cut i s in
    elim (Bool-cases (leb 121 (score_of s' i))) [
      | inl e ↦ rw e (λ h. refl, λ h. absurd (ground arith))
      | inr e ↦ rw e (count_others-stage k (off + 1) cut before s')
    ]

-- The dealer's hand and crib decide.
count_dealer-decides :
    (cut : Card) (before : List ℕ) (s : State)
    → s.stage ≡ counting
    → let t = count_dealer cut before (s, false) in
      ((t.stage ≡ finished) × HasWinner t)
      ⊎ ((t.stage ≡ counting)
          × ((score_of t s.dealer_index < 121)
              × ((j : ℕ) → score_of s j < 121 → score_of t j < 121)))
unfolding count_dealer end_game append_round_summary count_hand add_score
count_dealer-decides cut before s h =
    let d = s.dealer_index in
    let s' = count_hand cut d s in
    let s'' = count_crib cut s' in
    elim (Bool-cases (leb 121 (score_of s' s'.dealer_index))) [
      | inl e ↦ rw e (inl (refl, (s'.dealer_index, ground arith)))
      | inr e ↦ rw e (elim (Bool-cases (leb 121 (score_of s'' s''.dealer_index))) [
        | inl f ↦ rw f (inl (refl, (s''.dealer_index, ground arith)))
        | inr f ↦ rw f (
            inr (
              stage-counted cut s ∙ h,
              lows (ground (arith, dealer-count_hand cut d s))
                  (ground (arith, dealer-count_crib cut s', dealer-count_hand cut d s)),
            ))
      ])
    ]
  where
    lows :
        score_of (count_hand cut s.dealer_index s) s.dealer_index < 121
        → score_of (count_crib cut (count_hand cut s.dealer_index s)) s.dealer_index < 121
        → let t = count_crib cut (count_hand cut s.dealer_index s) in
          (score_of t s.dealer_index < 121) × ((j : ℕ) → score_of s j < 121 → score_of t j < 121)
    lows a b = (
      b,
      λ j l.
          count_crib-low cut j (count_hand cut s.dealer_index s) b
            (λ _. count_hand-low cut s.dealer_index j s a (λ _. l)),
    )

-- The players left of the dealer are all the others.
reached : (n d i : ℕ) → i < n → d < n → i ≢ d → (o : ℕ) × (o < n - 1) × ((d + (1 + o)) % n ≡ i)
reached n d i h k e = elim (Bool-cases (ltb d i)) [
  | inl f ↦
      let o = i - (d + 1) in
      let sum : d + (1 + o) ≡ i = ground arith in
      (o, ground arith, ap (λ x. x % n) sum ∙ mod-eq_of_lt h)
  | inr f ↦
      let o = i + n - (d + 1) in
      let sum : d + (1 + o) ≡ i + n = omega arith in
      let less : i < d = ground arith in
      (o, omega arith, ap (λ x. x % n) sum ∙ add-mod_right i n ∙ mod-eq_of_lt h)
]

-- The count of a hand has decided whether the game goes on for n players.
abbrev Decided : ℕ → State → Type 0
Decided n t =
    ((t.stage ≡ finished) × HasWinner t)
    ⊎ ((t.stage ≡ counting) × ((j : ℕ) → j < n → score_of t j < 121))

-- The whole count, of a state that is in the count.
count_round-decides :
    (cut : Card) (s : State)
    → WellFormed s
    → s.stage ≡ counting
    → let t = count_round cut s in
      ((t.stage ≡ finished) × HasWinner t)
      ⊎ ((t.stage ≡ counting) × ((j : ℕ) → j < players s → score_of t j < 121))
unfolding count_round count_dealer
count_round-decides cut s w h = by_others (count_others (players s - 1) 1 cut s.scores s) refl
  where
    open_at :
        (t : State)
        → LowAfter (players s - 1) 1 s t
        → t.dealer_index ≡ s.dealer_index
        → (score_of (count_dealer cut s.scores (t, false)) t.dealer_index < 121)
          × ((j : ℕ) → score_of t j < 121 → score_of (count_dealer cut s.scores (t, false)) j < 121)
        → (j : ℕ) → j < players s
        → score_of (count_dealer cut s.scores (t, false)) j < 121
    open_at t low d (dealer, others) j l = elim (Bool-cases (s.dealer_index == j)) [
      | inl e ↦
          subst (λ x. score_of (count_dealer cut s.scores (t, false)) x < 121) (d ∙ ground arith)
            dealer
      | inr e ↦
          let (o, lo, there) =
            reached (players s) s.dealer_index j l w.dealer_in (λ f. ground arith) in
          others j (subst (λ x. score_of t x < 121) there (low.1 o lo))
    ]

    by_others :
        (r : State × Bool)
        → count_others (players s - 1) 1 cut s.scores s ≡ r
        → let t = count_dealer cut s.scores r in
          ((t.stage ≡ finished) × HasWinner t)
          ⊎ ((t.stage ≡ counting) × ((j : ℕ) → j < players s → score_of t j < 121))
    by_others (t, true) e =
        let moved = ap (λ (x : State × Bool). x.1) e in
        let same = ap (λ (x : State × Bool). x.0) e in
        let won = count_others-HasWinner (players s - 1) 1 cut s.scores s moved in
        let stage = (count_others-stage (players s - 1) 1 cut s.scores s).0 moved in
        inl (ap (λ (x : State). x.stage) (sym same) ∙ stage, subst (λ x. HasWinner x) same won)
    by_others (t, false) e =
        let moved = ap (λ (x : State × Bool). x.1) e in
        let same = ap (λ (x : State × Bool). x.0) e in
        let low =
          subst (λ x. LowAfter (players s - 1) 1 s x) same
            (count_others-LowAfter (players s - 1) 1 cut s.scores s moved) in
        let dealer =
          ap (λ (x : State). x.dealer_index) (sym same)
          ∙ dealer-count_others (players s - 1) 1 cut s.scores s in
        let stage =
          ap (λ (x : State). x.stage) (sym same)
          ∙ (count_others-stage (players s - 1) 1 cut s.scores s).1 moved in
        elim (count_dealer-decides cut s.scores t (stage ∙ h)) [
          | inl won ↦ inl won
          | inr (goes_on, lows) ↦ inr (goes_on, λ j l. open_at t low dealer lows j l)
        ]

cut-award_last : (s : State) → (award_last s).cut ≡ s.cut
unfolding award_last add_score
cut-award_last s = ground arith

-- A hand of a well-formed state that is played to its end, with a cut, finishes the game exactly where somebody has 121
-- points in the count: either the game is finished and some player has, or it is in the stage of
-- counting, from which the next hand is dealt, and no player has.
pub maybe_finish_round-decides :
    (s : State) (cut : Card)
    → WellFormed s
    → s.cut ≡ some cut
    → all_empty_loop (players s) 0 s ≡ true
    → let t = (maybe_finish_round s).0 in
      ((t.stage ≡ finished) × HasWinner t)
      ⊎ ((t.stage ≡ counting) × ((j : ℕ) → j < players s → score_of t j < 121))
unfolding maybe_finish_round finish_round start_counting
maybe_finish_round-decides s cut w h e =
    let r = start_counting (award_last s) in
    let c : (start_counting (award_last s)).cut ≡ some cut = cut-award_last s ∙ h in
    rw (e, c, finish_round)
      (subst (λ n. Decided n (count_round cut r)) (players-award_last s)
        (count_round-decides cut r
          (start_counting-WellFormed (award_last s) (award_last-WellFormed s w)) refl))
