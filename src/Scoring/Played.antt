-- ===== src/Scoring/Played.antt =====
-- PeggingScore of internal/game/cribbage/scoring.go against the rules of the play.
use mathlib.Core.List.{reverse, reverse-append, reverse-cons}
use Prim.Native.Nat.{min}
use fifteen_thirty_one_go.Shared.{
  List, [], ap, arith, drop, if◌then◌else◌, inl, inr, length, length-append, length-drop, ltb, refl,
  subst, suc, sym, take, take-append-drop, true, ℕ, ◌*◌, ◌++◌, ◌+◌, ◌-◌, ◌<◌, ◌==◌, ◌||◌, ◌∙◌, ◌∷◌,
  ◌≡◌, ◌≢◌, ◌≤◌, ◌⊎◌,
}
use fifteen_thirty_one_go.Cards.{Card, value15}
use fifteen_thirty_one_go.Scoring.Consecutive.{IsRun, in_ranks, is_run-IsRun, is_run_iff}
use fifteen_thirty_one_go.Scoring.Longest.{pegging_score_lem, run_loop_longest, same_ranks}
use fifteen_thirty_one_go.Scoring.Pegging.{is_run, pegging_score, run_loop, same_loop, window_of}

-- The last n cards are a run.
abbrev pub EndsInRunOf : ℕ → List Card → Type 0
EndsInRunOf n last =
    (front : List Card) × (back : List Card) × (last ≡ front ++ back)
    × (length back ≡ n)
    × IsRun back

-- n is the number of cards of the longest run of three to seven cards at the end, or 0 without one.
abbrev pub IsLongestRun : ℕ → List Card → Type 0
IsLongestRun n last =
    ((n ≡ 0) ⊎ ((3 ≤ n) × (n ≤ 7) × EndsInRunOf n last))
    × ((m : ℕ) → 3 ≤ m → n < m → m ≤ 7 → EndsInRunOf m last → ⊥)

abbrev pub AllOfRank : ℕ → List Card → Type 0
AllOfRank r [] = Unit
AllOfRank r (c ∷ cards) = (c.rank ≡ r) × AllOfRank r cards

-- There is no last card, or it has another rank.
abbrev pub EndsOtherwise : ℕ → List Card → Type 0
EndsOtherwise r cards =
    (cards ≡ []) ⊎ ((front : List Card) × (c : Card) × (cards ≡ front ++ c ∷ []) × (c.rank ≢ r))

-- What a card counts: its rank, and ten for the court cards.
abbrev pub worth : Card → ℕ
worth c = min c.rank 10

value15-worth : (c : Card) → value15 c ≡ worth c
unfolding value15
value15-worth c = ground arith

drop-append : (front back : List Card) → drop (length front) (front ++ back) ≡ back
drop-append [] back = refl
drop-append (c ∷ front) back = drop-append front back

-- The last cards are those that the code slices off.
window_of_back :
    (n : ℕ) (last front back : List Card)
    → last ≡ front ++ back
    → length back ≡ n
    → window_of n last ≡ back
window_of_back n last front back e size =
    let total : length last ≡ length front + length back =
      ap length e ∙ length-append {0} front back in
    let skipped : length last - n ≡ length front = omega (arith, total, size) in
    ap (λ k. drop k last) skipped ∙ ap (drop (length front)) e ∙ drop-append front back

length-window_of : (n : ℕ) (last : List Card) → n ≤ length last → length (window_of n last) ≡ n
length-window_of n last h = omega (arith, length-drop (length last - n) last)

in_ranks-append :
    (r : ℕ) (xs ys : List Card) → in_ranks r (xs ++ ys) ≡ (in_ranks r xs || in_ranks r ys)
unfolding in_ranks
in_ranks-append r [] ys = refl
in_ranks-append r (x ∷ xs) ys = ground (arith, in_ranks-append r xs ys)

-- The ranks of cards of a deck.
abbrev pub Ranked : List Card → Type 0
Ranked cards = (r : ℕ) → in_ranks r cards ≡ true → r ≤ 13

window-Ranked : (last front back : List Card) → last ≡ front ++ back → Ranked last → Ranked back
window-Ranked last front back e h r there =
    h r (ap (in_ranks r) e ∙ in_ranks-append r front back ∙ ground arith)

longest :
    (last : List Card)
    → Ranked last
    → IsLongestRun (run_loop (if ltb (length last) 7 then length last else 7) last) last
longest last ranked =
    let bound = if ltb (length last) 7 then length last else 7 in
    let (found, none_longer) = run_loop_longest bound last in
    (
      elim found [
        | inl e ↦ inl e
        | inr (three, most, found_run) ↦
            let n = run_loop bound last in
            let fits : n ≤ length last = within (length last) n most in
            let whole : last ≡ take (length last - n) last ++ window_of n last =
              sym (take-append-drop (length last - n) last) in
            inr (
              three,
              seven (length last) n most,
              (
                take (length last - n) last,
                window_of n last,
                whole,
                length-window_of n last fits,
                is_run-IsRun (window_of n last) found_run,
              ),
            )
      ],
      λ m three longer few (front, back, e, size, consecutive).
          let same = window_of_back m last front back e size in
          let long : m ≤ length last =
            omega (arith, ap length e, length-append {0} front back, size) in
          let not_run = none_longer m three longer (fitting (length last) m long few) in
          let ranks : (r : ℕ) → in_ranks r back ≡ true → r ≤ 99 =
            λ r there. omega (arith, window-Ranked last front back e ranked r there) in
          let is : is_run back ≡ true =
            (is_run_iff back (omega (arith, size, three)) ranks).1 consecutive in
          cc (sym (ap is_run same ∙ is) ∙ not_run),
    )
  where
    within : (k n : ℕ) → n ≤ (if ltb k 7 then k else 7) → n ≤ k
    within k n h = ground arith

    seven : (k n : ℕ) → n ≤ (if ltb k 7 then k else 7) → n ≤ 7
    seven k n h = ground arith

    fitting : (k m : ℕ) → m ≤ k → m ≤ 7 → m ≤ (if ltb k 7 then k else 7)
    fitting k m h h' = ground arith

-- The loop over the newest cards stops at the first of another rank.
same_loop-append :
    (r k : ℕ) (xs ys : List Card)
    → AllOfRank r xs
    → same_loop r ys (k + length xs) ≡ k + length xs
    → same_loop r (xs ++ ys) k ≡ k + length xs
unfolding same_loop
same_loop-append r k [] ys h stop =
    let same : k + 0 ≡ k = omega arith in subst (λ n. same_loop r ys n ≡ n) same stop ∙ sym same
same_loop-append r k (x ∷ xs) ys h stop =
    let same : k + 1 + length xs ≡ k + suc (length xs) = omega arith in
    let rest =
      same_loop-append r (k + 1) xs ys h.1 (subst (λ n. same_loop r ys n ≡ n) (sym same) stop) in
    ground (arith, rest, h.0)

append-AllOfRank :
    (r : ℕ) (xs ys : List Card) → AllOfRank r xs → AllOfRank r ys → AllOfRank r (xs ++ ys)
append-AllOfRank r [] ys h k = k
append-AllOfRank r (x ∷ xs) ys h k = (h.0, append-AllOfRank r xs ys h.1 k)

reverse-AllOfRank : (r : ℕ) (xs : List Card) → AllOfRank r xs → AllOfRank r (reverse xs)
reverse-AllOfRank r [] h = tt
reverse-AllOfRank r (x ∷ xs) h =
    subst (AllOfRank r) (sym (reverse-cons x xs))
      (append-AllOfRank r (reverse xs) (x ∷ []) (reverse-AllOfRank r xs h.1) (h.0, tt))

length-reverse : (xs : List Card) → length (reverse xs) ≡ length xs
length-reverse [] = refl
length-reverse (x ∷ xs) =
    ap length (reverse-cons x xs)
    ∙ omega (arith, length-append {0} (reverse xs) (x ∷ []), length-reverse xs)

stops : (r k : ℕ) (older : List Card) → EndsOtherwise r older → same_loop r (reverse older) k ≡ k
unfolding same_loop
stops r k older (inl e) = ap (λ x. same_loop r (reverse x) k) e
stops r k older (inr (front, c, e, other)) =
    ap (λ x. same_loop r (reverse x) k) e
    ∙ ap (λ x. same_loop r x k) (reverse-append front (c ∷ []))
    ∙ ground arith

same_ranks-count :
    (older same : List Card) (card : Card)
    → AllOfRank card.rank same
    → EndsOtherwise card.rank older
    → same_ranks (older ++ same) card ≡ 1 + length same
same_ranks-count older same card all other =
    let r = card.rank in
    let sizes = length-reverse same in
    ap (λ x. same_loop r x 1) (reverse-append older same)
    ∙ same_loop-append r 1 (reverse same) (reverse older) (reverse-AllOfRank r same all)
        (stops r (1 + length (reverse same)) older other)
    ∙ ap (λ n. 1 + n) sizes

pairs_with : (k : ℕ) → (1 + k) * (1 + k - 1) ≡ (k + 1) * k
pairs_with k =
    let more : 1 + k ≡ k + 1 = omega arith in
    let less : 1 + k - 1 ≡ k = omega arith in
    ap (λ x. x * (1 + k - 1)) more ∙ ap (λ x. (k + 1) * x) less

-- A card that is played on others, the last at most three of which have its rank and the one before them
-- another, adds its rank or ten to the total. It scores two for fifteen and two for thirty-one, two for
-- each pair among the cards of its rank with it, and the cards of the longest run of three to seven that
-- it ends: so many cards of consecutive ranks, each once. All ranks are up to 13.
pub pegging_score-rules :
    (older same : List Card) (card : Card) (total : ℕ)
    → AllOfRank card.rank same
    → EndsOtherwise card.rank older
    → length same ≤ 3
    → Ranked ((older ++ same) ++ card ∷ [])
    → let r = pegging_score (older ++ same) card total in
      let new = total + worth card in
      (r.new_total ≡ new)
      × ((n : ℕ) × IsLongestRun n ((older ++ same) ++ card ∷ [])
          × (r.points
              ≡ (if new == 15 then 2 else 0)
                + (if new == 31 then 2 else 0)
                + (length same + 1) * length same
                + n))
pegging_score-rules older same card total all other few ranked =
    let last = (older ++ same) ++ card ∷ [] in
    let n = run_loop (if ltb (length last) 7 then length last else 7) last in
    let k = same_ranks-count older same card all other in
    let (new_total, points) =
      pegging_score_lem (older ++ same) card total (omega (arith, k, few)) in
    let pairs : same_ranks (older ++ same) card * (same_ranks (older ++ same) card - 1)
        ≡ (length same + 1) * length same =
      ap (λ x. x * (x - 1)) k ∙ pairs_with (length same) in
    let value = value15-worth card in
    (
      new_total ∙ ap (λ x. total + x) value,
      (
        n,
        longest last ranked,
        points
            ∙ ap
                (λ x.
                  (if total + x == 15 then 2 else 0)
                  + (if total + x == 31 then 2 else 0)
                  + same_ranks (older ++ same) card * (same_ranks (older ++ same) card - 1)
                  + n)
                value
            ∙ ap
                (λ x.
                  (if total + worth card == 15 then 2 else 0)
                  + (if total + worth card == 31 then 2 else 0)
                  + x
                  + n)
                pairs,
      ),
    )
