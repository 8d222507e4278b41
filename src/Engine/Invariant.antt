-- ===== src/Engine/Invariant.antt =====
-- internal/game/cribbage/cribbage.go: what holds of a state between two operations, step by step.
use fifteen_thirty_one_go.Shared.{
  Below, Bool, Bool-cases, List, Option-cases, Outcome, [], arith, err, false, if◌then◌else◌, inl,
  inr, leb, length, length-map, length-replicate, length-set, negsuc, not, ok, panic, pos, refl,
  suc, true, zero, ℕ, ℤ, ◌%◌, ◌+◌, ◌-◌, ◌<◌, ◌==◌, ◌≡◌, ◌≢◌, ◌≤◌,
}
use fifteen_thirty_one_go.Cards.{Card}
use fifteen_thirty_one_go.Engine.Rounds.{
  add_score, advance_loop, advance_to_next_playable_or_go, all_empty_loop, append_round_summary,
  award_last, can_play, count_crib, count_dealer, count_hand, count_others, count_round, end_game,
  finish_round, maybe_finish_round, reset_pegging_after_sequence_end, score_of, start_counting,
}
use fifteen_thirty_one_go.Engine.State.{Error, Stage, State, finished, new_state, pegging, players}
use fifteen_thirty_one_go.Rules.{default_rules, default_rules-IsPlayable}

-- The slices have a place for each player, the indices are those of players, and there are two to
-- four players.
pub record WellFormed (s : State) : Type 0 where
  pub at_least_two : 2 ≤ players s
  pub at_most_four : players s ≤ 4
  pub dealer_in : s.dealer_index < players s
  pub current_in : s.current_index < players s
  pub last_in : Below (players s) s.last_play_index
  pub length_hands : length s.hands ≡ players s
  pub length_kept : length s.kept_hands ≡ players s
  pub length_scores : length s.scores ≡ players s
  pub length_completed : length s.discard_completed ≡ players s
  pub length_passed : s.stage ≡ pegging → length s.pegging_passed ≡ players s

abbrev pub NoPanic {ℓ} : {A : Type ℓ} → Outcome Error A → Type 0
NoPanic (ok _) = Unit
NoPanic (err _) = Unit
NoPanic panic = ⊥

-- The operation keeps the state well-formed and does not panic.
abbrev pub IsSafe {ℓ} : {A : Type ℓ} → State × Outcome Error A → Type 0
IsSafe r = WellFormed r.0 × NoPanic r.1

-- NewState gives a well-formed state for every number of players.
pub new_state-WellFormed : (n : ℤ) → WellFormed (new_state n)
unfolding new_state
new_state-WellFormed n =
    let r = default_rules n in
    let h = default_rules-IsPlayable n in
    record {
      at_least_two = h.at_least_two;
      at_most_four = h.at_most_four;
      dealer_in = omega (arith, h.at_least_two);
      current_in = omega (arith, h.at_least_two);
      last_in = tt;
      length_hands = length-replicate r.max_players [];
      length_kept = length-replicate r.max_players [];
      length_scores = length-replicate r.max_players 0;
      length_completed = length-replicate r.max_players false;
      length_passed = λ e. cc;
    }

pub next_player : (i n : ℕ) → 2 ≤ n → (i + 1) % n < n
next_player i n h = omega arith

-- advanceToNextPlayableOrGo changes the current player alone.
pub advance_loop-shape :
    (k i : ℕ) (s : State)
    → s.current_index < players s
    → (c : ℕ) × (advance_loop k i s ≡ record s { current_index = c }) × (c < players s)
unfolding advance_loop
advance_loop-shape zero i s h = (s.current_index, refl, h)
advance_loop-shape (suc k) i s h =
    elim (Bool-cases (can_play s (pos ((s.current_index + i) % players s)))) [
      | inl e ↦ ((s.current_index + i) % players s, rw e, omega arith)
      | inr e ↦ rw e (advance_loop-shape k (i + 1) s h)
    ]

pub advance-shape :
    (s : State)
    → s.current_index < players s
    → (c : ℕ) × (advance_to_next_playable_or_go s ≡ record s { current_index = c })
      × (c < players s)
unfolding advance_to_next_playable_or_go
advance-shape s h = advance_loop-shape (players s) 0 s h

with_current-WellFormed :
    (c : ℕ) (s : State) → c < players s → WellFormed s → WellFormed (record s { current_index = c })
with_current-WellFormed c s h w = ground arith

pub advance-WellFormed : (s : State) → WellFormed s → WellFormed (advance_to_next_playable_or_go s)
advance-WellFormed s w =
    let (c, e, h) = advance-shape s w.current_in in rw e (with_current-WellFormed c s h w)

pub reset-WellFormed :
    (lead : ℕ) (s : State)
    → lead < players s
    → WellFormed s
    → WellFormed (reset_pegging_after_sequence_end lead s)
unfolding reset_pegging_after_sequence_end
reset-WellFormed lead s h w = ground (arith, length-map s.pegging_passed (λ _. false))

pub add_score-WellFormed : (i n : ℕ) (s : State) → WellFormed s → WellFormed (add_score i n s)
unfolding add_score
add_score-WellFormed i n s w = ground (arith, length-set s.scores i (score_of s i + n))

last_none-WellFormed :
    (s : State) → WellFormed s → WellFormed (record s { last_play_index = negsuc 0 })
last_none-WellFormed s w = ground arith

pub award_last-WellFormed : (s : State) → WellFormed s → WellFormed (award_last s)
unfolding award_last
award_last-WellFormed s w = by_last s.last_play_index
  where
    by_last :
        (l : ℤ)
        → WellFormed (elim l [
          | negsuc _ ↦ s
          | pos i ↦
              if not (s.pegging_total == 31)
              then record (add_score i 1 s) { last_play_index = negsuc 0 }
              else s
        ])
    by_last (negsuc _) = w
    by_last (pos i) = elim (Bool-cases (s.pegging_total == 31)) [
      | inl e ↦ rw e w
      | inr e ↦ rw e (last_none-WellFormed (add_score i 1 s) (add_score-WellFormed i 1 s w))
    ]

-- Where the cut is missing the stage alone changes, and a stage other than pegging asks for less.
with_stage-WellFormed :
    (stage : Stage) (s : State)
    → stage ≢ pegging
    → WellFormed s
    → WellFormed (record s { stage = stage })
with_stage-WellFormed stage s h w = ground arith

append_round_summary-WellFormed :
    (before : List ℕ) (s : State) → WellFormed s → WellFormed (append_round_summary before s)
unfolding append_round_summary
append_round_summary-WellFormed before s w = ground arith

end_game-WellFormed : (before : List ℕ) (s : State) → WellFormed s → WellFormed (end_game before s)
unfolding end_game
end_game-WellFormed before s w =
    with_stage-WellFormed finished (append_round_summary before s) (λ e. cc)
      (append_round_summary-WellFormed before s w)

count_hand-WellFormed :
    (cut : Card) (i : ℕ) (s : State) → WellFormed s → WellFormed (count_hand cut i s)
unfolding count_hand
count_hand-WellFormed cut i s w = add_score-WellFormed i _ _ (ground arith)

count_crib-WellFormed : (cut : Card) (s : State) → WellFormed s → WellFormed (count_crib cut s)
unfolding count_crib
count_crib-WellFormed cut s w = add_score-WellFormed s.dealer_index _ _ (ground arith)

count_others-WellFormed :
    (k off : ℕ) (cut : Card) (before : List ℕ) (s : State)
    → WellFormed s
    → WellFormed (count_others k off cut before s).0
unfolding count_others
count_others-WellFormed zero off cut before s w = w
count_others-WellFormed (suc k) off cut before s w =
    let i = (s.dealer_index + off) % players s in
    let s' = count_hand cut i s in
    let w' = count_hand-WellFormed cut i s w in
    elim (Bool-cases (leb 121 (score_of s' i))) [
      | inl e ↦ rw e (end_game-WellFormed before s' w')
      | inr e ↦ rw e (count_others-WellFormed k (off + 1) cut before s' w')
    ]

count_dealer-WellFormed :
    (cut : Card) (before : List ℕ) (r : State × Bool)
    → WellFormed r.0
    → WellFormed (count_dealer cut before r)
unfolding count_dealer
count_dealer-WellFormed cut before (s, true) w = w
count_dealer-WellFormed cut before (s, false) w =
    let s' = count_hand cut s.dealer_index s in
    let w' = count_hand-WellFormed cut s.dealer_index s w in
    let s'' = count_crib cut s' in
    let w'' = count_crib-WellFormed cut s' w' in
    elim (Bool-cases (leb 121 (score_of s' s'.dealer_index))) [
      | inl e ↦ rw e (end_game-WellFormed before s' w')
      | inr e ↦ rw e (elim (Bool-cases (leb 121 (score_of s'' s''.dealer_index))) [
        | inl f ↦ rw f (end_game-WellFormed before s'' w'')
        | inr f ↦ rw f (append_round_summary-WellFormed before s'' w'')
      ])
    ]

pub start_counting-WellFormed : (s : State) → WellFormed s → WellFormed (start_counting s)
unfolding start_counting
start_counting-WellFormed s w = ground arith

finish_round-IsSafe : (s : State) → WellFormed s → IsSafe (finish_round s)
unfolding finish_round count_round
finish_round-IsSafe s w = elim (Option-cases s.cut) [
  | inl e ↦ rw (e, finish_round) (with_stage-WellFormed finished s (λ p. cc) w, tt)
  | inr (cut, e) ↦
      rw (e, finish_round)
        (
          count_dealer-WellFormed cut s.scores _
              (count_others-WellFormed (players s - 1) 1 cut s.scores s w),
          tt,
        )
]

-- maybeFinishRound keeps a state well-formed and does not panic.
pub maybe_finish_round-IsSafe : (s : State) → WellFormed s → IsSafe (maybe_finish_round s)
unfolding maybe_finish_round
maybe_finish_round-IsSafe s w = elim (Bool-cases (all_empty_loop (players s) 0 s)) [
  | inl e ↦ rw e (
      finish_round-IsSafe (start_counting (award_last s))
        (start_counting-WellFormed (award_last s) (award_last-WellFormed s w)))
  | inr e ↦ rw e (w, tt)
]
