-- ===== src/Engine/Stages.antt =====
-- internal/game/cribbage/cribbage.go: which stage an operation leaves.
use fifteen_thirty_one_go.Shared.{
  Bool, Bool-cases, List, Option-cases, ap, arith, err, false, get_elem?, if◌then◌else◌, inl, inr,
  leb, ltb, negsuc, not, ok, panic, pos, refl, suc, true, zero, ℕ, ℤ, ◌%◌, ◌+◌, ◌-◌, ◌<◌, ◌==◌, ◌∙◌,
  ◌≡◌, ◌≢◌, ◌⊎◌,
}
use fifteen_thirty_one_go.Cards.{Card, value15}
use fifteen_thirty_one_go.Engine.Invariant.{WellFormed, advance-shape, next_player}
use fifteen_thirty_one_go.Engine.Play.{
  after_pass, all_passed_loop, end_sequence, go, pass, pass_turn, play_of, play_pegging_card,
  record_play, with_value,
}
use fifteen_thirty_one_go.Engine.Rounds.{
  add_score, advance_to_next_playable_or_go, all_empty_loop, append_round_summary, award_last,
  can_play, count_crib, count_dealer, count_hand, count_others, count_round, end_game, finish_round,
  maybe_finish_round, reset_pegging_after_sequence_end, score_of, start_counting,
}
use fifteen_thirty_one_go.Engine.Safety.{
  pass-WellFormed, players-award_last, record_play-WellFormed,
}
use fifteen_thirty_one_go.Engine.State.{
  Done, Stage, State, counting, discarding, find_card, finished, pegging, players, stage_eq_iff,
}
use fifteen_thirty_one_go.Scoring.Pegging.{PegReason, pegging_score}

stage-advance :
    (s : State) → s.current_index < players s → (advance_to_next_playable_or_go s).stage ≡ s.stage
stage-advance s h = let (c, e, _) = advance-shape s h in ap (λ (t : State). t.stage) e

-- The stages that a counted state can be in.
abbrev IsCounted : Stage → Type 0
IsCounted stage = (stage ≡ counting) ⊎ (stage ≡ finished)

count_others-IsCounted :
    (k off : ℕ) (cut : Card) (before : List ℕ) (s : State)
    → IsCounted s.stage
    → IsCounted (count_others k off cut before s).0.stage
unfolding count_others count_hand add_score end_game append_round_summary
count_others-IsCounted zero off cut before s h = h
count_others-IsCounted (suc k) off cut before s h =
    let i = (s.dealer_index + off) % players s in
    let s' = count_hand cut i s in
    elim (Bool-cases (leb 121 (score_of s' i))) [
      | inl e ↦ rw e (inr refl)
      | inr e ↦ rw e (count_others-IsCounted k (off + 1) cut before s' h)
    ]

count_dealer-IsCounted :
    (cut : Card) (before : List ℕ) (r : State × Bool)
    → IsCounted r.0.stage
    → IsCounted (count_dealer cut before r).stage
unfolding count_dealer count_hand count_crib add_score end_game append_round_summary
count_dealer-IsCounted cut before (s, true) h = h
count_dealer-IsCounted cut before (s, false) h =
    let s' = count_hand cut s.dealer_index s in
    let s'' = count_crib cut s' in
    elim (Bool-cases (leb 121 (score_of s' s'.dealer_index))) [
      | inl e ↦ rw e (inr refl)
      | inr e ↦ rw e (elim (Bool-cases (leb 121 (score_of s'' s''.dealer_index))) [
        | inl f ↦ rw f (inr refl)
        | inr f ↦ rw f h
      ])
    ]

finish_round-IsCounted : (s : State) → IsCounted s.stage → IsCounted (finish_round s).0.stage
unfolding finish_round count_round
finish_round-IsCounted s h = elim (Option-cases s.cut) [
  | inl e ↦ rw (e, finish_round) (inr refl)
  | inr (cut, e) ↦
      rw (e, finish_round)
        (count_dealer-IsCounted cut s.scores _
          (count_others-IsCounted (players s - 1) 1 cut s.scores s h))
]

-- maybeFinishRound leaves the stage as it is, or counting, or finished.
pub maybe_finish_round-stage :
    (s : State) → ((maybe_finish_round s).0 ≡ s) ⊎ IsCounted (maybe_finish_round s).0.stage
unfolding maybe_finish_round
maybe_finish_round-stage s = elim (Bool-cases (all_empty_loop (players s) 0 s)) [
  | inl e ↦ rw e (
      inr (
        finish_round-IsCounted (start_counting (award_last s)) (unfold start_counting in inl refl)))
  | inr e ↦ rw e (inl refl)
]

abbrev pub LeavesDiscard : Stage → Type 0
LeavesDiscard stage = stage ≢ discarding

with_value-stage : {A : Type 0} (a : A) (r : State × Done) → (with_value a r).0 ≡ r.0
unfolding with_value
with_value-stage a (s, ok _) = refl
with_value-stage a (s, err e) = refl
with_value-stage a (s, panic) = refl

maybe_finish_round-LeavesDiscard :
    (s : State) → s.stage ≡ pegging → LeavesDiscard (maybe_finish_round s).0.stage
maybe_finish_round-LeavesDiscard s h e = elim (maybe_finish_round-stage s) [
  | inl same ↦ cc
  | inr (inl counted) ↦ cc
  | inr (inr over) ↦ cc
]

players-record_play :
    (s : State) (p : ℕ) (card : Card) (i : ℕ) (hand : List Card)
    → players (record_play s p card i hand) ≡ players s
unfolding record_play add_score
players-record_play s p card i hand = refl

stage-pass_turn : (p : ℕ) (s : State) → WellFormed s → (pass_turn p s).stage ≡ s.stage
unfolding pass_turn reset_pegging_after_sequence_end
stage-pass_turn p s w = elim (Bool-cases (s.pegging_total == 31)) [
  | inl e ↦ rw e (stage-advance _ (next_player p (players s) w.at_least_two))
  | inr e ↦ rw e (stage-advance _ (next_player s.current_index (players s) w.at_least_two))
]

play_of-LeavesDiscard :
    (s : State) (p : ℕ) (card : Card)
    → WellFormed s
    → p < players s
    → s.stage ≡ pegging
    → LeavesDiscard (play_of s p card).0.stage
unfolding play_of
play_of-LeavesDiscard s p card w h e = elim (Option-cases (get_elem? s.hands p)) [
  | inl f ↦ rw (f, play_of) (λ d. cc)
  | inr (hand, f) ↦
      rw (f, play_of)
        (elim (Option-cases (find_card card hand)) [
          | inl g ↦ rw (g, play_of) (λ d. cc)
          | inr (i, g) ↦
              rw (g, play_of)
                (elim (Bool-cases (ltb 31 (s.pegging_total + value15 card))) [
                  | inl over ↦ rw over (λ d. cc)
                  | inr fits ↦ rw fits (played i hand)
                ])
        ])
]
  where
    played :
        (i : ℕ) (hand : List Card)
        → LeavesDiscard
            (with_value {A = ℕ × List PegReason}
              (
                (pegging_score s.pegging_seq card s.pegging_total).points,
                (pegging_score s.pegging_seq card s.pegging_total).reasons,
              )
              (maybe_finish_round (pass_turn p (record_play s p card i hand)))).0.stage
    played i hand =
        let t = record_play s p card i hand in
        let same : t.stage ≡ s.stage = unfold record_play add_score in refl in
        rw (with_value-stage _ (maybe_finish_round (pass_turn p t))) (
          maybe_finish_round-LeavesDiscard (pass_turn p t)
            (stage-pass_turn p t (record_play-WellFormed s p card i hand h w) ∙ same ∙ e))

-- From a well-formed state in the play, a card that is played never leads back to the discards.
pub play_pegging_card-LeavesDiscard :
    (s : State) (p : ℕ) (card : Card)
    → WellFormed s
    → s.stage ≡ pegging
    → LeavesDiscard (play_pegging_card s (pos p) card).0.stage
unfolding play_pegging_card
play_pegging_card-LeavesDiscard s p card w e =
    rw ((stage_eq_iff s.stage pegging).1 e) (elim (Bool-cases (p == s.current_index)) [
      | inr f ↦ rw f (λ d. cc)
      | inl f ↦ rw f (play_of-LeavesDiscard s p card w (ground (arith, w.current_in)) e)
    ])

stage-end_sequence : (s : State) → WellFormed s → (end_sequence s).0.stage ≡ s.stage
unfolding end_sequence reset_pegging_after_sequence_end
stage-end_sequence s w = by_last s.last_play_index
  where
    same : (award_last s).stage ≡ s.stage
    same = unfold award_last add_score in ground arith

    by_last :
        (l : ℤ)
        → (let r : State × ℕ = elim l [
          | negsuc _ ↦ (
            advance_to_next_playable_or_go
                (reset_pegging_after_sequence_end ((s.dealer_index + 1) % players s) s),
            0,
          )
          | pos i ↦ (
            advance_to_next_playable_or_go
                (reset_pegging_after_sequence_end ((i + 1) % players s) (award_last s)),
            (if not (s.pegging_total == 31) then 1 else 0),
          )
        ] in
            r.0.stage ≡ s.stage)
    by_last (negsuc _) = stage-advance _ (next_player s.dealer_index (players s) w.at_least_two)
    by_last (pos i) =
        stage-advance _ (rw (players-award_last s) (next_player i (players s) w.at_least_two))
        ∙ same

after_pass-LeavesDiscard :
    (s : State) → WellFormed s → s.stage ≡ pegging → LeavesDiscard (after_pass s).0.stage
unfolding after_pass
after_pass-LeavesDiscard s w e = elim (Bool-cases (all_passed_loop (players s) 0 s)) [
  | inl f ↦ rw f (
      rw (with_value-stage _ (maybe_finish_round (end_sequence s).0))
        (maybe_finish_round-LeavesDiscard (end_sequence s).0 (stage-end_sequence s w ∙ e)))
  | inr f ↦ rw f (
      rw (with_value-stage _ (maybe_finish_round (advance_to_next_playable_or_go s))) (
        maybe_finish_round-LeavesDiscard (advance_to_next_playable_or_go s)
          (stage-advance s w.current_in ∙ e)))
]

-- From a well-formed state in the play, a Go never leads back to the discards.
pub go-LeavesDiscard :
    (s : State) (p : ℕ) → WellFormed s → s.stage ≡ pegging → LeavesDiscard (go s (pos p)).0.stage
unfolding go pass
go-LeavesDiscard s p w e =
    rw ((stage_eq_iff s.stage pegging).1 e) (elim (Bool-cases (p == s.current_index)) [
      | inr f ↦ rw f (λ d. cc)
      | inl f ↦ rw f (elim (Bool-cases (can_play s (pos p))) [
        | inl g ↦ rw g (λ d. cc)
        | inr g ↦ rw g (after_pass-LeavesDiscard (pass p s) (pass-WellFormed p s w) e)
      ])
    ])
