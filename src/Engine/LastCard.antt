-- ===== src/Engine/LastCard.antt =====
-- maybeFinishRound of internal/game/cribbage/cribbage.go: the point for the last card of a hand.
use fifteen_thirty_one_go.Shared.{
  Bool-cases, List, ap, arith, get_or, get_or-set, inl, inr, length, pos, refl, suc, true, zero, ℕ,
  ◌%◌, ◌+◌, ◌<◌, ◌==◌, ◌∙◌, ◌≡◌,
}
use fifteen_thirty_one_go.Engine.Play.{pass_turn}
use fifteen_thirty_one_go.Engine.Rounds.{
  add_score, advance_loop, advance_to_next_playable_or_go, award_last, can_play,
  reset_pegging_after_sequence_end, score_of,
}
use fifteen_thirty_one_go.Engine.State.{State, players}

-- What the point for the last card depends on stays as it is while the next player is looked for.
SameAward : State → State → Type 0
SameAward s t =
    (t.scores ≡ s.scores)
    × (t.last_play_index ≡ s.last_play_index)
    × (t.pegging_total ≡ s.pegging_total)

advance_loop-SameAward : (k i : ℕ) (s : State) → SameAward s (advance_loop k i s)
unfolding advance_loop SameAward
advance_loop-SameAward zero i s = (refl, refl, refl)
advance_loop-SameAward (suc k) i s =
    elim (Bool-cases (can_play s (pos ((s.current_index + i) % players s)))) [
      | inl e ↦ rw e (refl, refl, refl)
      | inr e ↦ rw e (advance_loop-SameAward k (i + 1) s)
    ]

award_last-below_31 :
    (t : State) (p : ℕ)
    → t.last_play_index ≡ pos p
    → t.pegging_total ≡ 0
    → p < length t.scores
    → score_of (award_last t) p ≡ score_of t p + 1
unfolding award_last add_score
award_last-below_31 t p h e l =
    rw (h, award_last) (ground (arith, get_or-set t.scores p p (score_of t p + 1) 0 l))

-- Where player p played last and made 31, the turn that is passed and then the point for the last card
-- of the hand add one to the score of p: the point is given after a sequence that ended on 31 as well.
pub award_last-after_31 :
    (s : State) (p : ℕ)
    → s.pegging_total ≡ 31
    → s.last_play_index ≡ pos p
    → p < length s.scores
    → score_of (award_last (pass_turn p s)) p ≡ score_of s p + 1
unfolding pass_turn reset_pegging_after_sequence_end advance_to_next_playable_or_go SameAward
award_last-after_31 s p h e l =
    let r = reset_pegging_after_sequence_end ((p + 1) % players s) s in
    let (scores, last, total) = advance_loop-SameAward (players s) 0 r in
    let hit : (s.pegging_total == 31) ≡ true = ground arith in
    rw hit (
      award_last-below_31 (advance_loop (players s) 0 r) p (last ∙ e) total (rw scores l)
      ∙ ap (λ (x : List ℕ). get_or x p 0 + 1) scores)
