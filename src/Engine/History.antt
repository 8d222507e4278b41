-- ===== src/Engine/History.antt =====
-- internal/game/cribbage/cribbage.go: how the history of rounds grows.
use fifteen_thirty_one_go.Shared.{
  Bool, Bool-cases, List, Option-cases, [], ap, arith, err, false, get_elem?, inl, inr, leb, length,
  length-append, ltb, negsuc, ok, panic, pos, refl, set, subst, suc, sym, true, zero, ℕ, ℤ, ◌%◌,
  ◌&&◌, ◌*◌, ◌++◌, ◌+◌, ◌-◌, ◌==◌, ◌∙◌, ◌∷◌, ◌≡◌, ◌≤◌,
}
use fifteen_thirty_one_go.Cards.{Card, value15}
use fifteen_thirty_one_go.Engine.Discarding.{
  complete_crib, discard, discard_of, fill_crib, move_to_crib, note_discard, start_pegging,
}
use fifteen_thirty_one_go.Engine.Play.{
  after_pass, all_passed_loop, end_sequence, go, pass, pass_turn, play_of, play_pegging_card,
  record_play, with_value,
}
use fifteen_thirty_one_go.Engine.Rounds.{
  add_score, advance_loop, advance_to_next_playable_or_go, all_empty_loop, append_round_summary,
  award_last, count_crib, count_dealer, count_hand, count_others, count_round, end_game,
  finish_round, maybe_finish_round, reset_pegging_after_sequence_end, score_of, start_counting,
}
use fifteen_thirty_one_go.Engine.State.{Done, Result, State, find_card, players, pop}
use fifteen_thirty_one_go.Rules.{crib_size, discard_count}

history-advance_loop : (k i : ℕ) (s : State) → (advance_loop k i s).history ≡ s.history
unfolding advance_loop
history-advance_loop zero i s = refl
history-advance_loop (suc k) i s = ground (arith, history-advance_loop k (i + 1) s)

history-advance : (s : State) → (advance_to_next_playable_or_go s).history ≡ s.history
unfolding advance_to_next_playable_or_go
history-advance s = history-advance_loop (players s) 0 s

history-award_last : (s : State) → (award_last s).history ≡ s.history
unfolding award_last add_score
history-award_last s = ground arith

-- At most one round more.
abbrev pub AddsRound : State → State → Type 0
AddsRound s t = length t.history ≤ length s.history + 1

count_others-AddsRound :
    (k off : ℕ) (cut : Card) (before : List ℕ) (s : State)
    → AddsRound s (count_others k off cut before s).0
      × ((count_others k off cut before s).1 ≡ false
          → (count_others k off cut before s).0.history ≡ s.history)
unfolding count_others count_hand add_score end_game append_round_summary
count_others-AddsRound zero off cut before s = (omega arith, λ h. refl)
count_others-AddsRound (suc k) off cut before s =
    let i = (s.dealer_index + off) % players s in
    let s' = count_hand cut i s in
    elim (Bool-cases (leb 121 (score_of s' i))) [
      | inl e ↦ rw e (omega (arith, length-append s.history (_ ∷ [])), λ h. absurd (ground arith))
      | inr e ↦ rw e (count_others-AddsRound k (off + 1) cut before s')
    ]

count_dealer-AddsRound :
    (cut : Card) (before : List ℕ) (s : State) → AddsRound s (count_dealer cut before (s, false))
unfolding count_dealer count_hand count_crib add_score end_game append_round_summary
count_dealer-AddsRound cut before s =
    let s' = count_hand cut s.dealer_index s in
    let s'' = count_crib cut s' in
    elim (Bool-cases (leb 121 (score_of s' s'.dealer_index))) [
      | inl e ↦ rw e (omega (arith, length-append s.history (_ ∷ [])))
      | inr e ↦ rw e (elim (Bool-cases (leb 121 (score_of s'' s''.dealer_index))) [
        | inl f ↦ rw f (omega (arith, length-append s.history (_ ∷ [])))
        | inr f ↦ rw f (omega (arith, length-append s.history (_ ∷ [])))
      ])
    ]

count_round-AddsRound : (cut : Card) (s : State) → AddsRound s (count_round cut s)
unfolding count_round count_dealer
count_round-AddsRound cut s = by_others (count_others (players s - 1) 1 cut s.scores s) refl
  where
    by_others :
        (r : State × Bool)
        → count_others (players s - 1) 1 cut s.scores s ≡ r
        → AddsRound s (count_dealer cut s.scores r)
    by_others (t, true) e =
        subst (λ (x : State × Bool). AddsRound s x.0) e
          (count_others-AddsRound (players s - 1) 1 cut s.scores s).0
    by_others (t, false) e =
        let same =
          (count_others-AddsRound (players s - 1) 1 cut s.scores s).1
            (ap (λ (x : State × Bool). x.1) e) in
        let kept : t.history ≡ s.history = ap (λ (x : State × Bool). x.0.history) (sym e) ∙ same in
        subst (λ x. length (count_dealer cut s.scores (t, false)).history ≤ length x + 1) kept
          (count_dealer-AddsRound cut s.scores t)

maybe_finish_round-AddsRound : (s : State) → AddsRound s (maybe_finish_round s).0
unfolding maybe_finish_round finish_round start_counting
maybe_finish_round-AddsRound s = elim (Bool-cases (all_empty_loop (players s) 0 s)) [
  | inr e ↦ rw e (omega arith)
  | inl e ↦ rw e (elim (Option-cases (award_last s).cut) [
    | inl f ↦ rw (f, finish_round) (rw (history-award_last s) (omega arith))
    | inr (cut, f) ↦
        rw (f, finish_round)
          (subst
            (λ x. length (count_round cut (start_counting (award_last s))).history ≤ length x + 1)
            (history-award_last s) (count_round-AddsRound cut (start_counting (award_last s))))
  ])
]

history-pass_turn : (p : ℕ) (s : State) → (pass_turn p s).history ≡ s.history
unfolding pass_turn reset_pegging_after_sequence_end
history-pass_turn p s = elim (Bool-cases (s.pegging_total == 31)) [
  | inl e ↦ rw e (history-advance (reset_pegging_after_sequence_end ((p + 1) % players s) s))
  | inr e ↦ rw e (history-advance (record s { current_index = (s.current_index + 1) % players s }))
]

history-record_play :
    (s : State) (p : ℕ) (card : Card) (i : ℕ) (hand : List Card)
    → (record_play s p card i hand).history ≡ s.history
unfolding record_play add_score
history-record_play s p card i hand = refl

history-with_value :
    {A : Type 0} (a : A) (r : State × Done) → (with_value a r).0.history ≡ r.0.history
unfolding with_value
history-with_value a (s, ok _) = refl
history-with_value a (s, err e) = refl
history-with_value a (s, panic) = refl

-- An operation that ends with maybeFinishRound, from a state with the history of s.
AddsRound-finish :
    {A : Type 0} (a : A) (s t : State)
    → t.history ≡ s.history
    → AddsRound s (with_value a (maybe_finish_round t)).0
AddsRound-finish a s t h = rw (history-with_value a (maybe_finish_round t)) (
    subst (λ x. length (maybe_finish_round t).0.history ≤ length x + 1) h
      (maybe_finish_round-AddsRound t))

pub play_pegging_card-AddsRound :
    (s : State) (p : ℕ) (card : Card) → AddsRound s (play_pegging_card s (pos p) card).0
unfolding play_pegging_card
play_pegging_card-AddsRound s p card = ground (arith, played)
  where
    played : AddsRound s (play_of s p card).0
    played = elim (Option-cases (get_elem? s.hands p)) [
      | inl e ↦ rw (e, play_of) (omega arith)
      | inr (hand, e) ↦ elim (Option-cases (find_card card hand)) [
        | inl f ↦ rw (e, play_of) (rw f (omega arith))
        | inr (i, f) ↦ elim (Bool-cases (ltb 31 (s.pegging_total + value15 card))) [
          | inl g ↦ rw (e, play_of) (rw (f, g) (omega arith))
          | inr g ↦
              rw (e, play_of)
                (rw (f, g)
                  (AddsRound-finish _ s (pass_turn p (record_play s p card i hand)) (
                    history-pass_turn p (record_play s p card i hand)
                    ∙ history-record_play s p card i hand)))
        ]
      ]
    ]

history-end_sequence : (s : State) → (end_sequence s).0.history ≡ s.history
unfolding end_sequence reset_pegging_after_sequence_end
history-end_sequence s = by_last s.last_play_index refl
  where
    by_last : (last : ℤ) → s.last_play_index ≡ last → (end_sequence s).0.history ≡ s.history
    by_last (negsuc n) e =
        rw (e, end_sequence)
          (history-advance (reset_pegging_after_sequence_end ((s.dealer_index + 1) % players s) s))
    by_last (pos i) e =
        rw (e, end_sequence)
          (history-advance (reset_pegging_after_sequence_end ((i + 1) % players s) (award_last s))
            ∙ history-award_last s)

after_pass-AddsRound : (s : State) → AddsRound s (after_pass s).0
unfolding after_pass
after_pass-AddsRound s = elim (Bool-cases (all_passed_loop (players s) 0 s)) [
  | inl e ↦ rw e (AddsRound-finish _ s (end_sequence s).0 (history-end_sequence s))
  | inr e ↦ rw e (AddsRound-finish _ s (advance_to_next_playable_or_go s) (history-advance s))
]

pub go-AddsRound : (s : State) (p : ℕ) → AddsRound s (go s (pos p)).0
unfolding go pass
go-AddsRound s p = ground (arith, after_pass-AddsRound (pass p s))

history-move_to_crib :
    (p : ℕ) (cards : List Card) (s : State) → (move_to_crib p cards s).0.history ≡ s.history
unfolding move_to_crib
history-move_to_crib p [] s = refl
history-move_to_crib p (dc ∷ cards) s = elim (Option-cases (get_elem? s.hands p)) [
  | inl e ↦ rw (e, move_to_crib) refl
  | inr (hand, e) ↦ elim (Option-cases (find_card dc hand)) [
    | inl f ↦ rw (e, move_to_crib) (rw (f, move_to_crib) refl)
    | inr (i, f) ↦ rw (e, move_to_crib) (rw (f, move_to_crib) (history-move_to_crib p cards _))
  ]
]

history-pop : (s : State) → (pop s).0.history ≡ s.history
unfolding pop
history-pop s = ground arith

history-start_pegging : (r : State × Result Card) → (start_pegging r).0.history ≡ r.0.history
unfolding start_pegging
history-start_pegging (s, ok c) = refl
history-start_pegging (s, err e) = refl
history-start_pegging (s, panic) = refl

history-fill_crib : (r : State × Result Card) → (fill_crib r).0.history ≡ r.0.history
unfolding fill_crib
history-fill_crib (s, ok c) =
    let s' : State = record s { crib = s.crib ++ c ∷ [] } in
    history-start_pegging (pop s') ∙ history-pop s'
history-fill_crib (s, err e) = refl
history-fill_crib (s, panic) = refl

history-note_discard : (p : ℕ) (r : State × Done) → (note_discard p r).0.history ≡ r.0.history
unfolding note_discard complete_crib
history-note_discard p (s, ok _) =
    let s' : State = record s { discard_completed = set s.discard_completed p true } in
    elim (Bool-cases (length s.crib == players s * discard_count s.rules)) [
      | inr e ↦ rw e refl
      | inl e ↦
          rw e (elim (Bool-cases (players s == 3 && ltb (length s.crib) (crib_size s.rules))) [
            | inl f ↦ rw f (history-fill_crib (pop s') ∙ history-pop s')
            | inr f ↦ rw f (history-start_pegging (pop s') ∙ history-pop s')
          ])
    ]
history-note_discard p (s, err e) = refl
history-note_discard p (s, panic) = refl

pub history-discard :
    (s : State) (p : ℕ) (cards : List Card) → (discard s (pos p) cards).0.history ≡ s.history
unfolding discard discard_of
history-discard s p cards =
    ground (arith, history-note_discard p (move_to_crib p cards s) ∙ history-move_to_crib p cards s)
