-- ===== src/Engine/Rounds.antt =====
-- canPlay, advanceToNextPlayableOrGo, resetPeggingAfterSequenceEnd, maybeFinishRound and
-- appendRoundSummary. A loop `for i := 0; i < MaxPlayers; i++` recurs on the rounds that are left;
-- its reads are inside the slices of a state that is well-formed (`Engine.Invariant`).
use fifteen_thirty_one_go.Shared.{
  Bool, List, Option, [], err, false, get_or, if◌then◌else◌, leb, length, ltb, map, negsuc, none,
  not, ok, pos, replicate, set, some, suc, true, zero, ℕ, ℤ, ◌%◌, ◌++◌, ◌+◌, ◌-◌, ◌==◌, ◌∷◌,
}
use fifteen_thirty_one_go.Cards.{Card, value15}
use fifteen_thirty_one_go.Engine.State.{
  Breakdowns, CountSummary, Done, RoundSummary, State, counting, finished, missing_cut_card,
  players,
}
use fifteen_thirty_one_go.Scoring.Show.{ScoreBreakdown, score_hand}

-- The points of a player, and a write to them.
abbrev pub score_of : State → ℕ → ℕ
score_of s i = get_or s.scores i 0

unfoldable pub add_score : ℕ → ℕ → State → State
add_score i n s = record s { scores = set s.scores i (score_of s i + n) }

abbrev pub hand_of : State → ℕ → List Card
hand_of s i = get_or s.hands i []

-- The loop of canPlay.
unfoldable pub has_legal_card : ℕ → List Card → Bool
has_legal_card total [] = false
has_legal_card total (c ∷ cards) =
    if leb (total + value15 c) 31 then true else has_legal_card total cards

unfoldable pub can_play : State → ℤ → Bool
can_play s (negsuc _) = false
can_play s (pos p) =
    if leb (players s) p then false else has_legal_card s.pegging_total (hand_of s p)

unfoldable pub advance_loop : ℕ → ℕ → State → State
advance_loop zero i s = s
advance_loop (suc k) i s =
    let rest = advance_loop k (i + 1) s in
    let p = (s.current_index + i) % players s in
    if can_play s (pos p) then record s { current_index = p } else rest

unfoldable pub advance_to_next_playable_or_go : State → State
advance_to_next_playable_or_go s = advance_loop (players s) 0 s

unfoldable pub reset_pegging_after_sequence_end : ℕ → State → State
reset_pegging_after_sequence_end next_lead s = record s {
  pegging_total = 0;
  pegging_seq = [];
  pegging_passed = map (λ _. false) s.pegging_passed;
  current_index = next_lead;
}

unfoldable pub all_empty_loop : ℕ → ℕ → State → Bool
all_empty_loop zero i s = true
all_empty_loop (suc k) i s =
    if ltb 0 (length (hand_of s i)) then false else all_empty_loop k (i + 1) s

-- The point for the last card, and the mark that it was given.
unfoldable pub award_last : State → State
award_last s = elim s.last_play_index [
  | negsuc _ ↦ s
  | pos i ↦
      if not (s.pegging_total == 31)
      then record (add_score i 1 s) { last_play_index = negsuc 0 }
      else s
]

abbrev pub set_breakdown : ℕ → ScoreBreakdown → Breakdowns → Breakdowns
set_breakdown i b [] = (i, b) ∷ []
set_breakdown i b ((j, a) ∷ m) = if j == i then (i, b) ∷ m else (j, a) ∷ set_breakdown i b m

-- `s.CountSummary` is not nil where these run: maybeFinishRound has just set it.
note_hand : ℕ → ScoreBreakdown → Option CountSummary → Option CountSummary
note_hand i b none = none
note_hand i b (some cs) =
    some (record cs { order = cs.order ++ i ∷ []; hands = set_breakdown i b cs.hands })

note_crib : ScoreBreakdown → Option CountSummary → Option CountSummary
note_crib b none = none
note_crib b (some cs) = some (record cs { crib = some b })

copied_hands : Option CountSummary → Breakdowns
copied_hands none = []
copied_hands (some cs) = cs.hands

copied_crib : Option CountSummary → Option ScoreBreakdown
copied_crib none = none
copied_crib (some cs) = cs.crib

unfoldable pub append_round_summary : List ℕ → State → State
unfolding copied_hands copied_crib
append_round_summary scores_before s = record s { history = s.history ++ summary ∷ [] }
  where
    summary : RoundSummary
    summary = record {
      round = length s.history + 1;
      dealer_index = s.dealer_index;
      cut = s.cut;
      hands = copied_hands s.count_summary;
      crib = copied_crib s.count_summary;
      scores_before = scores_before;
      scores_after = s.scores;
    }

-- `s.appendRoundSummary(scoresBefore); s.Stage = "finished"`.
unfoldable pub end_game : List ℕ → State → State
end_game before s = record (append_round_summary before s) { stage = finished }

-- The count of one hand.
unfoldable pub count_hand : Card → ℕ → State → State
unfolding note_hand
count_hand cut i s =
    let b = score_hand (get_or s.kept_hands i []) cut false in
    add_score i b.total (record s { count_summary = note_hand i b s.count_summary })

unfoldable pub count_crib : Card → State → State
unfolding note_crib
count_crib cut s =
    let b = score_hand s.crib cut true in
    add_score s.dealer_index b.total (record s { count_summary = note_crib b s.count_summary })

-- The loop over the players left of the dealer; `true` is the early return with a winner.
unfoldable pub count_others : ℕ → ℕ → Card → List ℕ → State → State × Bool
count_others zero off cut before s = (s, false)
count_others (suc k) off cut before s =
    let i = (s.dealer_index + off) % players s in
    let s' = count_hand cut i s in
    let rest = count_others k (off + 1) cut before s' in
    if leb 121 (score_of s' i) then (end_game before s', true) else rest

-- The dealer's hand, then the crib.
unfoldable pub count_dealer : Card → List ℕ → State × Bool → State
count_dealer cut before (s, true) = s
count_dealer cut before (s, false) =
    let s' = count_hand cut s.dealer_index s in
    let s'' = count_crib cut s' in
    if leb 121 (score_of s' s'.dealer_index)
    then end_game before s'
    else if leb 121 (score_of s'' s''.dealer_index)
    then end_game before s''
    else append_round_summary before s''

unfoldable pub count_round : Card → State → State
count_round cut s = count_dealer cut s.scores (count_others (players s - 1) 1 cut s.scores s)

-- What maybeFinishRound sets before it counts.
unfoldable pub start_counting : State → State
start_counting s = record s {
  stage = counting;
  count_summary = some (record { order = []; hands = []; crib = none });
  ready_next_hand = replicate (players s) false;
}

unfoldable pub finish_round : State → State × Done
finish_round s = elim s.cut [
  | none ↦ (record s { stage = finished }, err missing_cut_card)
  | some cut ↦ (count_round cut s, ok tt)
]

unfoldable pub maybe_finish_round : State → State × Done
unfolding finish_round
maybe_finish_round s =
    if not (all_empty_loop (players s) 0 s)
    then (s, ok tt)
    else finish_round (start_counting (award_last s))
