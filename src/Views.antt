-- ===== src/Views.antt =====
-- internal/handlers/state_view.go and cloneStateDeep of internal/handlers/game_logic.go: the copies
-- of a state that the handlers make. Copying a slice gives an equal list.
use fifteen_thirty_one_go.Shared.{
  Bool, List, [], ap, arith, false, if◌then◌else◌, length, map, none, refl, true, ◌||◌, ◌∷◌, ◌≡◌,
}
use fifteen_thirty_one_go.Engine.State.{Stage, State, counting, finished, stage_eq}

-- The test `st.Stage == "counting" || st.Stage == "finished"`.
abbrev pub is_revealed : Stage → Bool
is_revealed stage = stage_eq stage counting || stage_eq stage finished

-- cloneStateForView. The fields that it does not set keep their zero value.
unfoldable pub clone_state_for_view : State → State
clone_state_for_view st = record {
  version = 0;
  rules = st.rules;
  dealer_index = st.dealer_index;
  current_index = st.current_index;
  last_play_index = st.last_play_index;
  deck = [];
  cut = st.cut;
  hands = map (λ _. []) st.hands;
  kept_hands = if is_revealed st.stage then st.kept_hands else [];
  crib = if is_revealed st.stage then st.crib else [];
  pegging_total = st.pegging_total;
  pegging_seq = st.pegging_seq;
  pegging_passed = st.pegging_passed;
  discard_completed = st.discard_completed;
  scores = st.scores;
  stage = st.stage;
  ready_next_hand = st.ready_next_hand;
  count_summary = if is_revealed st.stage then st.count_summary else none;
  history = st.history;
}

-- cloneStateDeep.
unfoldable pub clone_state_deep : State → State
clone_state_deep st = record {
  version = st.version;
  rules = st.rules;
  dealer_index = st.dealer_index;
  current_index = st.current_index;
  last_play_index = st.last_play_index;
  deck = st.deck;
  cut = st.cut;
  hands = st.hands;
  kept_hands = st.kept_hands;
  crib = st.crib;
  pegging_total = st.pegging_total;
  pegging_seq = st.pegging_seq;
  pegging_passed = st.pegging_passed;
  discard_completed = st.discard_completed;
  scores = st.scores;
  stage = st.stage;
  ready_next_hand = [];
  count_summary = none;
  history = [];
}

-- Two states with the same public information. What may differ is the version, the deck, the cards
-- in the hands (not how many hands there are), and before the count the kept hands, the crib and the
-- count itself.
pub record SamePublic (s t : State) : Type 0 where
  pub rules : s.rules ≡ t.rules
  pub dealer_index : s.dealer_index ≡ t.dealer_index
  pub current_index : s.current_index ≡ t.current_index
  pub last_play_index : s.last_play_index ≡ t.last_play_index
  pub cut : s.cut ≡ t.cut
  pub hands : length s.hands ≡ length t.hands
  pub pegging_total : s.pegging_total ≡ t.pegging_total
  pub pegging_seq : s.pegging_seq ≡ t.pegging_seq
  pub pegging_passed : s.pegging_passed ≡ t.pegging_passed
  pub discard_completed : s.discard_completed ≡ t.discard_completed
  pub scores : s.scores ≡ t.scores
  pub stage : s.stage ≡ t.stage
  pub ready_next_hand : s.ready_next_hand ≡ t.ready_next_hand
  pub history : s.history ≡ t.history
  pub kept_hands : is_revealed s.stage ≡ true → s.kept_hands ≡ t.kept_hands
  pub crib : is_revealed s.stage ≡ true → s.crib ≡ t.crib
  pub count_summary : is_revealed s.stage ≡ true → s.count_summary ≡ t.count_summary

blanks {ℓ} :
    {A : Type ℓ} (xs ys : List (List A))
    → length xs ≡ length ys
    → map (λ _. []) xs ≡ map {B = List A} (λ _. []) ys
blanks [] [] h = refl
blanks [] (y ∷ ys) h = absurd (omega arith)
blanks (x ∷ xs) [] h = absurd (omega arith)
blanks (x ∷ xs) (y ∷ ys) h = ap (◌∷◌ []) (blanks xs ys (omega arith))

guarded {ℓ} :
    {A : Type ℓ} (b : Bool) (x y d : A)
    → (b ≡ true → x ≡ y)
    → (if b then x else d) ≡ (if b then y else d)
guarded true x y d h = h refl
guarded false x y d h = refl

-- The view that is sent to clients shows nothing of the deck and of the cards in the hands, and
-- before the count nothing of the kept hands, the crib and the count: states that agree in all
-- else have the same view.
pub clone_state_for_view-SamePublic :
    (s t : State) → SamePublic s t → clone_state_for_view s ≡ clone_state_for_view t
unfolding clone_state_for_view
clone_state_for_view-SamePublic s t h = cc (
  blanks s.hands t.hands h.hands,
  ap is_revealed h.stage,
  guarded (is_revealed s.stage) s.kept_hands t.kept_hands [] h.kept_hands,
  guarded (is_revealed s.stage) s.crib t.crib [] h.crib,
  guarded (is_revealed s.stage) s.count_summary t.count_summary none h.count_summary,
  h.rules,
  h.dealer_index,
  h.current_index,
  h.last_play_index,
  h.cut,
  h.pegging_total,
  h.pegging_seq,
  h.pegging_passed,
  h.discard_completed,
  h.scores,
  h.stage,
  h.ready_next_hand,
  h.history,
)
