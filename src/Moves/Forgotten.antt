-- ===== src/Moves/Forgotten.antt =====
-- ApplyMove of internal/handlers/game_logic.go: what becomes of the history of a game.
use fifteen_thirty_one_go.Shared.{
  >>=-eq-ok, List, [], ap, arith, length, ok, pos, refl, some, subst, ℕ, ◌+◌, ◌∙◌, ◌≡◌, ◌≤◌,
}
use fifteen_thirty_one_go.Cards.{Card}
use fifteen_thirty_one_go.Cards.Text.{parse_card}
use fifteen_thirty_one_go.Engine.Discarding.{discard}
use fifteen_thirty_one_go.Engine.History.{
  AddsRound, go-AddsRound, history-discard, play_pegging_card-AddsRound,
}
use fifteen_thirty_one_go.Engine.Invariant.{WellFormed}
use fifteen_thirty_one_go.Engine.Play.{go, play_pegging_card}
use fifteen_thirty_one_go.Engine.State.{RoundSummary, State}
use fifteen_thirty_one_go.Moves.Apply.{
  Computed, MoveRequest, apply_move, check_turn, compute_move, discard_request, go_request, lift,
  other_request, parse_cards, parsed, play_card_request, working_copy,
}
use fifteen_thirty_one_go.Moves.Sequential.{IsPlayer, IsRunning, alone, apply_move-Applied, lift_ok}
use fifteen_thirty_one_go.Moves.World.{World}
use fifteen_thirty_one_go.Store.Games.{GamePlayer, GameRow}
use fifteen_thirty_one_go.Views.{clone_state_deep}

history-working_copy :
    (st : State) (p : ℕ) (hand : List Card) → (working_copy st p hand).history ≡ []
unfolding working_copy clone_state_deep
history-working_copy st p hand = refl

moved :
    (s r t : State) (c : Computed) → t ≡ c.working → r ≡ t → AddsRound s r → AddsRound s c.working
moved s r t c h e k = subst (λ (x : State). AddsRound s x) (e ∙ h) k

compute_move-AddsRound :
    (game user : ℕ) (s : State) (p : ℕ) (req : MoveRequest) {c : Computed}
    → compute_move game user s p req ≡ ok c
    → AddsRound s c.working
unfolding compute_move
compute_move-AddsRound game user s p (discard_request texts) {c = c} h =
    let (cards, _, r) = >>=-eq-ok (parse_cards texts) _ h in
    let (t, f, g) = >>=-eq-ok (lift (discard s (pos p) cards)) _ r in
    let same = lift_ok (discard s (pos p) cards) f in
    moved s _ t.0 c (ground (arith, g)) same
      (omega (arith, ap (λ (x : List RoundSummary). length x) (history-discard s p cards)))
compute_move-AddsRound game user s p (play_card_request text) {c = c} h =
    let (_, _, q) = >>=-eq-ok (check_turn s p) _ h in
    let (card, _, r) = >>=-eq-ok (parsed (parse_card text)) _ q in
    let (t, f, g) = >>=-eq-ok (lift (play_pegging_card s (pos p) card)) _ r in
    let same = lift_ok (play_pegging_card s (pos p) card) f in
    moved s _ t.0 c (ground (arith, g)) same (play_pegging_card-AddsRound s p card)
compute_move-AddsRound game user s p go_request {c = c} h =
    let (_, _, q) = >>=-eq-ok (check_turn s p) _ h in
    let (t, f, g) = >>=-eq-ok (lift (go s (pos p))) _ q in
    let same = lift_ok (go s (pos p)) f in
    moved s _ t.0 c (ground (arith, g)) same (go-AddsRound s p)
compute_move-AddsRound game user s p other_request h = absurd (ground arith)

-- After a move with no other request in between, accepted on a well-formed game in memory, the state
-- in memory holds the summary of one round at most, however many the game had before.
pub apply_move_forgets :
    (w : World) (game user : ℕ) (draws : List ℕ) (req : MoveRequest) (st : State) (row : GameRow)
    (p : GamePlayer) (hand : List Card) (c : Computed)
    → IsRunning w game st row
    → IsPlayer w game user p hand
    → WellFormed st
    → compute_move game user (working_copy st p.position hand) p.position req ≡ ok c
    → (s : State) × ((apply_move alone w game user draws req).0.runtime game ≡ some s)
      × (length s.history ≤ 1)
apply_move_forgets w game user draws req st row p hand c running player wf h =
    let applied = apply_move-Applied w game user draws req st row p hand c running player wf h in
    let copied = working_copy st p.position hand in
    (
      record c.working { version = st.version + 1 },
      applied.memory,
      omega (
        arith,
        compute_move-AddsRound game user copied p.position req h,
        ap (λ (x : List RoundSummary). length x) (history-working_copy st p.position hand),
      ),
    )
