-- ===== src/Moves/Settled.antt =====
-- maybeRunBotTurns of internal/handlers/game_logic.go: where its loop ends.
use mathlib.Core.Option.{some-injective}
use fifteen_thirty_one_go.Shared.{
  Bool, Bool-cases, List, Option, Outcome, [], ap, arith, err, false, get_elem?, get_or,
  if◌then◌else◌, inl, inr, none, ok, panic, pos, refl, some, subst, suc, zero, ℕ, ◌==◌, ◌∙◌, ◌∷◌,
  ◌≡◌, ◌≢◌,
}
use fifteen_thirty_one_go.Bot.{BotError, choose_discard_n, choose_pegging_play}
use fifteen_thirty_one_go.Cards.{Card}
use fifteen_thirty_one_go.Engine.State.{State, discarding, pegging, players, stage_eq}
use fifteen_thirty_one_go.Moves.Apply.{Response, apply_move}
use fifteen_thirty_one_go.Moves.Bots.{
  BotAction, Turn, act, acts, after_move, at_position, bot_action, bot_discard, bot_play, continues,
  difficulty_of, discard_action, discard_request_of, fails, idle, maybe_run_bot_turns, must_discard,
  pegging_action, play_request_of, returns, turn, turn_in, turns_loop,
}
use fifteen_thirty_one_go.Moves.World.{World, ensure_game_state}
use fifteen_thirty_one_go.Store.Games.{
  ApiError, Column, GamePlayer, blank, invalid_json, stored, undecodable,
}
use fifteen_thirty_one_go.Store.Players.{list_game_players}

-- No bot has anything to do: in the discards every bot has discarded, and in the play it is not a
-- bot's turn.
pub record IsSettled (s : State) (rows : List GamePlayer) : Type 0 where
  pub discards :
      s.stage ≡ discarding
      → (i : ℕ) (p : GamePlayer) → get_elem? rows i ≡ some p
      → must_discard s.discard_completed p ≡ false
  pub play :
      s.stage ≡ pegging
      → (p : GamePlayer) → at_position s.current_index rows ≡ some p
      → p.is_bot ≡ false

discard_request_acts :
    (user : ℕ) (r : Outcome BotError (List Card)) → discard_request_of user r ≢ idle
unfolding discard_request_of
discard_request_acts user (ok cards) h = cc
discard_request_acts user (err e) h = cc
discard_request_acts user panic h = cc

bot_discard_acts : (n : ℕ) (picks : List ℕ) (p : GamePlayer) → bot_discard n picks p ≢ idle
unfolding bot_discard
bot_discard_acts n picks p h = from p.hand h
  where
    from :
        (hand : Column (List Card))
        → ◌≡◌ {A = BotAction}
            (elim hand [
              | stored cards ↦
                  discard_request_of p.user_id
                    (choose_discard_n cards (pos n) (difficulty_of p) picks)
              | _ ↦ fails invalid_json
            ])
            idle
        → ⊥
    from blank k = cc
    from undecodable k = cc
    from (stored cards) k = discard_request_acts p.user_id _ k

play_request_acts : (user : ℕ) (r : Outcome BotError (Option Card)) → play_request_of user r ≢ idle
unfolding play_request_of
play_request_acts user (ok none) h = cc
play_request_acts user (ok (some card)) h = cc
play_request_acts user (err e) h = cc
play_request_acts user panic h = cc

bot_play_acts : (s : State) (picks : List ℕ) (p : GamePlayer) → bot_play s picks p ≢ idle
unfolding bot_play
bot_play_acts s picks p h = from p.hand h
  where
    from :
        (hand : Column (List Card))
        → ◌≡◌ {A = BotAction}
            (elim hand [
              | stored cards ↦ play_request_of p.user_id (
                  choose_pegging_play cards s.pegging_total s.pegging_seq
                    (difficulty_of p)
                    (get_or picks 0 0))
              | _ ↦ fails invalid_json
            ])
            idle
        → ⊥
    from blank k = cc
    from undecodable k = cc
    from (stored cards) k = play_request_acts p.user_id _ k

discard_action_idle :
    (n : ℕ) (completed : List Bool) (picks : List ℕ) (rows : List GamePlayer)
    → discard_action n completed picks rows ≡ idle
    → (i : ℕ) (p : GamePlayer) → get_elem? rows i ≡ some p
    → must_discard completed p ≡ false
unfolding discard_action
discard_action_idle n completed picks [] h i p e = absurd (ground arith)
discard_action_idle n completed picks (q ∷ rows) h i p e =
    elim (Bool-cases (must_discard completed q)) [
      | inl m ↦ absurd (bot_discard_acts n picks q (rw (m, discard_action) at h))
      | inr m ↦
          later m
            (λ j f. discard_action_idle n completed picks rows (rw (m, discard_action) at h) j p f)
            i e
    ]
  where
    later :
        must_discard completed q ≡ false
        → ((j : ℕ) → get_elem? rows j ≡ some p → must_discard completed p ≡ false)
        → (j : ℕ) → get_elem? (q ∷ rows) j ≡ some p
        → must_discard completed p ≡ false
    later m ih zero f = subst (λ x. must_discard completed x ≡ false) (some-injective q p f) m
    later m ih (suc j) f = ih j f

pegging_action_idle :
    (s : State) (picks : List ℕ) (rows : List GamePlayer) (p : GamePlayer)
    → pegging_action s picks rows ≡ idle
    → at_position s.current_index rows ≡ some p
    → p.is_bot ≡ false
unfolding pegging_action
pegging_action_idle s picks rows p h e = elim (Bool-cases p.is_bot) [
  | inl b ↦ absurd (bot_play_acts s picks p (rw (e, pegging_action) (rw b refl) ∙ h))
  | inr b ↦ b
]

bot_action-IsSettled :
    (s : State) (picks : List ℕ) (rows : List GamePlayer)
    → bot_action s picks rows ≡ idle
    → IsSettled s rows
unfolding bot_action stage_eq
bot_action-IsSettled s picks rows h = record {
  discards = λ e.
      discard_action_idle (if players s == 2 then 2 else 1) s.discard_completed picks rows
        (rw e at h);
  play = λ e p f. pegging_action_idle s picks rows p (rw e at h) f;
}

-- Where the loop ended: a game without players, one whose state is not available, or a settled one.
pub data Rests (game : ℕ) : World → Type 0 where
  no_player : (w : World) → list_game_players w.db game ≡ [] → Rests game w
  not_available :
      (w : World) (draws : List ℕ) (e : ApiError)
      → (ensure_game_state w game (list_game_players w.db game) draws).1 ≡ err e
      → Rests game (ensure_game_state w game (list_game_players w.db game) draws).0
  settled :
      (w : World) (draws : List ℕ) (s : State)
      → (ensure_game_state w game (list_game_players w.db game) draws).1 ≡ ok s
      → IsSettled s (list_game_players w.db game)
      → Rests game (ensure_game_state w game (list_game_players w.db game) draws).0

-- A step that returns with no error had nothing to do.
after_move_goes_on :
    (r : World × Outcome ApiError Response) (w : World) → after_move r ≢ returns (w, ok tt)
unfolding after_move
after_move_goes_on (v, ok r) w h = cc
after_move_goes_on (v, err e) w h = ground arith
after_move_goes_on (v, panic) w h = ground arith

act_idle :
    (others : ℕ → World → World) (v : World) (game : ℕ) (draws : List ℕ) (a : BotAction) (w : World)
    → act others v game draws a ≡ returns (w, ok tt)
    → (a ≡ idle) × (v ≡ w)
unfolding act
act_idle others v game draws idle w h = (refl, ground arith)
act_idle others v game draws (fails e) w h = absurd (ground arith)
act_idle others v game draws (acts user req) w h =
    absurd (after_move_goes_on (apply_move others v game user draws req) w h)

turn_in-Rests :
    (others : ℕ → World → World) (w : World) (game : ℕ) (draws picks : List ℕ) (w' : World)
    (x : World × Outcome ApiError State)
    → ensure_game_state w game (list_game_players w.db game) draws ≡ x
    → turn_in others game draws picks (list_game_players w.db game) x ≡ returns (w', ok tt)
    → Rests game w'
unfolding turn_in
turn_in-Rests others w game draws picks w' (v, ok s) e h =
    let (a, same) =
      act_idle others v game draws (bot_action s picks (list_game_players w.db game)) w' h in
    subst (λ x. Rests game x) (ap (λ (x : World × Outcome ApiError State). x.0) e ∙ same)
      (settled w draws s (ap (λ (x : World × Outcome ApiError State). x.1) e)
        (bot_action-IsSettled s picks (list_game_players w.db game) a))
turn_in-Rests others w game draws picks w' (v, err x) e h =
    subst (λ y. Rests game y) (ap (λ (y : World × Outcome ApiError State). y.0) e ∙ ground arith)
      (not_available w draws x (ap (λ (y : World × Outcome ApiError State). y.1) e))
turn_in-Rests others w game draws picks w' (v, panic) e h = absurd (ground arith)

turn-Rests :
    (others : ℕ → World → World) (w : World) (game : ℕ) (draws picks : List ℕ) {w' : World}
    → turn others w game draws picks ≡ returns (w', ok tt)
    → Rests game w'
unfolding turn
turn-Rests others w game draws picks {w' = w'} h = from (list_game_players w.db game) refl h
  where
    from :
        (rows : List GamePlayer)
        → list_game_players w.db game ≡ rows
        → ◌≡◌ {A = Turn}
            (elim rows [
              | [] ↦ returns (w, ok tt)
              | p ∷ ps ↦
                  turn_in others game draws picks (p ∷ ps) (ensure_game_state w game (p ∷ ps) draws)
            ])
            (returns (w', ok tt))
        → Rests game w'
    from [] e f = subst (λ x. Rests game x) (ground arith) (no_player w e)
    from (p ∷ ps) e f =
        turn_in-Rests others w game draws picks w'
          (ensure_game_state w game (list_game_players w.db game) draws) refl (rw e f)

turns_loop-Rests :
    (k : ℕ) (others : ℕ → ℕ → World → World) (w : World) (game : ℕ) (draws picks : ℕ → List ℕ)
    {w' : World}
    → turns_loop k others w game draws picks ≡ (w', ok tt)
    → Rests game w'
unfolding turns_loop
turns_loop-Rests zero others w game draws picks h = absurd (ground arith)
turns_loop-Rests (suc k) others w game draws picks {w' = w'} h =
    from (turn (others k) w game (draws k) (picks k))
      (λ m f. turns_loop-Rests k others m game draws picks f) refl h
  where
    from :
        (t : Turn)
        → ((m : World) → turns_loop k others m game draws picks ≡ (w', ok tt) → Rests game w')
        → turn (others k) w game (draws k) (picks k) ≡ t
        → ◌≡◌ {A = World × Outcome ApiError (Unit {0})}
            (elim t [ continues m ↦ turns_loop k others m game draws picks | returns r ↦ r ])
            (w', ok tt)
        → Rests game w'
    from (continues m) ih e f = ih m f
    from (returns r) ih e f = turn-Rests (others k) w game (draws k) (picks k) (e ∙ ap returns f)

-- Where the turns of the bots end without an error, within their 64 steps, nothing is left for a bot
-- to do: the game has no players, its state is not available, or every bot has discarded and it is
-- not a bot's turn. What other requests do in between and what is drawn does not matter.
pub maybe_run_bot_turns-Rests :
    (others : ℕ → ℕ → World → World) (w w' : World) (game : ℕ) (draws picks : ℕ → List ℕ)
    → maybe_run_bot_turns others w game draws picks ≡ (w', ok tt)
    → Rests game w'
unfolding maybe_run_bot_turns
maybe_run_bot_turns-Rests others w w' game draws picks h =
    turns_loop-Rests 64 others w game draws picks h
