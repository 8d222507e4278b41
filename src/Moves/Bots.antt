-- ===== src/Moves/Bots.antt =====
-- maybeRunBotTurns of internal/handlers/game_logic.go: the moves of the bots, until it is a person's
-- turn.
use fifteen_thirty_one_go.Shared.{
  Bool, List, Option, Outcome, [], err, false, get_or, if◌then◌else◌, length, ltb, map, none, not,
  ok, panic, pos, some, suc, zero, ℕ, ◌&&◌, ◌==◌, ◌∷◌,
}
use fifteen_thirty_one_go.Bot.{BotError, choose_discard_n, choose_pegging_play}
use fifteen_thirty_one_go.Cards.{Card}
use fifteen_thirty_one_go.Cards.Text.{card_string}
use fifteen_thirty_one_go.Engine.State.{State, discarding, pegging, players, stage_eq}
use fifteen_thirty_one_go.Moves.Apply.{
  MoveRequest, Response, apply_move, discard_request, go_request, play_card_request,
}
use fifteen_thirty_one_go.Moves.World.{World, ensure_game_state}
use fifteen_thirty_one_go.Store.Games.{
  ApiError, BotDifficulty, GamePlayer, bot_error, bot_loop_exceeded, easy, invalid_json, stored,
}
use fifteen_thirty_one_go.Store.Players.{list_game_players}

-- What is to be done in a state.
pub data BotAction : Type 0 where
  idle : BotAction
  fails : ApiError → BotAction
  acts : (user : ℕ) → MoveRequest → BotAction

abbrev pub difficulty_of : GamePlayer → BotDifficulty
difficulty_of p = elim p.bot_difficulty [ none ↦ easy | some d ↦ d ]

-- A bot at a position of the list that has not discarded.
abbrev pub must_discard : List Bool → GamePlayer → Bool
must_discard completed p =
    p.is_bot && (ltb p.position (length completed) && not (get_or completed p.position false))

unfoldable pub discard_request_of : ℕ → Outcome BotError (List Card) → BotAction
discard_request_of user (ok cards) = acts user (discard_request (map card_string cards))
discard_request_of user (err e) = fails bot_error
discard_request_of user panic = fails bot_error

unfoldable pub bot_discard : ℕ → List ℕ → GamePlayer → BotAction
unfolding discard_request_of
bot_discard n picks p = elim p.hand [
  | stored hand ↦
      discard_request_of p.user_id (choose_discard_n hand (pos n) (difficulty_of p) picks)
  | _ ↦ fails invalid_json
]

-- The first bot that has to discard.
unfoldable pub discard_action : ℕ → List Bool → List ℕ → List GamePlayer → BotAction
unfolding bot_discard
discard_action n completed picks [] = idle
discard_action n completed picks (p ∷ rows) =
    let rest = discard_action n completed picks rows in
    if must_discard completed p then bot_discard n picks p else rest

unfoldable pub play_request_of : ℕ → Outcome BotError (Option Card) → BotAction
play_request_of user (ok none) = acts user go_request
play_request_of user (ok (some card)) = acts user (play_card_request (card_string card))
play_request_of user (err e) = fails bot_error
play_request_of user panic = fails bot_error

-- `byPos[position]`: of rows with the same position the last one stands in the map.
unfoldable pub at_position : ℕ → List GamePlayer → Option GamePlayer
at_position place [] = none
at_position place (p ∷ rows) = elim (at_position place rows) [
  | some q ↦ some q
  | none ↦ if p.position == place then some p else none
]

unfoldable pub bot_play : State → List ℕ → GamePlayer → BotAction
unfolding play_request_of
bot_play s picks p = elim p.hand [
  | stored hand ↦
      play_request_of p.user_id (
        choose_pegging_play hand s.pegging_total s.pegging_seq (difficulty_of p) (get_or picks 0 0))
  | _ ↦ fails invalid_json
]

unfoldable pub pegging_action : State → List ℕ → List GamePlayer → BotAction
unfolding bot_play at_position
pegging_action s picks rows = elim (at_position s.current_index rows) [
  | none ↦ idle
  | some p ↦ if p.is_bot then bot_play s picks p else idle
]

unfoldable pub bot_action : State → List ℕ → List GamePlayer → BotAction
unfolding pegging_action discard_action
bot_action s picks rows =
    if stage_eq s.stage discarding
    then discard_action (if players s == 2 then 2 else 1) s.discard_completed picks rows
    else if stage_eq s.stage pegging
    then pegging_action s picks rows
    else idle

-- One step of the loop: it goes on from a world, or it returns.
pub data Turn : Type 0 where
  continues : World → Turn
  returns : World × Outcome ApiError (Unit {0}) → Turn

unfoldable pub after_move : World × Outcome ApiError Response → Turn
after_move (w, ok r) = continues w
after_move (w, err e) = returns (w, err e)
after_move (w, panic) = returns (w, panic)

unfoldable pub act : (ℕ → World → World) → World → ℕ → List ℕ → BotAction → Turn
unfolding after_move
act others w game draws idle = returns (w, ok tt)
act others w game draws (fails e) = returns (w, err e)
act others w game draws (acts user req) = after_move (apply_move others w game user draws req)

unfoldable pub turn_in :
    (ℕ → World → World)
    → ℕ
    → List ℕ
    → List ℕ
    → List GamePlayer
    → World × Outcome ApiError State
    → Turn
unfolding act bot_action
turn_in others game draws picks rows (w, ok s) = act others w game draws (bot_action s picks rows)
turn_in others game draws picks rows (w, err e) = returns (w, ok tt)
turn_in others game draws picks rows (w, panic) = returns (w, panic)

unfoldable pub turn : (ℕ → World → World) → World → ℕ → List ℕ → List ℕ → Turn
unfolding turn_in
turn others w game draws picks = elim (list_game_players w.db game) [
  | [] ↦ returns (w, ok tt)
  | p ∷ rows ↦
      turn_in others game draws picks (p ∷ rows) (ensure_game_state w game (p ∷ rows) draws)
]

-- The loop over the steps that are left. Each step has its own requests of others and its own draws,
-- for a deal and for the bot.
unfoldable pub turns_loop :
    ℕ
    → (ℕ → ℕ → World → World)
    → World
    → ℕ
    → (ℕ → List ℕ)
    → (ℕ → List ℕ)
    → World × Outcome ApiError (Unit {0})
unfolding turn
turns_loop zero others w game draws picks = (w, err bot_loop_exceeded)
turns_loop (suc k) others w game draws picks = elim (turn (others k) w game (draws k) (picks k)) [
  | continues w' ↦ turns_loop k others w' game draws picks
  | returns r ↦ r
]

unfoldable pub maybe_run_bot_turns :
    (ℕ → ℕ → World → World)
    → World
    → ℕ
    → (ℕ → List ℕ)
    → (ℕ → List ℕ)
    → World × Outcome ApiError (Unit {0})
unfolding turns_loop
maybe_run_bot_turns others w game draws picks = turns_loop 64 others w game draws picks
