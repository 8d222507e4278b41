-- ===== src/Store/Games.antt =====
-- models/sentinel_errors.go, models/game.go and models/game_move.go over the tables.
use fifteen_thirty_one_go.Shared.{
  Bool, List, Option, Outcome, [], err, if◌then◌else◌, none, ok, some, ℕ, ℤ, ◌++◌, ◌+◌, ◌==◌, ◌∷◌,
}
use fifteen_thirty_one_go.Cards.{Card}
use fifteen_thirty_one_go.Engine.State.{Error, State}

-- The errors that handlers see. `engine` carries an error of the engine.
pub data ApiError : Type 0 where
  engine : Error → ApiError
  not_found no_rows invalid_json invalid_card not_a_player invalid_player_position : ApiError
  unknown_move_type game_state_missing game_state_conflict game_not_found : ApiError
  player_not_in_game lobby_full lobby_not_joinable no_players bot_error bot_loop_exceeded : ApiError
  could_not_allocate_position invalid_max_players unique_constraint invalid_status : ApiError
  deal_failed not_in_counting_stage not_ready : ApiError
  invalid_kind only_dealer_counts_crib final_count_already_submitted invalid_move : ApiError
  not_your_move move_already_corrected requires_host move_not_correctable : ApiError
  invalid_name invalid_difficulty only_host position_out_of_bounds internal_error : ApiError
  invalid_mode : ApiError

-- A column of JSON, as json.Unmarshal reads it: NULL or blank, a text that it refuses, or a value.
pub data Column (A : Type 0) : Type 0 where
  blank undecodable : Column A
  stored : A → Column A

pub data GameStatus : Type 0 where
  game_waiting game_playing game_finished : GameStatus

pub record GameRow : Type 0 where
  pub lobby_id : ℕ
  pub status : GameStatus
  pub state_json : Column State
  pub state_version : ℕ

pub data BotDifficulty : Type 0 where
  easy medium hard unknown_difficulty : BotDifficulty

-- A row of game_players.
pub record GamePlayer : Type 0 where
  pub user_id : ℕ
  pub position : ℕ
  pub hand : Column (List Card)
  pub hand_count : Option ℕ
  pub is_bot : Bool
  pub bot_difficulty : Option BotDifficulty

pub data MoveType : Type 0 where
  discard_move play_card_move go_move : MoveType
  count_move : (crib final : Bool) → MoveType
  correct_move : MoveType → MoveType

pub record GameMove : Type 0 where
  pub game_id : ℕ
  pub player_id : ℕ
  pub move_type : MoveType
  pub card_played : Option Card
  pub score_claimed : Option ℤ
  pub score_verified : Option ℕ
  pub is_corrected : Bool

pub data LobbyStatus : Type 0 where
  lobby_waiting lobby_in_progress lobby_finished : LobbyStatus

pub record LobbyRow : Type 0 where
  pub name : List ℕ
  pub host_id : ℕ
  pub max_players : ℕ
  pub current_players : ℕ
  pub status : LobbyStatus

pub record ScoreRow : Type 0 where
  pub user_id : ℕ
  pub game_id : ℕ
  pub final_score : ℕ
  pub position : ℕ

pub record UserRow : Type 0 where
  pub games_played : ℕ
  pub games_won : ℕ

pub data AutoCountMode : Type 0 where
  off_mode suggest_mode auto_mode : AutoCountMode

-- The rows of game_players of a game stand in the order of their positions, as every SELECT over
-- them asks for; the moves and the scoreboard in the order of insertion. Ids are given from 1 on: a move
-- has its place in the list, and of games, lobbies and users the last id given is kept.
pub record Db : Type 0 where
  pub games : ℕ → Option GameRow
  pub players_of : ℕ → List GamePlayer
  pub lobbies : ℕ → Option LobbyRow
  pub moves : List GameMove
  pub scoreboard : List ScoreRow
  pub users : ℕ → UserRow
  pub usernames : List (List ℕ)
  pub preferences : ℕ → Option AutoCountMode
  pub last_game : ℕ
  pub last_lobby : ℕ
  pub last_user : ℕ

abbrev pub update {ℓ} : {A : Type ℓ} → (ℕ → A) → ℕ → A → ℕ → A
update f k v j = if k == j then v else f j

-- json.Marshal of a state leaves the version out.
abbrev pub marshal_state : State → Column State
marshal_state s = stored (record s { version = 0 })

-- GetGameStateJSON, with the decoding that its callers do.
unfoldable pub get_game_state : Db → ℕ → Outcome ApiError (Column State × ℕ)
get_game_state db game = elim (db.games game) [
  | none ↦ err not_found
  | some row ↦ ok (row.state_json, row.state_version)
]

-- UpdateGameStateTx.
unfoldable pub update_game_state : Db → ℕ → State → Outcome ApiError Db
update_game_state db game s = elim (db.games game) [
  | none ↦ err game_not_found
  | some row ↦ ok (record db {
    games =
        update db.games game (
          some
            (record row { state_json = marshal_state s; state_version = row.state_version + 1 }));
  })
]

-- UpdateGameStateTxCAS: the WHERE clause has the expected version.
unfoldable pub update_game_state_cas : Db → ℕ → ℕ → State → Outcome ApiError Db
update_game_state_cas db game expected s = elim (db.games game) [
  | none ↦ err game_not_found
  | some row ↦
      if row.state_version == expected
      then ok (record db {
        games = update db.games game (
            some
              (record row { state_json = marshal_state s; state_version = row.state_version + 1 }));
      })
      else err game_state_conflict
]

-- SetGameStatus and SetGameStatusTx.
unfoldable pub set_game_status : Db → ℕ → GameStatus → Outcome ApiError Db
set_game_status db game status = elim (db.games game) [
  | none ↦ err game_not_found
  | some row ↦
      ok (record db { games = update db.games game (some (record row { status = status })) })
]

-- InsertMove and InsertMoveTx.
unfoldable pub insert_move : Db → GameMove → Db
insert_move db m = record db { moves = db.moves ++ m ∷ [] }
