-- ===== src/Store/Seats.antt =====
-- The tables that a new lobby, game, player or user goes to, and the trigger of
-- internal/database/migrations/001_init.sql that counts the players of a lobby.
use fifteen_thirty_one_go.Shared.{
  Bool, Option, Outcome, [], err, false, if◌then◌else◌, length, none, ok, some, suc, true, zero, ℕ,
  ◌&&◌, ◌++◌, ◌==◌, ◌∷◌,
}
use fifteen_thirty_one_go.Store.Games.{
  ApiError, BotDifficulty, Db, GamePlayer, GameRow, GameStatus, LobbyRow, game_finished,
  game_playing, game_waiting, not_found, stored, update,
}

-- `SELECT id FROM games WHERE lobby_id = ? ORDER BY id DESC LIMIT 1`, from the greatest id down.
unfoldable pub latest_from : (GameRow → Bool) → (ℕ → Option GameRow) → ℕ → Option ℕ
latest_from wanted games zero = none
latest_from wanted games (suc i) =
    let rest = latest_from wanted games i in
    elim (games (suc i)) [ none ↦ rest | some row ↦ if wanted row then some (suc i) else rest ]

abbrev pub of_lobby : ℕ → GameRow → Bool
of_lobby lobby row = row.lobby_id == lobby

-- `status IN ('waiting', 'in_progress')`; the code sets no game to the second of these words.
abbrev pub is_active : GameStatus → Bool
is_active game_waiting = true
is_active game_playing = false
is_active game_finished = false

abbrev pub active_of_lobby : ℕ → GameRow → Bool
active_of_lobby lobby row = row.lobby_id == lobby && is_active row.status

abbrev pub latest_game : Db → ℕ → Option ℕ
latest_game db lobby = latest_from (of_lobby lobby) db.games db.last_game

abbrev pub active_game : Db → ℕ → Option ℕ
active_game db lobby = latest_from (active_of_lobby lobby) db.games db.last_game

-- `SELECT COUNT(*) FROM game_players` of the active game of a lobby.
unfoldable pub count_players : Db → ℕ → ℕ
count_players db lobby = elim (active_game db lobby) [
  | none ↦ 0
  | some game ↦ length (db.players_of game)
]

-- trg_lobbies_current_players_after_game_players_insert.
unfoldable pub after_players_insert : Db → ℕ → Db
after_players_insert db game = elim (db.games game) [
  | none ↦ db
  | some row ↦ elim (db.lobbies row.lobby_id) [
    | none ↦ db
    | some l ↦ record db {
      lobbies =
          update db.lobbies row.lobby_id
            (some (record l { current_players = count_players db row.lobby_id }));
    }
  ]
]

-- An INSERT INTO game_players with the trigger; the row has the greatest position of its game.
unfoldable pub insert_player : Db → ℕ → GamePlayer → Db
insert_player db game row =
    after_players_insert
      (record db { players_of = update db.players_of game (db.players_of game ++ row ∷ []) }) game

-- GetLobbyByID.
unfoldable pub get_lobby_by_id : Db → ℕ → Outcome ApiError LobbyRow
get_lobby_by_id db lobby = elim (db.lobbies lobby) [ none ↦ err not_found | some l ↦ ok l ]

-- GetGameByID.
unfoldable pub get_game_by_id : Db → ℕ → Outcome ApiError GameRow
get_game_by_id db game = elim (db.games game) [ none ↦ err not_found | some row ↦ ok row ]

abbrev pub new_player : ℕ → ℕ → Bool → Option BotDifficulty → GamePlayer
new_player user place is_bot difficulty = record {
  user_id = user;
  position = place;
  hand = stored [];
  hand_count = none;
  is_bot = is_bot;
  bot_difficulty = difficulty;
}
