-- ===== src/Store/Players.antt =====
-- models/game_player.go over the table game_players.
use fifteen_thirty_one_go.Shared.{
  Bool, List, Option, Outcome, [], err, false, if◌then◌else◌, ltb, none, ok, some, true, ℕ, ◌&&◌,
  ◌+◌, ◌-◌, ◌==◌, ◌∷◌,
}
use fifteen_thirty_one_go.Cards.{Card}
use fifteen_thirty_one_go.Store.Games.{
  ApiError, BotDifficulty, Column, Db, GamePlayer, blank, could_not_allocate_position,
  invalid_max_players, no_rows, stored, undecodable, unique_constraint, update,
}
use fifteen_thirty_one_go.Store.Seats.{insert_player, new_player}

-- ListGamePlayersByGame.
abbrev pub list_game_players : Db → ℕ → List GamePlayer
list_game_players db game = db.players_of game

-- The loop of the callers that look for a user's row.
unfoldable pub find_player : ℕ → List GamePlayer → Option GamePlayer
find_player user [] = none
find_player user (p ∷ ps) = if p.user_id == user then some p else find_player user ps

-- `SET hand = ? WHERE user_id = ?` over the rows of one game; user_id is unique in a game.
unfoldable pub write_hand : ℕ → List Card → List GamePlayer → List GamePlayer
write_hand user hand [] = []
write_hand user hand (p ∷ ps) =
    if p.user_id == user
    then record p { hand = stored hand } ∷ write_hand user hand ps
    else p ∷ write_hand user hand ps

-- UpdatePlayerHandTx: no row is an error.
unfoldable pub update_player_hand : Db → ℕ → ℕ → List Card → Outcome ApiError Db
update_player_hand db game user hand = elim (find_player user (db.players_of game)) [
  | none ↦ err no_rows
  | some p ↦ ok (record db {
    players_of = update db.players_of game (write_hand user hand (db.players_of game));
  })
]

abbrev pub is_empty_hand : Column (List Card) → Bool
is_empty_hand (stored []) = true
is_empty_hand (stored (c ∷ cards)) = false
is_empty_hand blank = false
is_empty_hand undecodable = false

unfoldable pub write_empty_hand : ℕ → List Card → List GamePlayer → List GamePlayer
write_empty_hand user hand [] = []
write_empty_hand user hand (p ∷ ps) =
    if p.user_id == user && is_empty_hand p.hand
    then record p { hand = stored hand } ∷ write_empty_hand user hand ps
    else p ∷ write_empty_hand user hand ps

-- UpdatePlayerHandIfEmptyTx: it also asks for `hand = '[]'`, and no row is no error.
unfoldable pub update_player_hand_if_empty : Db → ℕ → ℕ → List Card → Db
unfolding write_empty_hand
update_player_hand_if_empty db game user hand = record db {
  players_of = update db.players_of game (write_empty_hand user hand (db.players_of game));
}

-- `COALESCE(MAX(position), -1) + 1`.
unfoldable pub next_position : List GamePlayer → ℕ
next_position [] = 0
next_position (p ∷ ps) =
    let rest = next_position ps in if ltb rest (p.position + 1) then p.position + 1 else rest

-- AddGamePlayerAutoPositionTx, up to the UNIQUE (game_id, user_id) that SQLite checks on the insert
-- and the trigger that runs after it. The new row has the greatest position, so it stands last.
unfoldable pub add_game_player_auto_position :
    Db → ℕ → ℕ → ℕ → Bool → Option BotDifficulty → Outcome ApiError (Db × ℕ)
add_game_player_auto_position db game user max_players is_bot difficulty =
    let players = db.players_of game in
    let pos = next_position players in
    if max_players == 0
    then err invalid_max_players
    else if ltb (max_players - 1) pos
    then err could_not_allocate_position
    else elim (find_player user players) [
      | some p ↦ err unique_constraint
      | none ↦ ok (insert_player db game (new_player user pos is_bot difficulty), pos)
    ]
