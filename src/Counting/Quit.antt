-- ===== src/Counting/Quit.antt =====
-- QuitGameHandler of internal/handlers/game.go. The writes of the two statuses are best-effort: where
-- one fails the handler goes on.
use fifteen_thirty_one_go.Shared.{
  Option, Outcome, err, if◌then◌else◌, none, not, ok, panic, some, ℕ,
}
use fifteen_thirty_one_go.Engine.State.{State}
use fifteen_thirty_one_go.Moves.World.{World}
use fifteen_thirty_one_go.Store.Games.{
  ApiError, Db, GameRow, game_finished, game_not_found, lobby_finished, not_a_player,
  set_game_status, update,
}
use fifteen_thirty_one_go.Store.Lobbies.{set_lobby_status}
use fifteen_thirty_one_go.Store.Moves.{is_user_in_game}

abbrev pub best_effort : Db → Outcome ApiError Db → Db
best_effort db (ok db') = db'
best_effort db (err e) = db
best_effort db panic = db

-- GameManager.Delete.
abbrev pub delete_state : (ℕ → Option State) → ℕ → ℕ → Option State
delete_state runtime game = update runtime game none

unfoldable pub quit_in : World → ℕ → GameRow → World
quit_in w game row =
    let db = best_effort w.db (set_game_status w.db game game_finished) in
    record {
      db = best_effort db (set_lobby_status db row.lobby_id lobby_finished);
      runtime = delete_state w.runtime game;
    }

unfoldable pub quit_game : World → ℕ → ℕ → World × Outcome ApiError (Unit {0})
unfolding quit_in
quit_game w game user =
    if not (is_user_in_game w.db user game) then (w, err not_a_player) else elim (w.db.games game) [
      | none ↦ (w, err game_not_found)
      | some row ↦ (quit_in w game row, ok tt)
    ]
