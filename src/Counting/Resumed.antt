-- ===== src/Counting/Resumed.antt =====
-- What a player who quits leaves behind.
use fifteen_thirty_one_go.Shared.{
  Bool-cases, List, Option-cases, Outcome, ap, arith, inl, inr, length, none, ok, refl, some, subst,
  sym, true, ℕ, ◌≡◌,
}
use fifteen_thirty_one_go.Counting.Quit.{quit_game, quit_in}
use fifteen_thirty_one_go.Engine.State.{State, players}
use fifteen_thirty_one_go.Moves.World.{World, ensure_game_state, fits_lobby}
use fifteen_thirty_one_go.Store.Games.{
  ApiError, GamePlayer, GameRow, LobbyRow, game_finished, get_game_state, lobby_finished,
  set_game_status, stored, update,
}
use fifteen_thirty_one_go.Store.Lobbies.{set_lobby_status}
use fifteen_thirty_one_go.Store.Moves.{is_user_in_game}

module _ (w : World) (game user : ℕ) where
  -- The rows after the two statuses are written.
  quit_in-rows :
      (row : GameRow)
      → w.db.games game ≡ some row
      → let db = (quit_in w game row).db in
        (db.games game ≡ some (record row { status = game_finished }))
        × (db.moves ≡ w.db.moves)
        × (db.players_of game ≡ w.db.players_of game)
        × ((l : LobbyRow)
            → w.db.lobbies row.lobby_id ≡ some l
            → db.lobbies row.lobby_id ≡ some (record l { status = lobby_finished }))
        × ((quit_in w game row).runtime game ≡ none)
  unfolding quit_in set_game_status set_lobby_status
  quit_in-rows row found = elim (Option-cases (w.db.lobbies row.lobby_id)) [
    | inl e ↦ (ground arith, ground arith, ground arith, λ l h. ground arith, ground arith)
    | inr (l, e) ↦ (ground arith, ground arith, ground arith, λ k h. ground arith, ground arith)
  ]

ensure-restores :
    (w : World) (game : ℕ) (row : GameRow) (s : State) (rows : List GamePlayer) (draws : List ℕ)
    → w.runtime game ≡ none
    → w.db.games game ≡ some row
    → row.state_json ≡ stored s
    → fits_lobby (length rows) s ≡ true
    → let restored = record s { version = row.state_version } in
      ensure_game_state w game rows draws
      ≡ (record w { runtime = update w.runtime game (some restored) }, ok restored)
unfolding ensure_game_state get_game_state
ensure-restores w game row s rows draws missing found column fits =
    rw (missing, ensure_game_state, found, get_game_state, column, fits) refl

quit_game-ok :
    (w w' : World) (game user : ℕ) (row : GameRow)
    → w.db.games game ≡ some row
    → quit_game w game user ≡ (w', ok tt)
    → w' ≡ quit_in w game row
unfolding quit_game
quit_game-ok w w' game user row found h = elim (Bool-cases (is_user_in_game w.db user game)) [
  | inl e ↦
      sym (ap (λ (r : World × Outcome ApiError (Unit {0})). r.0) (rw (e, quit_game, found) at h))
  | inr e ↦ absurd (ground arith)
]

-- A player who quits leaves the game finished and nothing of it in memory; but the next request that
-- takes the state of the game restores the stored one, with its version, and plays on from it.
pub quit_game_resumes :
    (w w' : World) (game user : ℕ) (row : GameRow) (s : State) (rows : List GamePlayer)
    (draws : List ℕ)
    → w.db.games game ≡ some row
    → row.state_json ≡ stored s
    → fits_lobby (length rows) s ≡ true
    → quit_game w game user ≡ (w', ok tt)
    → let restored = record s { version = row.state_version } in
      (w'.db.games game ≡ some (record row { status = game_finished }))
      × (w'.runtime game ≡ none)
      × (ensure_game_state w' game rows draws
          ≡ (record w' { runtime = update w'.runtime game (some restored) }, ok restored))
quit_game_resumes w w' game user row s rows draws found column fits h =
    let (finished_row, moves, players, lobby, missing) = quit_in-rows w game user row found in
    let same = sym (quit_game-ok w w' game user row found h) in
    subst
      (λ (v : World).
        (v.db.games game ≡ some (record row { status = game_finished }))
        × (v.runtime game ≡ none)
        × (ensure_game_state v game rows draws ≡ (
          record v {
            runtime = update v.runtime game (some (record s { version = row.state_version }));
          },
          ok (record s { version = row.state_version }),
        )))
      same
      (
        finished_row,
        missing,
        ensure-restores (quit_in w game row) game (record row { status = game_finished }) s rows
            draws missing finished_row column fits,
      )
