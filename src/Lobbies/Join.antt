-- ===== src/Lobbies/Join.antt =====
-- JoinLobbyHandler of internal/handlers/lobby.go.
use fifteen_thirty_one_go.Shared.{Bool, Outcome, err, false, none, ok, panic, some, true, ℕ, ◌>>=◌}
use fifteen_thirty_one_go.Lobbies.Sync.{Seen, aligned, persist_hand}
use fifteen_thirty_one_go.Moves.World.{World}
use fifteen_thirty_one_go.Store.Games.{ApiError, Db, GamePlayer, LobbyRow, no_rows}
use fifteen_thirty_one_go.Store.Lobbies.{join_lobby}
use fifteen_thirty_one_go.Store.Players.{add_game_player_auto_position, find_player}
use fifteen_thirty_one_go.Store.Seats.{get_lobby_by_id, latest_game}

pub record JoinAnswer : Type 0 where
  pub lobby : LobbyRow
  pub game_id : ℕ
  pub place : ℕ
  pub already_joined : Bool
  pub realtime_sync : Bool

-- What the transaction leaves, before the alignment.
pub record Entered : Type 0 where
  pub row : LobbyRow
  pub place : ℕ
  pub already : Bool
  pub seen : Seen

-- The user has a row in the game already: nothing is counted again.
unfoldable pub rejoin : Db → ℕ → ℕ → ℕ → GamePlayer → Outcome ApiError Entered
rejoin db lobby game user p = do
  l ← get_lobby_by_id db lobby
  seen ← persist_hand db game user p.position false
  ok (record { row = l; place = p.position; already = true; seen = seen })

unfoldable pub join_anew : Db → ℕ → ℕ → ℕ → Outcome ApiError Entered
join_anew db lobby game user = do
  joined ← join_lobby db lobby
  added ← add_game_player_auto_position joined.0 game user joined.1.max_players false none
  seen ← persist_hand added.0 game user added.1 true
  ok (record { row = joined.1; place = added.1; already = false; seen = seen })

-- The transaction.
unfoldable pub enter : Db → ℕ → ℕ → Outcome ApiError Entered
unfolding rejoin join_anew
enter db lobby user = elim (latest_game db lobby) [
  | none ↦ err no_rows
  | some game ↦ elim (find_player user (db.players_of game)) [
    | some p ↦ rejoin db lobby game user p
    | none ↦ join_anew db lobby game user
  ]
]

unfoldable pub enter_end :
    World → (World → World) → ℕ → Outcome ApiError Entered → World × Outcome ApiError JoinAnswer
enter_end w others game (ok e) =
    let (w', synced) = aligned w others game e.place e.seen in
    (
      w',
      ok (record {
        lobby = e.row;
        game_id = game;
        place = e.place;
        already_joined = e.already;
        realtime_sync = synced;
      }),
    )
enter_end w others game (err e) = (w, err e)
enter_end w others game panic = (w, panic)

unfoldable pub handle_join : World → (World → World) → ℕ → ℕ → World × Outcome ApiError JoinAnswer
unfolding enter enter_end
handle_join w others lobby user = elim (latest_game w.db lobby) [
  | none ↦ (w, err no_rows)
  | some game ↦ enter_end w others game (enter w.db lobby user)
]
