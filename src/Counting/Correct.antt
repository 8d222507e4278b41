-- ===== src/Counting/Correct.antt =====
-- CorrectHandler of internal/handlers/game.go: a claim is corrected by the player who made it or by the
-- host of the lobby.
use fifteen_thirty_one_go.Shared.{
  Outcome, err, false, if◌then◌else◌, none, not, ok, panic, some, ℕ, ℤ, ◌&&◌, ◌==◌, ◌>>=◌,
}
use fifteen_thirty_one_go.Store.Games.{
  ApiError, Db, GameMove, MoveType, correct_move, game_not_found, insert_move, invalid_move,
  move_already_corrected, move_not_correctable, not_your_move, requires_host,
}
use fifteen_thirty_one_go.Store.Moves.{get_move_by_id, is_final, mark_move_as_corrected}

-- `SELECT l.host_id FROM games g JOIN lobbies l ON l.id = g.lobby_id WHERE g.id = ?`.
unfoldable pub host_of : Db → ℕ → Outcome ApiError ℕ
host_of db game = elim (db.games game) [
  | none ↦ err game_not_found
  | some row ↦ elim (db.lobbies row.lobby_id) [ none ↦ err game_not_found | some l ↦ ok l.host_id ]
]

-- The guards of the handler, in its order.
unfoldable pub correctable : ℕ → ℕ → GameMove → Outcome ApiError ℕ
correctable user host prev =
    if not (prev.player_id == user) && not (host == user)
    then err not_your_move
    else if prev.is_corrected
    then err move_already_corrected
    else if is_final prev.move_type && not (host == user)
    then err requires_host
    else elim prev.score_verified [ none ↦ err move_not_correctable | some points ↦ ok points ]

abbrev pub correction : ℕ → ℕ → MoveType → ℤ → ℕ → GameMove
correction game user type claim points = record {
  game_id = game;
  player_id = user;
  move_type = correct_move type;
  card_played = none;
  score_claimed = some claim;
  score_verified = some points;
  is_corrected = false;
}

-- The transaction: the move is marked, and its correction follows it.
unfoldable pub commit_correction : Db → ℕ → ℕ → ℕ → GameMove → ℤ → ℕ → Outcome ApiError (Db × ℕ)
commit_correction db game user id prev claim points = do
  db' ← mark_move_as_corrected db id
  ok (insert_move db' (correction game user prev.move_type claim points), points)

unfoldable pub correct_in : Db → ℕ → ℕ → ℕ → ℤ → GameMove → Outcome ApiError (Db × ℕ)
unfolding commit_correction correctable host_of
correct_in db game user id claim prev = if not (prev.game_id == game) then err invalid_move else do
  host ← host_of db game
  points ← correctable user host prev
  commit_correction db game user id prev claim points

-- A move that is not there is an invalid move.
unfoldable pub correct_found :
    Db → ℕ → ℕ → ℕ → ℤ → Outcome ApiError GameMove → Outcome ApiError (Db × ℕ)
unfolding correct_in
correct_found db game user id claim (ok prev) = correct_in db game user id claim prev
correct_found db game user id claim (err e) = err invalid_move
correct_found db game user id claim panic = panic

unfoldable pub correct : Db → ℕ → ℕ → ℕ → ℤ → Outcome ApiError (Db × ℕ)
unfolding correct_found
correct db game user id claim = correct_found db game user id claim (get_move_by_id db id)
