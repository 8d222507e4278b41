-- ===== src/Store/Moves.antt =====
-- The reads and the correction of models/game_move.go, models/permissions.go and
-- models/user_preferences.go over the tables.
use fifteen_thirty_one_go.Shared.{
  Bool, List, Option, Outcome, [], err, false, get_elem?, none, not, ok, set, some, suc, true, zero,
  ℕ, ◌&&◌, ◌==◌, ◌||◌, ◌∷◌,
}
use fifteen_thirty_one_go.Store.Games.{
  ApiError, AutoCountMode, Db, GameMove, MoveType, correct_move, count_move, discard_move, go_move,
  invalid_mode, not_found, play_card_move, suggest_mode, update,
}
use fifteen_thirty_one_go.Store.Players.{find_player}

-- The comparison of two texts for the type of a move.
unfoldable pub move_type_eq : MoveType → MoveType → Bool
move_type_eq discard_move discard_move = true
move_type_eq play_card_move play_card_move = true
move_type_eq go_move go_move = true
move_type_eq (count_move true true) (count_move true true) = true
move_type_eq (count_move true false) (count_move true false) = true
move_type_eq (count_move false true) (count_move false true) = true
move_type_eq (count_move false false) (count_move false false) = true
move_type_eq (correct_move a) (correct_move b) = move_type_eq a b
move_type_eq a b = false

-- `strings.HasSuffix(prev.MoveType, "_final")`.
abbrev pub is_final : MoveType → Bool
is_final (count_move crib final) = final
is_final discard_move = false
is_final play_card_move = false
is_final go_move = false
is_final (correct_move t) = false

-- GetMoveByID: the move 1 is the first of the list.
unfoldable pub get_move_by_id : Db → ℕ → Outcome ApiError GameMove
get_move_by_id db zero = err not_found
get_move_by_id db (suc i) = elim (get_elem? db.moves i) [ none ↦ err not_found | some m ↦ ok m ]

abbrev pub is_uncorrected : ℕ → ℕ → MoveType → GameMove → Bool
is_uncorrected game player type m =
    m.game_id == game
    && (m.player_id == player && (move_type_eq m.move_type type && not m.is_corrected))

unfoldable pub any_uncorrected : ℕ → ℕ → MoveType → List GameMove → Bool
any_uncorrected game player type [] = false
any_uncorrected game player type (m ∷ ms) =
    is_uncorrected game player type m || any_uncorrected game player type ms

-- HasUncorrectedMoveType.
unfoldable pub has_uncorrected_move_type : Db → ℕ → ℕ → MoveType → Bool
unfolding any_uncorrected
has_uncorrected_move_type db game player type = any_uncorrected game player type db.moves

-- MarkMoveAsCorrected and MarkMoveAsCorrectedTx.
unfoldable pub mark_move_as_corrected : Db → ℕ → Outcome ApiError Db
mark_move_as_corrected db zero = err not_found
mark_move_as_corrected db (suc i) = elim (get_elem? db.moves i) [
  | none ↦ err not_found
  | some m ↦ ok (record db { moves = set db.moves i (record m { is_corrected = true }) })
]

-- IsUserInGame.
unfoldable pub is_user_in_game : Db → ℕ → ℕ → Bool
is_user_in_game db user game = elim (find_player user (db.players_of game)) [
  | none ↦ false
  | some p ↦ true
]

-- GetUserPreferences: suggestions where no row is kept.
unfoldable pub get_user_preferences : Db → ℕ → AutoCountMode
get_user_preferences db user = elim (db.preferences user) [ none ↦ suggest_mode | some mode ↦ mode ]

-- SetUserAutoCountMode; `none` is a text that names no mode.
unfoldable pub set_user_auto_count_mode : Db → ℕ → Option AutoCountMode → Outcome ApiError Db
set_user_auto_count_mode db user none = err invalid_mode
set_user_auto_count_mode db user (some mode) =
    ok (record db { preferences = update db.preferences user (some mode) })
