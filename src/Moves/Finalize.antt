-- ===== src/Moves/Finalize.antt =====
-- internal/handlers/game_finalize.go: the results of a finished game.
use fifteen_thirty_one_go.Shared.{
  Bool, List, Outcome, [], err, false, get_or, if◌then◌else◌, ltb, map, none, not, ok, panic, some,
  ℕ, ◌++◌, ◌+◌, ◌==◌, ◌>>=◌, ◌||◌, ◌∷◌,
}
use fifteen_thirty_one_go.Engine.State.{State, finished, stage_eq}
use fifteen_thirty_one_go.Moves.World.{World, ensure_game_state}
use fifteen_thirty_one_go.Store.Games.{
  ApiError, Db, GamePlayer, ScoreRow, UserRow, game_finished, game_not_found, lobby_finished,
  set_game_status, update,
}
use fifteen_thirty_one_go.Store.Lobbies.{set_lobby_status}
use fifteen_thirty_one_go.Store.Players.{list_game_players}

pub record Final : Type 0 where
  pub user_id : ℕ
  pub place : ℕ
  pub score : ℕ

unfoldable pub final_of : List ℕ → GamePlayer → Final
final_of scores p = record {
  user_id = p.user_id;
  place = p.position;
  score = get_or scores p.position 0;
}

-- The comparison that sort.SliceStable is called with.
unfoldable pub ahead : Final → Final → Bool
ahead a b = if not (a.score == b.score) then ltb b.score a.score else ltb a.place b.place

unfoldable pub insert_final : Final → List Final → List Final
unfolding ahead
insert_final a [] = a ∷ []
insert_final a (b ∷ finals) =
    let rest = insert_final a finals in if ahead b a then b ∷ rest else a ∷ b ∷ finals

unfoldable pub rank_finals : List Final → List Final
unfolding insert_final
rank_finals [] = []
rank_finals (a ∷ finals) = insert_final a (rank_finals finals)

-- `SELECT COUNT(*) FROM scoreboard WHERE game_id = ?` is above 0.
unfoldable pub has_scores : ℕ → List ScoreRow → Bool
has_scores game [] = false
has_scores game (r ∷ rows) = r.game_id == game || has_scores game rows

unfoldable pub one_more_game : UserRow → UserRow
one_more_game u = record u { games_played = u.games_played + 1 }

unfoldable pub won : UserRow → UserRow
won u = record u { games_won = u.games_won + 1 }

-- A row of the scoreboard, and one more game for the user.
unfoldable pub write_final : Db → ℕ → ℕ → Final → Db
unfolding one_more_game
write_final db game rank f = record db {
  scoreboard =
      db.scoreboard
      ++ record { user_id = f.user_id; game_id = game; final_score = f.score; position = rank }
        ∷ [];
  users = update db.users f.user_id (one_more_game (db.users f.user_id));
}

-- The loop over the ranks.
unfoldable pub write_finals : Db → ℕ → ℕ → List Final → Db
unfolding write_final
write_finals db game rank [] = db
write_finals db game rank (f ∷ finals) =
    write_finals (write_final db game rank f) game (rank + 1) finals

-- The statements of the transaction after the check that the game is not yet on the scoreboard.
unfoldable pub write_results : Db → ℕ → ℕ → ℕ → List Final → Outcome ApiError Db
unfolding write_finals won
write_results db game lobby winner finals =
    let db' = write_finals db game 1 finals in
    set_game_status (record db' { users = update db'.users winner (won (db'.users winner)) }) game
      game_finished
    >>= λ db''. set_lobby_status db'' lobby lobby_finished

unfoldable pub finalize_ranked : Db → ℕ → List Final → Outcome ApiError Db
unfolding write_results has_scores
finalize_ranked db game [] = ok db
finalize_ranked db game (winner ∷ finals) = elim (db.games game) [
  | none ↦ err game_not_found
  | some row ↦
      if has_scores game db.scoreboard
      then ok db
      else write_results db game row.lobby_id winner.user_id (winner ∷ finals)
]

unfoldable pub commit_final : World → Outcome ApiError Db → World × Outcome ApiError (Unit {0})
commit_final w (ok db) = (record w { db = db }, ok tt)
commit_final w (err e) = (w, err e)
commit_final w panic = (w, panic)

unfoldable pub finalize_in :
    ℕ → List GamePlayer → World × Outcome ApiError State → World × Outcome ApiError (Unit {0})
unfolding commit_final finalize_ranked rank_finals final_of
finalize_in game rows (w, ok s) =
    if not (stage_eq s.stage finished)
    then (w, ok tt)
    else commit_final w (finalize_ranked w.db game (rank_finals (map (final_of s.scores) rows)))
finalize_in game rows (w, err e) = (w, err e)
finalize_in game rows (w, panic) = (w, panic)

unfoldable pub maybe_finalize_game : World → ℕ → List ℕ → World × Outcome ApiError (Unit {0})
unfolding finalize_in
maybe_finalize_game w game draws = elim (list_game_players w.db game) [
  | [] ↦ (w, ok tt)
  | p ∷ rows ↦ finalize_in game (p ∷ rows) (ensure_game_state w game (p ∷ rows) draws)
]
