-- ===== src/Moves/World.antt =====
-- ensureGameStateLocked of internal/handlers/game_logic.go: the state of a game in memory, restored
-- from the database or dealt anew. GetOrCreateLocked keeps no entry where the creation fails.
use fifteen_thirty_one_go.Shared.{
  Bool, List, Option, Outcome, [], err, false, get_elem?, if◌then◌else◌, length, none, not, ok,
  panic, pos, some, true, ℕ, ◌&&◌, ◌==◌, ◌>>=◌, ◌||◌, ◌∷◌, ◌≡◌,
}
use fifteen_thirty_one_go.Cards.{Card}
use fifteen_thirty_one_go.Engine.Dealing.{deal}
use fifteen_thirty_one_go.Engine.State.{Done, State, new_state, players}
use fifteen_thirty_one_go.Store.Games.{
  ApiError, Column, Db, GamePlayer, blank, engine, game_state_missing, get_game_state, invalid_json,
  invalid_player_position, stored, undecodable, update, update_game_state,
}
use fifteen_thirty_one_go.Store.Players.{update_player_hand_if_empty}

pub record World : Type 0 where
  pub db : Db
  pub runtime : ℕ → Option State

-- `restored.Rules.MaxPlayers != playerCount || len(restored.Hands) != playerCount || ...`.
abbrev pub fits_lobby : ℕ → State → Bool
fits_lobby n s =
    players s == n && (length s.hands == n && (length s.kept_hands == n && length s.scores == n))

-- `strings.TrimSpace(p.Hand) != "" && strings.TrimSpace(p.Hand) != "[]"` for some player.
is_blank : Column (List Card) → Bool
is_blank blank = true
is_blank undecodable = false
is_blank (stored []) = true
is_blank (stored (c ∷ cards)) = false

has_hands : List GamePlayer → Bool
unfolding is_blank
has_hands [] = false
has_hands (p ∷ ps) = not (is_blank p.hand) || has_hands ps

-- The initial hands go to the rows that are still empty.
persist_initial_hands : Db → ℕ → List (List Card) → List GamePlayer → Outcome ApiError Db
persist_initial_hands db game hands [] = ok db
persist_initial_hands db game hands (p ∷ ps) = elim (get_elem? hands p.position) [
  | none ↦ err invalid_player_position
  | some hand ↦
      persist_initial_hands (update_player_hand_if_empty db game p.user_id hand) game hands ps
]

stored_version : Db → ℕ → ℕ
stored_version db game = elim (db.games game) [ none ↦ 1 | some row ↦ row.state_version ]

persist_deal : Db → ℕ → List GamePlayer → State × Done → Outcome ApiError (Db × State)
unfolding persist_initial_hands stored_version
persist_deal db game rows (tmp, ok _) = do
  db' ← persist_initial_hands db game tmp.hands rows
  db'' ← update_game_state db' game tmp
  ok (db'', record tmp { version = stored_version db'' game })
persist_deal db game rows (tmp, err e) = err (engine e)
persist_deal db game rows (tmp, panic) = panic

-- createFn, by the column of the persisted state.
create_from : Db → ℕ → List GamePlayer → List ℕ → Column State × ℕ → Outcome ApiError (Db × State)
unfolding persist_deal has_hands
create_from db game rows draws (blank, ver) =
    if has_hands rows
    then err game_state_missing
    else persist_deal db game rows (deal draws (new_state (pos (length rows))))
create_from db game rows draws (undecodable, ver) = err invalid_json
create_from db game rows draws (stored restored, ver) =
    if fits_lobby (length rows) restored
    then ok (db, record restored { version = ver })
    else err invalid_json

install : World → ℕ → Outcome ApiError (Db × State) → World × Outcome ApiError State
install w game (ok (db, s)) = (record { db = db; runtime = update w.runtime game (some s) }, ok s)
install w game (err e) = (w, err e)
install w game panic = (w, panic)

unfoldable pub ensure_game_state :
    World → ℕ → List GamePlayer → List ℕ → World × Outcome ApiError State
unfolding install create_from
ensure_game_state w game rows draws = elim (w.runtime game) [
  | some s ↦ (w, ok s)
  | none ↦ install w game (get_game_state w.db game >>= create_from w.db game rows draws)
]

-- A game that is in memory is returned as it is.
pub ensure_running :
    (w : World) (game : ℕ) (rows : List GamePlayer) (draws : List ℕ) {s : State}
    → w.runtime game ≡ some s
    → ensure_game_state w game rows draws ≡ (w, ok s)
unfolding ensure_game_state
ensure_running w game rows draws h = rw (h, ensure_game_state)
