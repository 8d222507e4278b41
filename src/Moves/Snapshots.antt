-- ===== src/Moves/Snapshots.antt =====
-- BuildGameSnapshotForUser and BuildGameSnapshotPublic of internal/handlers/game_logic.go.
use fifteen_thirty_one_go.Shared.{
  List, Option, Outcome, [], err, get_elem?, get_or, if◌then◌else◌, length, ltb, map, none, ok,
  panic, set, some, ℕ, ◌==◌, ◌>>=◌, ◌∷◌,
}
use fifteen_thirty_one_go.Cards.{Card}
use fifteen_thirty_one_go.Engine.State.{State}
use fifteen_thirty_one_go.Moves.World.{World, ensure_game_state}
use fifteen_thirty_one_go.Store.Games.{
  ApiError, Column, Db, GamePlayer, GameStatus, blank, invalid_json, no_players, not_found, stored,
  undecodable,
}
use fifteen_thirty_one_go.Store.Players.{find_player, list_game_players, update_player_hand}
use fifteen_thirty_one_go.Views.{clone_state_for_view}

-- The columns of a game that a client sees.
pub record GameInfo : Type 0 where
  pub lobby_id : ℕ
  pub status : GameStatus

pub record GameSnapshot : Type 0 where
  pub game : GameInfo
  pub players : List GamePlayer
  pub state : State

-- GetGameByID.
unfoldable pub get_game : Db → ℕ → Outcome ApiError GameInfo
get_game db game = elim (db.games game) [
  | none ↦ err not_found
  | some row ↦ ok (record { lobby_id = row.lobby_id; status = row.status })
]

-- The hand of the state in memory, which stands in for an empty one in the database.
unfoldable pub fallback_hand : ℕ → List GamePlayer → State → List Card
fallback_hand user rows s = elim (find_player user rows) [
  | none ↦ []
  | some p ↦ get_or s.hands p.position []
]

unfoldable pub decoded_hand : Column (List Card) → Outcome ApiError (List Card)
decoded_hand (stored hand) = ok hand
decoded_hand blank = err invalid_json
decoded_hand undecodable = err invalid_json

-- The repair of a hand that is empty in the database; a failure is only logged.
unfoldable pub repair : Db → ℕ → ℕ → List Card → List Card → Db
repair db game user (c ∷ hand) fallback = db
repair db game user [] [] = db
repair db game user [] (c ∷ fallback) = elim (update_player_hand db game user (c ∷ fallback)) [
  | ok db' ↦ db'
  | err e ↦ db
  | panic ↦ db
]

unfoldable pub shown_hand : List Card → List Card → List Card
shown_hand (c ∷ hand) fallback = c ∷ hand
shown_hand [] fallback = fallback

-- The body of the loop, for a row of the user.
unfoldable pub show_own :
    Db → ℕ → ℕ → List Card → GamePlayer → State → List Card → Outcome ApiError (Db × State)
unfolding repair shown_hand
show_own db game user fallback p view hand = ok (
  repair db game user hand fallback,
  record view {
    hands =
        if ltb p.position (length view.hands)
        then set view.hands p.position (shown_hand hand fallback)
        else view.hands;
  },
)

unfoldable pub show_row :
    Db → ℕ → ℕ → List Card → GamePlayer → State → Outcome ApiError (Db × State)
unfolding decoded_hand show_own
show_row db game user fallback p view =
    if p.user_id == user
    then decoded_hand p.hand >>= show_own db game user fallback p view
    else ok (db, view)

unfoldable pub show_rows :
    Db → ℕ → ℕ → List Card → List GamePlayer → State → Outcome ApiError (Db × State)
unfolding show_row
show_rows db game user fallback [] view = ok (db, view)
show_rows db game user fallback (p ∷ rows) view = do
  r ← show_row db game user fallback p view
  show_rows r.0 game user fallback rows r.1

-- The number of cards, where the state is available and has the position.
unfoldable pub counted : Outcome ApiError State → GamePlayer → Option ℕ
counted (ok s) p = elim (get_elem? s.hands p.position) [
  | none ↦ p.hand_count
  | some hand ↦ some (length hand)
]
counted (err e) p = p.hand_count
counted panic p = p.hand_count

unfoldable pub hide_row : ℕ → Outcome ApiError State → GamePlayer → GamePlayer
unfolding counted
hide_row user st p = record p {
  hand_count = counted st p;
  hand = if p.user_id == user then p.hand else stored [];
}

unfoldable pub snapshot_shown :
    World
    → ℕ
    → ℕ
    → List GamePlayer
    → List ℕ
    → GameInfo
    → Outcome ApiError (Db × State)
    → World × Outcome ApiError GameSnapshot
unfolding hide_row
snapshot_shown w game user rows draws info (ok (db, view)) =
    let (w', st) = ensure_game_state (record w { db = db }) game rows draws in
    (w', ok (record { game = info; players = map (hide_row user st) rows; state = view }))
snapshot_shown w game user rows draws info (err e) = (w, err e)
snapshot_shown w game user rows draws info panic = (w, panic)

unfoldable pub snapshot_in :
    ℕ
    → ℕ
    → List GamePlayer
    → List ℕ
    → GameInfo
    → World × Outcome ApiError State
    → World × Outcome ApiError GameSnapshot
unfolding snapshot_shown show_rows fallback_hand
snapshot_in game user rows draws info (w, ok s) =
    snapshot_shown w game user rows draws info
      (show_rows w.db game user (fallback_hand user rows s) rows (clone_state_for_view s))
snapshot_in game user rows draws info (w, err e) = (w, err e)
snapshot_in game user rows draws info (w, panic) = (w, panic)

-- The rows that a snapshot needs.
unfoldable pub listed : Db → ℕ → Outcome ApiError (GameInfo × List GamePlayer)
unfolding get_game
listed db game = do
  info ← get_game db game
  elim (list_game_players db game) [ [] ↦ err no_players | p ∷ rows ↦ ok (info, p ∷ rows) ]

unfoldable pub for_user :
    World
    → ℕ
    → ℕ
    → List ℕ
    → Outcome ApiError (GameInfo × List GamePlayer)
    → World × Outcome ApiError GameSnapshot
unfolding snapshot_in
for_user w game user draws (ok (info, rows)) =
    snapshot_in game user rows draws info (ensure_game_state w game rows draws)
for_user w game user draws (err e) = (w, err e)
for_user w game user draws panic = (w, panic)

unfoldable pub build_game_snapshot_for_user :
    World → ℕ → ℕ → List ℕ → World × Outcome ApiError GameSnapshot
unfolding listed for_user
build_game_snapshot_for_user w game user draws = for_user w game user draws (listed w.db game)

unfoldable pub public_in :
    List GamePlayer
    → GameInfo
    → World × Outcome ApiError State
    → World × Outcome ApiError GameSnapshot
public_in rows info (w, ok s) =
    (w, ok (record { game = info; players = rows; state = clone_state_for_view s }))
public_in rows info (w, err e) = (w, err e)
public_in rows info (w, panic) = (w, panic)

unfoldable pub for_all :
    World
    → ℕ
    → List ℕ
    → Outcome ApiError (GameInfo × List GamePlayer)
    → World × Outcome ApiError GameSnapshot
unfolding public_in
for_all w game draws (ok (info, rows)) = public_in rows info (ensure_game_state w game rows draws)
for_all w game draws (err e) = (w, err e)
for_all w game draws panic = (w, panic)

unfoldable pub build_game_snapshot_public :
    World → ℕ → List ℕ → World × Outcome ApiError GameSnapshot
unfolding listed for_all
build_game_snapshot_public w game draws = for_all w game draws (listed w.db game)
