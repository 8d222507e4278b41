-- ===== src/Lobbies/Create.antt =====
-- CreateLobbyHandler of internal/handlers/lobby.go.
use fifteen_thirty_one_go.Shared.{
  List, Option, Outcome, [], err, false, get_or, if◌then◌else◌, length, ltb, negsuc, none, ok,
  panic, pos, some, suc, ℕ, ℤ, ◌>>=◌, ◌||◌, ◌∷◌,
}
use fifteen_thirty_one_go.Cards.Text.{Text, trim_space}
use fifteen_thirty_one_go.Engine.Dealing.{deal}
use fifteen_thirty_one_go.Engine.State.{Done, State, new_state}
use fifteen_thirty_one_go.Moves.World.{World}
use fifteen_thirty_one_go.Store.Games.{
  ApiError, Db, GameRow, LobbyRow, blank, deal_failed, game_waiting, invalid_max_players,
  invalid_name, lobby_waiting, update, update_game_state,
}
use fifteen_thirty_one_go.Store.Players.{update_player_hand_if_empty}
use fifteen_thirty_one_go.Store.Seats.{get_game_by_id, get_lobby_by_id, insert_player, new_player}

pub record CreateRequest : Type 0 where
  pub name : Text
  pub max_players : ℤ

pub record CreateAnswer : Type 0 where
  pub lobby_id : ℕ
  pub lobby : LobbyRow
  pub game_id : ℕ
  pub game : GameRow

-- `max_players must be 2-4`.
unfoldable pub valid_size : ℤ → Option ℕ
valid_size (negsuc n) = none
valid_size (pos n) = if ltb n 2 || ltb 4 n then none else some n

-- `if req.Name == "" { req.Name = "Lobby" }`.
unfoldable pub default_name : Text → Text
default_name [] = b'L' ∷ b'o' ∷ b'b' ∷ b'b' ∷ b'y' ∷ []
default_name (c ∷ cs) = c ∷ cs

-- `strings.TrimSpace`, the default name, and at most 100 bytes.
unfoldable pub valid_name : Text → Option Text
unfolding default_name
valid_name given =
    let name = default_name (trim_space given) in if ltb 100 (length name) then none else some name

-- INSERT INTO lobbies and INSERT INTO games; the new ids are the next ones.
unfoldable pub insert_lobby : Db → Text → ℕ → ℕ → Db
insert_lobby db name host size =
    let row : LobbyRow = record {
      name = name;
      host_id = host;
      max_players = size;
      current_players = 1;
      status = lobby_waiting;
    } in
    record db {
      lobbies = update db.lobbies (suc db.last_lobby) (some row);
      last_lobby = suc db.last_lobby;
    }

-- The column of the state is left at its default of the migration, '{}', which the first deal overwrites in
-- the same transaction before anything reads it; it stands here as blank.
unfoldable pub insert_game : Db → ℕ → Db
insert_game db lobby =
    let row : GameRow = record {
      lobby_id = lobby;
      status = game_waiting;
      state_json = blank;
      state_version = 0;
    } in
    record db {
      games = update db.games (suc db.last_game) (some row);
      last_game = suc db.last_game;
    }

-- The rows of the lobby, its game and its host.
unfoldable pub insert_rows : Db → Text → ℕ → ℕ → Db
unfolding insert_lobby insert_game
insert_rows db name host size =
    insert_player (insert_game (insert_lobby db name host size) (suc db.last_lobby))
      (suc db.last_game) (new_player host 0 false none)

-- The first deal, and what is stored of it. `st.Hands[0]` is there after a deal.
unfoldable pub persist_first_deal : Db → ℕ → ℕ → State × Done → Outcome ApiError (Db × State)
persist_first_deal db game host (st, ok _) = do
  db' ← update_game_state (update_player_hand_if_empty db game host (get_or st.hands 0 [])) game st
  ok (db', st)
persist_first_deal db game host (st, err e) = err deal_failed
persist_first_deal db game host (st, panic) = panic

-- After the commit the two rows are read for the answer, and the state goes to memory.
unfoldable pub create_answer : World → ℕ → ℕ → Db × State → Outcome ApiError (World × CreateAnswer)
create_answer w lobby game (db, st) = do
  l ← get_lobby_by_id db lobby
  g ← get_game_by_id db game
  ok (
    record { db = db; runtime = update w.runtime game (some (record st { version = 1 })) },
    record { lobby_id = lobby; lobby = l; game_id = game; game = g },
  )

unfoldable pub create_with : World → ℕ → Text → ℕ → List ℕ → Outcome ApiError (World × CreateAnswer)
unfolding insert_rows persist_first_deal create_answer
create_with w host name size draws =
    let lobby = suc w.db.last_lobby in
    let game = suc w.db.last_game in
    persist_first_deal (insert_rows w.db name host size) game host
      (deal draws (new_state (pos size)))
    >>= create_answer w lobby game

unfoldable pub create_checked :
    World → ℕ → Option ℕ → Option Text → List ℕ → Outcome ApiError (World × CreateAnswer)
unfolding create_with
create_checked w host none name draws = err invalid_max_players
create_checked w host (some size) none draws = err invalid_name
create_checked w host (some size) (some name) draws = create_with w host name size draws

-- A failed request is rolled back.
unfoldable pub settle :
    World → Outcome ApiError (World × CreateAnswer) → World × Outcome ApiError CreateAnswer
settle w (ok (w', a)) = (w', ok a)
settle w (err e) = (w, err e)
settle w panic = (w, panic)

unfoldable pub create_lobby :
    World → ℕ → CreateRequest → List ℕ → World × Outcome ApiError CreateAnswer
unfolding create_checked valid_size valid_name settle
create_lobby w host req draws =
    settle w (create_checked w host (valid_size req.max_players) (valid_name req.name) draws)
