-- ===== src/Lobbies/Rows.antt =====
-- The rows of a new lobby: what the statements of CreateLobbyHandler and the trigger leave in the tables.
use fifteen_thirty_one_go.Shared.{[], ap, arith, false, none, some, suc, ℕ, ◌++◌, ◌∙◌, ◌∷◌, ◌≡◌}
use fifteen_thirty_one_go.Cards.Text.{Text}
use fifteen_thirty_one_go.Lobbies.Create.{insert_game, insert_lobby, insert_rows}
use fifteen_thirty_one_go.Store.Games.{
  Db, GameRow, LobbyRow, blank, game_waiting, lobby_waiting, update,
}
use fifteen_thirty_one_go.Store.Seated.{after_players_insert-counts}
use fifteen_thirty_one_go.Store.Seats.{count_players, insert_player, latest_from, new_player}

abbrev pub first_row : ℕ → GameRow
first_row lobby = record {
  lobby_id = lobby;
  status = game_waiting;
  state_json = blank;
  state_version = 0;
}

abbrev pub lobby_of_host : Text → ℕ → ℕ → LobbyRow
lobby_of_host name host size = record {
  name = name;
  host_id = host;
  max_players = size;
  current_players = 1;
  status = lobby_waiting;
}

pub update_self {ℓ} : {A : Type ℓ} (f : ℕ → A) (k : ℕ) (v : A) → update f k v k ≡ v
update_self f k v = ground arith

module _ (db : Db) (name : Text) (host size : ℕ) where
  -- Before the trigger runs.
  abbrev housed : Db
  housed =
      let db' = insert_game (insert_lobby db name host size) (suc db.last_lobby) in
      record db' {
        players_of =
            update db'.players_of (suc db.last_game)
              (db'.players_of (suc db.last_game) ++ new_player host 0 false none ∷ []);
      }

  counted_host :
      db.players_of (suc db.last_game) ≡ [] → count_players housed (suc db.last_lobby) ≡ 1
  unfolding count_players latest_from insert_game insert_lobby
  counted_host empty =
      rw
        (
          update_self db.games (suc db.last_game) (some (first_row (suc db.last_lobby))),
          count_players,
        )
        (ground (arith, empty))

  abbrev opened : Db
  opened = record housed {
    lobbies = update housed.lobbies (suc db.last_lobby) (some (lobby_of_host name host size));
  }

  insert_rows-opened :
      db.players_of (suc db.last_game) ≡ [] → insert_rows db name host size ≡ opened
  unfolding insert_rows insert_player insert_game insert_lobby
  insert_rows-opened empty =
      after_players_insert-counts housed (suc db.last_game) (first_row (suc db.last_lobby))
        (lobby_of_host name host size)
        (update_self db.games (suc db.last_game) (some (first_row (suc db.last_lobby))))
        (update_self db.lobbies (suc db.last_lobby) (some (lobby_of_host name host size)))
      ∙ ap
          (λ n. record housed {
            lobbies =
                update housed.lobbies (suc db.last_lobby)
                  (some (record (lobby_of_host name host size) { current_players = n }));
          })
          (counted_host empty)

  -- The rows of the new lobby, its game and its host.
  pub insert_rows-lem :
      db.players_of (suc db.last_game) ≡ []
      → let d = insert_rows db name host size in
        (d.games (suc db.last_game) ≡ some (first_row (suc db.last_lobby)))
        × (d.lobbies (suc db.last_lobby) ≡ some (lobby_of_host name host size))
        × (d.players_of (suc db.last_game) ≡ new_player host 0 false none ∷ [])
  unfolding insert_game insert_lobby
  insert_rows-lem empty = rw (insert_rows-opened empty) (
    update_self db.games (suc db.last_game) (some (first_row (suc db.last_lobby))),
    update_self housed.lobbies (suc db.last_lobby) (some (lobby_of_host name host size)),
    update_self db.players_of (suc db.last_game)
          (db.players_of (suc db.last_game) ++ new_player host 0 false none ∷ [])
        ∙ ap (λ ps. ps ++ new_player host 0 false none ∷ []) empty,
  )
