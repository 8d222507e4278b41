-- ===== src/Lobbies/Created.antt =====
-- What CreateLobbyHandler makes: a lobby with its host, and one state of the game, the same in memory and
-- in the database.
use fifteen_thirty_one_go.Shared.{
  List, [], ap, arith, false, get_or, length, negsuc, none, ok, pos, refl, some, suc, ℕ, ℤ, ◌>>=◌,
  ◌∙◌, ◌∷◌, ◌≡◌, ◌≤◌,
}
use fifteen_thirty_one_go.Cards.Text.{Text}
use fifteen_thirty_one_go.Engine.Dealing.{deal}
use fifteen_thirty_one_go.Engine.Dealt.{IsDealt, deal_lem}
use fifteen_thirty_one_go.Engine.Invariant.{WellFormed, new_state-WellFormed}
use fifteen_thirty_one_go.Engine.State.{State, new_state}
use fifteen_thirty_one_go.Lobbies.Create.{
  CreateAnswer, CreateRequest, create_answer, create_checked, create_lobby, create_with,
  insert_rows, persist_first_deal, settle, valid_name, valid_size,
}
use fifteen_thirty_one_go.Lobbies.Housed.{insert_rows-Seating}
use fifteen_thirty_one_go.Lobbies.Rows.{first_row, insert_rows-lem, lobby_of_host, update_self}
use fifteen_thirty_one_go.Moves.World.{World}
use fifteen_thirty_one_go.Store.Games.{
  Db, GameRow, LobbyRow, marshal_state, stored, update, update_game_state,
}
use fifteen_thirty_one_go.Store.Players.{update_player_hand_if_empty, write_empty_hand}
use fifteen_thirty_one_go.Store.Seated.{
  update_game_state-Seating, update_player_hand_if_empty-Seating,
}
use fifteen_thirty_one_go.Store.Seating.{Seating}
use fifteen_thirty_one_go.Store.Seats.{get_game_by_id, get_lobby_by_id, new_player}

-- What a request for a new lobby leaves: `dealt` is the state that was dealt.
pub record Created (w w' : World) (host : ℕ) (name : Text) (size : ℕ) (a : CreateAnswer)
    (dealt : State) : Type 0 where
  pub in_memory : w'.runtime a.game_id ≡ some (record dealt { version = 1 })
  pub well_formed : WellFormed dealt
  pub is_dealt : IsDealt (new_state (pos size)) dealt
  pub game_row : w'.db.games a.game_id ≡ some a.game
  pub stored_state :
      a.game ≡ record (first_row a.lobby_id) { state_json = marshal_state dealt; state_version = 1 }
  pub lobby_row : w'.db.lobbies a.lobby_id ≡ some a.lobby
  pub lobby : a.lobby ≡ lobby_of_host name host size
  pub host_seat :
      w'.db.players_of a.game_id
      ≡ record (new_player host 0 false none) { hand = stored (get_or dealt.hands 0 []) } ∷ []
  pub seating : Seating w'.db

module _ (w : World) (d : Db) (host : ℕ) (st : State) (l : LobbyRow) where
  abbrev lobby : ℕ
  lobby = suc w.db.last_lobby

  abbrev game : ℕ
  game = suc w.db.last_game

  abbrev with_host_hand : Db
  with_host_hand = update_player_hand_if_empty d game host (get_or st.hands 0 [])

  abbrev row : GameRow
  row = record (first_row lobby) { state_json = marshal_state st; state_version = 1 }

  abbrev final : Db
  final = record with_host_hand { games = update with_host_hand.games game (some row) }

  stores_state :
      d.games game ≡ some (first_row lobby) → update_game_state with_host_hand game st ≡ ok final
  unfolding update_game_state update_player_hand_if_empty
  stores_state found = rw (found, update_game_state) refl

  answers :
      d.games game ≡ some (first_row lobby)
      → d.lobbies lobby ≡ some l
      → persist_first_deal d game host (st, ok tt) >>= create_answer w lobby game
        ≡ ok (
          record { db = final; runtime = update w.runtime game (some (record st { version = 1 })) },
          record { lobby_id = lobby; lobby = l; game_id = game; game = row },
        )
  unfolding persist_first_deal create_answer get_lobby_by_id get_game_by_id
      update_player_hand_if_empty
  answers found lobby_found =
      rw
        (
          stores_state found,
          persist_first_deal,
          lobby_found,
          get_lobby_by_id,
          update_self d.games game (some row),
          get_game_by_id,
        )
        refl

  host_row :
      d.players_of game ≡ new_player host 0 false none ∷ []
      → final.players_of game
        ≡ record (new_player host 0 false none) { hand = stored (get_or st.hands 0 []) } ∷ []
  unfolding update_player_hand_if_empty write_empty_hand
  host_row e =
      update_self d.players_of game
        (write_empty_hand host (get_or st.hands 0 []) (d.players_of game))
      ∙ ap (write_empty_hand host (get_or st.hands 0 [])) e
      ∙ ground arith

pub positive_size : (m : ℤ) (size : ℕ) → valid_size m ≡ some size → (2 ≤ size) × (size ≤ 4)
unfolding valid_size
positive_size (negsuc n) size h = absurd (ground arith)
positive_size (pos n) size h = ground arith

module _ (w : World) (host : ℕ) (name : Text) (size : ℕ) (draws : List ℕ) where
  create_with-Created :
      Seating w.db
      → 2 ≤ size
      → 51 ≤ length draws
      → let st = (deal draws (new_state (pos size))).0 in
        (w' : World) × (a : CreateAnswer) × (create_with w host name size draws ≡ ok (w', a))
        × Created w w' host name size a st
  unfolding create_with update_player_hand_if_empty
  create_with-Created h two enough =
      let r = deal draws (new_state (pos size)) in
      let (dealt_ok, well, is_dealt) =
        deal_lem draws (new_state (pos size)) (new_state-WellFormed (pos size)) enough in
      let d = insert_rows w.db name host size in
      let empty = h.no_later_player (suc w.db.last_game) (omega arith) in
      let (game_is, lobby_is, host_is) = insert_rows-lem w.db name host size empty in
      let l = lobby_of_host name host size in
      let done = answers w d host r.0 l game_is lobby_is in
      let housed_seats = insert_rows-Seating w.db name host size h (omega (arith, two)) in
      let hand_seats =
        update_player_hand_if_empty-Seating d (suc w.db.last_game) host (get_or r.0.hands 0 [])
          housed_seats in
      let last = final w d host r.0 l in
      let final_seats =
        update_game_state-Seating
          (update_player_hand_if_empty d (suc w.db.last_game) host (get_or r.0.hands 0 [])) last
          (suc w.db.last_game) r.0 hand_seats (stores_state w d host r.0 l game_is) in
      (
        record {
          db = last;
          runtime = update w.runtime (suc w.db.last_game) (some (record r.0 { version = 1 }));
        },
        record {
          lobby_id = suc w.db.last_lobby;
          lobby = l;
          game_id = suc w.db.last_game;
          game = row w d host r.0 l;
        },
        ap
              (λ o.
                persist_first_deal d (suc w.db.last_game) host (r.0, o)
                >>= create_answer w (suc w.db.last_lobby) (suc w.db.last_game))
              dealt_ok
            ∙ done,
        record {
          in_memory =
              update_self w.runtime (suc w.db.last_game) (some (record r.0 { version = 1 }));
          well_formed = well;
          is_dealt = is_dealt;
          game_row =
              update_self (with_host_hand w d host r.0 l).games (suc w.db.last_game)
                (some (row w d host r.0 l));
          stored_state = refl;
          lobby_row = lobby_is;
          lobby = refl;
          host_seat = host_row w d host r.0 l host_is;
          seating = final_seats;
        },
      )

-- With a valid size and name and enough random numbers a request for a lobby is answered. The lobby has
-- its host alone, on the first position and with the first hand; the game's state is a full deal for
-- so many players, in memory as version 1 and in the database the same.
pub create_lobby-Created :
    (w : World) (host : ℕ) (req : CreateRequest) (draws : List ℕ) (name : Text) (size : ℕ)
    → Seating w.db
    → valid_size req.max_players ≡ some size
    → valid_name req.name ≡ some name
    → 51 ≤ length draws
    → (w' : World) × (a : CreateAnswer) × (create_lobby w host req draws ≡ (w', ok a))
      × Created w w' host name size a (deal draws (new_state (pos size))).0
unfolding create_lobby create_checked settle
create_lobby-Created w host req draws name size h size_is name_is enough =
    let (two, four) = positive_size req.max_players size size_is in
    let (w', a, e, c) = create_with-Created w host name size draws h two enough in
    (w', a, rw (size_is, create_lobby, name_is, create_checked, e, settle) refl, c)
