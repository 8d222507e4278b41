-- ===== src/Lobbies/Capacity.antt =====
-- Creating, joining and adding bots keep the seating: positions without gaps, and no game with more
-- players than its lobby has places.
use mathlib.Core.Option.{some-injective}
use fifteen_thirty_one_go.Shared.{
  ==_iff, >>=-eq-ok, Bool, Bool-cases, List, Option, Option-cases, ap, arith, get_elem?, inl, inr,
  length, ltb, none, ok, ok_injective, some, subst, suc, sym, true, zero, ℕ, ◌-◌, ◌<◌, ◌==◌, ◌∙◌,
  ◌≡◌, ◌⊎◌,
}
use fifteen_thirty_one_go.Cards.{Card}
use fifteen_thirty_one_go.Engine.State.{State}
use fifteen_thirty_one_go.Lobbies.Sync.{Seen, persist_hand, persist_hand_from, persist_hand_of}
use fifteen_thirty_one_go.Store.Games.{
  BotDifficulty, Column, Db, GameRow, blank, get_game_state, stored, undecodable,
}
use fifteen_thirty_one_go.Store.Players.{
  add_game_player_auto_position, find_player, next_position, update_player_hand_if_empty,
}
use fifteen_thirty_one_go.Store.Seated.{insert_player-Seating, update_player_hand_if_empty-Seating}
use fifteen_thirty_one_go.Store.Seating.{Seating, lobby_of, next_position-length, size_of}
use fifteen_thirty_one_go.Store.Seats.{
  insert_player, latest_from, latest_game, new_player, of_lobby,
}

pub latest_from-row :
    (wanted : GameRow → Bool) (games : ℕ → Option GameRow) (n g : ℕ)
    → latest_from wanted games n ≡ some g
    → (row : GameRow) × (games g ≡ some row) × (wanted row ≡ true)
unfolding latest_from
latest_from-row wanted games zero g h = absurd (ground arith)
latest_from-row wanted games (suc i) g h = elim (Option-cases (games (suc i))) [
  | inl e ↦ latest_from-row wanted games i g (rw (e, latest_from) at h)
  | inr (row, e) ↦ elim (Bool-cases (wanted row)) [
    | inl yes_row ↦
        let same : suc i ≡ g = some-injective (suc i) g (rw (e, latest_from, yes_row) at h) in
        (row, ap games (sym same) ∙ e, yes_row)
    | inr no_row ↦ latest_from-row wanted games i g (rw (e, latest_from, no_row) at h)
  ]
]

pub latest_game-lobby_of :
    (db : Db) (lobby game : ℕ) → latest_game db lobby ≡ some game → lobby_of db game ≡ some lobby
latest_game-lobby_of db lobby game h =
    let (row, found, mine) = latest_from-row (of_lobby lobby) db.games db.last_game game h in
    ground (arith, found, (==_iff row.lobby_id lobby).0 mine)

-- A new player that got a position.
pub record Added (db db' : Db) (game user most place : ℕ) (is_bot : Bool)
    (diff : Option BotDifficulty) : Type 0 where
  pub is_new : find_player user (db.players_of game) ≡ none
  pub next : place ≡ next_position (db.players_of game)
  pub room : place < most
  pub inserted : db' ≡ insert_player db game (new_player user place is_bot diff)

pub add_game_player-Added :
    (db db' : Db) (game user max_players place : ℕ) (is_bot : Bool) (diff : Option BotDifficulty)
    → add_game_player_auto_position db game user max_players is_bot diff ≡ ok (db', place)
    → Added db db' game user max_players place is_bot diff
unfolding add_game_player_auto_position
add_game_player-Added db db' game user max_players place is_bot diff h =
    elim (Option-cases (find_player user (db.players_of game))) [
      | inr (p, e) ↦ absurd (ground arith)
      | inl e ↦ elim (Bool-cases (max_players == 0)) [
        | inl z ↦ absurd (ground arith)
        | inr z ↦ elim (Bool-cases (ltb (max_players - 1) (next_position (db.players_of game)))) [
          | inl l ↦ absurd (ground arith)
          | inr l ↦
              let same = ok_injective (rw (z, add_game_player_auto_position, l, e) at h) in
              let place_is : next_position (db.players_of game) ≡ place =
                ap (λ (r : Db × ℕ). r.1) same in
              record {
                is_new = e;
                next = sym place_is;
                room = ground arith;
                inserted =
                    sym (ap (λ (r : Db × ℕ). r.0) same)
                    ∙ ap (λ n. insert_player db game (new_player user n is_bot diff)) place_is;
              }
        ]
      ]
    ]

pub add_game_player-Seating :
    (db db' : Db) (game lobby user max_players place : ℕ) (is_bot : Bool)
    (diff : Option BotDifficulty)
    → Seating db
    → lobby_of db game ≡ some lobby
    → size_of db lobby ≡ some max_players
    → add_game_player_auto_position db game user max_players is_bot diff ≡ ok (db', place)
    → Seating db'
add_game_player-Seating db db' game lobby user max_players place is_bot diff h home size e =
    let a = add_game_player-Added db db' game user max_players place is_bot diff e in
    let place_is : place ≡ length (db.players_of game) =
      a.next ∙ next_position-length (db.players_of game) (h.seated game) in
    subst (λ d. Seating d) (sym a.inserted)
      (insert_player-Seating db game lobby max_players (new_player user place is_bot diff) h home
        size place_is (omega (arith, a.room, place_is)))

-- All that the persisting of a hand may have written.
abbrev pub Wrote : Db → ℕ → ℕ → Seen → Type 0
Wrote db game user seen =
    (seen.db ≡ db)
    ⊎ ((hand : List Card) × (seen.db ≡ update_player_hand_if_empty db game user hand))

module _ (db : Db) (game user place : ℕ) (strict : Bool) where
  persist_hand_of-Wrote :
      (s : State) (ver : ℕ) (seen : Seen)
      → persist_hand_of db game user place strict s ver ≡ ok seen
      → Wrote db game user seen
  unfolding persist_hand_of
  persist_hand_of-Wrote s ver seen e = elim (Option-cases (get_elem? s.hands place)) [
    | inr (hand, found) ↦
        inr (hand, ap (λ (x : Seen). x.db) (sym (ok_injective (rw (found, persist_hand_of) at e))))
    | inl missing ↦ elim (Bool-cases strict) [
      | inl s ↦ absurd (ground arith)
      | inr s ↦
          inl (ap (λ (x : Seen). x.db) (sym (ok_injective (rw (missing, persist_hand_of, s) at e))))
    ]
  ]

  persist_hand_from-Wrote :
      (column : Column State) (ver : ℕ) (seen : Seen)
      → persist_hand_from db game user place strict (column, ver) ≡ ok seen
      → Wrote db game user seen
  unfolding persist_hand_from
  persist_hand_from-Wrote blank ver seen e = inl (ap (λ (x : Seen). x.db) (sym (ok_injective e)))
  persist_hand_from-Wrote undecodable ver seen e = absurd (cc)
  persist_hand_from-Wrote (stored s) ver seen e = persist_hand_of-Wrote s ver seen e

  pub persist_hand-Wrote :
      (seen : Seen) → persist_hand db game user place strict ≡ ok seen → Wrote db game user seen
  unfolding persist_hand
  persist_hand-Wrote seen e =
      let ((column, ver), read, rest) =
        >>=-eq-ok (get_game_state db game) (persist_hand_from db game user place strict) e in
      persist_hand_from-Wrote column ver seen rest

  pub persist_hand-Seating :
      (seen : Seen)
      → Seating db
      → persist_hand db game user place strict ≡ ok seen
      → Seating seen.db
  persist_hand-Seating seen h e = elim (persist_hand-Wrote seen e) [
    | inl same ↦ rw same h
    | inr (hand, same) ↦ rw same (update_player_hand_if_empty-Seating db game user hand h)
  ]
