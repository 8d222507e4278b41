-- ===== src/Lobbies/Again.antt =====
-- Joining a lobby a second time: the player is found, nothing is counted again.
use mathlib.Core.Option.{some-injective}
use fifteen_thirty_one_go.Shared.{
  >>=-eq-ok, Bool, Bool-cases, List, [], ap, arith, false, inl, inr, ok, ok_injective, refl, some,
  subst, sym, true, ℕ, ◌&&◌, ◌==◌, ◌>>=◌, ◌∙◌, ◌∷◌, ◌≡◌,
}
use fifteen_thirty_one_go.Cards.{Card}
use fifteen_thirty_one_go.Lobbies.Capacity.{persist_hand-Wrote}
use fifteen_thirty_one_go.Lobbies.Join.{Entered, rejoin}
use fifteen_thirty_one_go.Lobbies.Rows.{update_self}
use fifteen_thirty_one_go.Lobbies.Sync.{Seen, persist_hand}
use fifteen_thirty_one_go.Store.Games.{Db, GamePlayer, stored}
use fifteen_thirty_one_go.Store.Players.{
  find_player, is_empty_hand, update_player_hand_if_empty, write_empty_hand,
}
use fifteen_thirty_one_go.Store.Seats.{get_lobby_by_id, latest_game}

-- A hand that is written leaves the user and the position of every row.
find_player-written :
    (user who : ℕ) (hand : List Card) (ps : List GamePlayer) (p : GamePlayer)
    → find_player user ps ≡ some p
    → (q : GamePlayer) × (find_player user (write_empty_hand who hand ps) ≡ some q)
      × (q.position ≡ p.position)
unfolding find_player write_empty_hand
find_player-written user who hand [] p h = absurd (ground arith)
find_player-written user who hand (r ∷ ps) p h = elim (Bool-cases (r.user_id == user)) [
  | inl mine ↦
      let same : r ≡ p = some-injective r p (rw (mine, find_player) at h) in
      elim (Bool-cases (r.user_id == who && is_empty_hand r.hand)) [
        | inl w ↦ (
          record r { hand = stored hand },
          rw (w, write_empty_hand, mine, find_player) refl,
          ap (λ (x : GamePlayer). x.position) same,
        )
        | inr w ↦ (
          r,
          rw (w, write_empty_hand, mine, find_player) refl,
          ap (λ (x : GamePlayer). x.position) same,
        )
      ]
  | inr other ↦
      let (q, found, place) =
        find_player-written user who hand ps p (rw (other, find_player) at h) in
      elim (Bool-cases (r.user_id == who && is_empty_hand r.hand)) [
        | inl w ↦ (q, rw (w, write_empty_hand, other, find_player) found, place)
        | inr w ↦ (q, rw (w, write_empty_hand, other, find_player) found, place)
      ]
]

-- The user has a place in the game, the games and lobbies are the same.
pub record Present (db db' : Db) (game user place : ℕ) : Type 0 where
  pub player : GamePlayer
  pub found : find_player user (db'.players_of game) ≡ some player
  pub at_place : player.position ≡ place
  pub same_games : db'.games ≡ db.games
  pub same_last : db'.last_game ≡ db.last_game
  pub same_lobbies : db'.lobbies ≡ db.lobbies

persist_hand-Present :
    (db : Db) (game user place : ℕ) (strict : Bool) (p : GamePlayer) (seen : Seen)
    → find_player user (db.players_of game) ≡ some p
    → persist_hand db game user place strict ≡ ok seen
    → Present db seen.db game user p.position
unfolding update_player_hand_if_empty
persist_hand-Present db game user place strict p seen found e =
    elim (persist_hand-Wrote db game user place strict seen e) [
      | inl same ↦
          subst (λ d. Present db d game user p.position) (sym same)
            (record {
              player = p;
              found = found;
              at_place = refl;
              same_games = refl;
              same_last = refl;
              same_lobbies = refl;
            })
      | inr (hand, same) ↦
          let (q, there, at_place) =
            find_player-written user user hand (db.players_of game) p found in
          subst (λ d. Present db d game user p.position) (sym same)
            (record {
              player = q;
              found =
                  ap (find_player user) (
                    update_self db.players_of game
                      (write_empty_hand user hand (db.players_of game)))
                  ∙ there;
              at_place = at_place;
              same_games = refl;
              same_last = refl;
              same_lobbies = refl;
            })
    ]

-- A repeated join finds the player, and writes a hand at most.
pub rejoin-Present :
    (db : Db) (lobby game user : ℕ) (p : GamePlayer) (e : Entered)
    → find_player user (db.players_of game) ≡ some p
    → rejoin db lobby game user p ≡ ok e
    → (e.already ≡ true) × (e.place ≡ p.position) × Present db e.seen.db game user p.position
unfolding rejoin
rejoin-Present db lobby game user p e found done =
    let (l, got, rest) =
      >>=-eq-ok (get_lobby_by_id db lobby)
        (λ l. do
          seen ← persist_hand db game user p.position false
          ok (record { row = l; place = p.position; already = true; seen = seen }))
        done in
    let (seen, persisted, last) =
      >>=-eq-ok (persist_hand db game user p.position false)
        (λ seen. ok (record { row = l; place = p.position; already = true; seen = seen })) rest in
    subst
      (λ (x : Entered).
        (x.already ≡ true) × (x.place ≡ p.position) × Present db x.seen.db game user p.position)
      (ok_injective last)
      (refl, refl, persist_hand-Present db game user p.position false p seen found persisted)

-- After a join, new or repeated: the player stands in the game at the place of the answer, and the
-- latest game of the lobby is the same one.
pub record Seated (db db' : Db) (lobby game user place : ℕ) : Type 0 where
  pub player : GamePlayer
  pub found : find_player user (db'.players_of game) ≡ some player
  pub at_place : player.position ≡ place
  pub same_latest : latest_game db' lobby ≡ latest_game db lobby
