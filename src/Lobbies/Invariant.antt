-- ===== src/Lobbies/Invariant.antt =====
-- Every request to a lobby keeps the seating, whatever others do between the commit and the alignment
-- of the state in memory that keeps it too.
use fifteen_thirty_one_go.Shared.{
  >>=-eq-ok, List, Option, Option-cases, Outcome, ap, arith, err, false, inl, inr, none, ok,
  ok_injective, panic, refl, some, subst, sym, true, ℕ, ◌>>=◌, ◌∙◌, ◌≡◌,
}
use fifteen_thirty_one_go.Cards.{Card}
use fifteen_thirty_one_go.Engine.State.{State, players}
use fifteen_thirty_one_go.Lobbies.Capacity.{
  add_game_player-Seating, latest_game-lobby_of, persist_hand-Seating,
}
use fifteen_thirty_one_go.Lobbies.Entering.{join_anew-Entering}
use fifteen_thirty_one_go.Lobbies.Join.{Entered, enter, enter_end, handle_join, join_anew, rejoin}
use fifteen_thirty_one_go.Lobbies.Sync.{
  Seen, align, aligned, install_missing, persist_hand, reload_state, sync_runtime_state,
}
use fifteen_thirty_one_go.Moves.World.{World}
use fifteen_thirty_one_go.Store.Games.{ApiError, Column, Db, GamePlayer, blank, stored, undecodable}
use fifteen_thirty_one_go.Store.Players.{find_player}
use fifteen_thirty_one_go.Store.Seated.{join_lobby-Seating}
use fifteen_thirty_one_go.Store.Seating.{Seating, lobby_of}
use fifteen_thirty_one_go.Store.Seats.{get_lobby_by_id, latest_game}

-- The alignment writes to memory only.
reload_state-db :
    (w : World) (game ver : ℕ) (c : Column State) → (reload_state w game ver c).0.db ≡ w.db
unfolding reload_state
reload_state-db w game ver blank = refl
reload_state-db w game ver undecodable = refl
reload_state-db w game ver (stored s) = refl

install_missing-db :
    (w : World) (game ver : ℕ) (c : Column State) → (install_missing w game ver c).0.db ≡ w.db
unfolding install_missing
install_missing-db w game ver blank = refl
install_missing-db w game ver undecodable = refl
install_missing-db w game ver (stored s) = refl

align-db :
    (w : World) (game place ver : ℕ) (c : Column State) (hand : Option (List Card))
    → (align w game place ver c hand).0.db ≡ w.db
unfolding align
align-db w game place ver c hand = elim (Option-cases (w.runtime game)) [
  | inl e ↦ rw (e, align) (install_missing-db w game ver c)
  | inr (s, e) ↦ elim (Option-cases hand) [
    | inl n ↦ rw (e, align, n) refl
    | inr (cards, n) ↦ rw (e, align, n) refl
  ]
]

pub sync_runtime_state-db :
    (w : World) (game place ver : ℕ) (c : Column State) (hand : Column (List Card))
    → (sync_runtime_state w game place ver c hand).0.db ≡ w.db
unfolding sync_runtime_state
sync_runtime_state-db w game place ver blank hand = refl
sync_runtime_state-db w game place ver undecodable blank =
    align-db w game place ver undecodable none
sync_runtime_state-db w game place ver undecodable undecodable =
    reload_state-db w game ver undecodable
sync_runtime_state-db w game place ver undecodable (stored cards) =
    align-db w game place ver undecodable (some cards)
sync_runtime_state-db w game place ver (stored s) blank = align-db w game place ver (stored s) none
sync_runtime_state-db w game place ver (stored s) undecodable =
    reload_state-db w game ver (stored s)
sync_runtime_state-db w game place ver (stored s) (stored cards) =
    align-db w game place ver (stored s) (some cards)

-- What other requests may do: anything that keeps the seating.
abbrev pub Keeps : (World → World) → Type 0
Keeps others = (v : World) → Seating v.db → Seating (others v).db

pub aligned-Seating :
    (w : World) (others : World → World) (game place : ℕ) (seen : Seen)
    → Keeps others
    → Seating seen.db
    → Seating (aligned w others game place seen).0.db
unfolding aligned
aligned-Seating w others game place seen keep h =
    subst (λ d. Seating d)
      (sym (
        sync_runtime_state-db (others (record w { db = seen.db })) game place seen.state_version
          seen.state_json seen.hand_json))
      (keep (record w { db = seen.db }) h)

rejoin-Seating :
    (db : Db) (lobby game user : ℕ) (p : GamePlayer) (e : Entered)
    → Seating db
    → rejoin db lobby game user p ≡ ok e
    → Seating e.seen.db
unfolding rejoin
rejoin-Seating db lobby game user p e h done =
    let (l, found, rest) =
      >>=-eq-ok (get_lobby_by_id db lobby)
        (λ l. do
          seen ← persist_hand db game user p.position false
          ok (record { row = l; place = p.position; already = true; seen = seen }))
        done in
    let (seen, persisted, last) =
      >>=-eq-ok (persist_hand db game user p.position false)
        (λ seen. ok (record { row = l; place = p.position; already = true; seen = seen })) rest in
    subst (λ (x : Entered). Seating x.seen.db) (ok_injective last)
      (persist_hand-Seating db game user p.position false seen h persisted)

join_anew-Seating :
    (db : Db) (lobby game user : ℕ) (e : Entered)
    → Seating db
    → lobby_of db game ≡ some lobby
    → join_anew db lobby game user ≡ ok e
    → Seating e.seen.db
join_anew-Seating db lobby game user e h home done =
    let x = join_anew-Entering db lobby game user e done in
    let (h1, same_lobbies, size, players) =
      join_lobby-Seating db x.counted lobby e.row h x.joined in
    let h2 =
      add_game_player-Seating x.counted x.seated game lobby user e.row.max_players e.place false
        none h1 (ap (λ f. f game) same_lobbies ∙ home) size x.added in
    persist_hand-Seating x.seated game user e.place true e.seen h2 x.persisted

pub enter-Seating :
    (db : Db) (lobby user : ℕ) (e : Entered)
    → Seating db
    → enter db lobby user ≡ ok e
    → Seating e.seen.db
unfolding enter
enter-Seating db lobby user e h done = elim (Option-cases (latest_game db lobby)) [
  | inl none_there ↦ absurd (ground arith)
  | inr (game, g) ↦ elim (Option-cases (find_player user (db.players_of game))) [
    | inr (p, f) ↦ rejoin-Seating db lobby game user p e h (rw (g, enter, f) at done)
    | inl f ↦
        join_anew-Seating db lobby game user e h (latest_game-lobby_of db lobby game g)
          (rw (g, enter, f) at done)
  ]
]

enter_end-Seating :
    (w : World) (others : World → World) (game : ℕ) (r : Outcome ApiError Entered)
    → Keeps others
    → Seating w.db
    → ((e : Entered) → r ≡ ok e → Seating e.seen.db)
    → Seating (enter_end w others game r).0.db
unfolding enter_end
enter_end-Seating w others game (ok e) keep h seated =
    aligned-Seating w others game e.place e.seen keep (seated e refl)
enter_end-Seating w others game (err x) keep h seated = h
enter_end-Seating w others game panic keep h seated = h

-- A join, new or repeated, keeps the positions of every game without gaps, and no game gets more
-- players than its lobby has places.
pub handle_join-Seating :
    (w : World) (others : World → World) (lobby user : ℕ)
    → Keeps others
    → Seating w.db
    → Seating (handle_join w others lobby user).0.db
unfolding handle_join
handle_join-Seating w others lobby user keep h = elim (Option-cases (latest_game w.db lobby)) [
  | inl e ↦ rw (e, handle_join) h
  | inr (game, e) ↦
      rw (e, handle_join)
        (enter_end-Seating w others game (enter w.db lobby user) keep h
          (λ x done. enter-Seating w.db lobby user x h done))
]
