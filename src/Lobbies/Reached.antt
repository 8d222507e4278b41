-- ===== src/Lobbies/Reached.antt =====
-- Requests to lobbies as two steps, the transaction and the later alignment of the state in memory, in
-- any interleaving: what holds of every database that they reach.
use fifteen_thirty_one_go.Shared.{
  >>=-eq-ok, List, Option, Outcome, [], ap, arith, err, get_or, none, ok, ok_injective, panic, pos,
  refl, some, subst, suc, sym, ℕ, ◌++◌, ◌<◌, ◌>>=◌, ◌∷◌, ◌≡◌,
}
use fifteen_thirty_one_go.Bot.{before}
use fifteen_thirty_one_go.Cards.Text.{Text}
use fifteen_thirty_one_go.Engine.Dealing.{deal}
use fifteen_thirty_one_go.Engine.State.{Done, State, new_state}
use fifteen_thirty_one_go.Lobbies.AddBot.{Placed, bot_in}
use fifteen_thirty_one_go.Lobbies.Bots.{bot_in-Seating}
use fifteen_thirty_one_go.Lobbies.Create.{
  CreateAnswer, CreateRequest, create_answer, create_checked, create_lobby, create_with,
  insert_rows, persist_first_deal, settle, valid_name, valid_size,
}
use fifteen_thirty_one_go.Lobbies.Created.{positive_size}
use fifteen_thirty_one_go.Lobbies.Housed.{insert_rows-Seating}
use fifteen_thirty_one_go.Lobbies.Invariant.{Keeps, enter-Seating, sync_runtime_state-db}
use fifteen_thirty_one_go.Lobbies.Join.{Entered, enter}
use fifteen_thirty_one_go.Lobbies.Sync.{Seen, sync_runtime_state}
use fifteen_thirty_one_go.Moves.World.{World}
use fifteen_thirty_one_go.Store.Games.{ApiError, BotDifficulty, Db, update, update_game_state}
use fifteen_thirty_one_go.Store.Players.{update_player_hand_if_empty}
use fifteen_thirty_one_go.Store.Seated.{
  update_game_state-Seating, update_player_hand_if_empty-Seating,
}
use fifteen_thirty_one_go.Store.Seating.{Seating}
use fifteen_thirty_one_go.Store.Seats.{get_game_by_id, get_lobby_by_id, latest_game}

-- An alignment that is still to run.
pub record Pending : Type 0 where
  pub game : ℕ
  pub place : ℕ
  pub seen : Seen

pub record System : Type 0 where
  pub world : World
  pub pending : List Pending

abbrev pub commit : System → ℕ → ℕ → Seen → System
commit s game place seen = record {
  world = record s.world { db = seen.db };
  pending = record { game = game; place = place; seen = seen } ∷ s.pending;
}

abbrev pub run_alignment : World → Pending → World
run_alignment w p =
    (sync_runtime_state w p.game p.place p.seen.state_version p.seen.state_json p.seen.hand_json).0

-- The last constructor is any other request: what it does to the database keeps the seating.
pub data Step (s : System) : System → Type 0 where
  create_step :
      (host : ℕ) (req : CreateRequest) (draws : List ℕ)
      → Step s (record s { world = (create_lobby s.world host req draws).0 })
  join_step :
      (lobby user game : ℕ) (e : Entered)
      → latest_game s.world.db lobby ≡ some game
      → enter s.world.db lobby user ≡ ok e
      → Step s (commit s game e.place e.seen)
  bot_step :
      (lobby user : ℕ) (diff : BotDifficulty) (suffixes : List Text) (game : ℕ) (b : Placed)
      → bot_in s.world.db lobby user diff suffixes ≡ ok (game, b)
      → Step s (commit s game b.place b.seen)
  align_step :
      (before after : List Pending) (p : Pending)
      → s.pending ≡ before ++ p ∷ after
      → Step s (record { world = run_alignment s.world p; pending = before ++ after })
  other_step : (f : World → World) → Keeps f → Step s (record s { world = f s.world })

pub data Reach (s : System) : System → Type 0 where
  reached : Reach s s
  one_more : {t u : System} → Reach s t → Step t u → Reach s u

persist_first_deal-Seating :
    (d d' : Db) (game host : ℕ) (r : State × Done) (st : State)
    → Seating d
    → persist_first_deal d game host r ≡ ok (d', st)
    → Seating d'
unfolding persist_first_deal
persist_first_deal-Seating d d' game host (s, ok _) st h e =
    let d1 = update_player_hand_if_empty d game host (get_or s.hands 0 []) in
    let (d2, stored_it, last) = >>=-eq-ok (update_game_state d1 game s) (λ d. ok (d, s)) e in
    subst (λ (x : Db × State). Seating x.0) (ok_injective last)
      (update_game_state-Seating d1 d2 game s
        (update_player_hand_if_empty-Seating d game host (get_or s.hands 0 []) h) stored_it)
persist_first_deal-Seating d d' game host (s, err x) st h e = absurd (cc)
persist_first_deal-Seating d d' game host (s, panic) st h e = absurd (cc)

create_answer-db :
    (w : World) (lobby game : ℕ) (db : Db) (st : State) (r : World × CreateAnswer)
    → create_answer w lobby game (db, st) ≡ ok r
    → r.0.db ≡ db
unfolding create_answer
create_answer-db w lobby game db st r e =
    let (l, got, rest) =
      >>=-eq-ok (get_lobby_by_id db lobby)
        (λ l. do
          g ← get_game_by_id db game
          ok (
            record { db = db; runtime = update w.runtime game (some (record st { version = 1 })) },
            record { lobby_id = lobby; lobby = l; game_id = game; game = g },
          ))
        e in
    let (g, got_g, last) =
      >>=-eq-ok (get_game_by_id db game)
        (λ g. ok (
          record { db = db; runtime = update w.runtime game (some (record st { version = 1 })) },
          record { lobby_id = lobby; lobby = l; game_id = game; game = g },
        ))
        rest in
    sym (ap (λ (x : World × CreateAnswer). x.0.db) (ok_injective last))

create_with-Seating :
    (w : World) (host : ℕ) (name : Text) (size : ℕ) (draws : List ℕ) (r : World × CreateAnswer)
    → Seating w.db
    → 0 < size
    → create_with w host name size draws ≡ ok r
    → Seating r.0.db
unfolding create_with
create_with-Seating w host name size draws r h positive e =
    let d = insert_rows w.db name host size in
    let ((d', st), stored_it, rest) =
      >>=-eq-ok (persist_first_deal d (suc w.db.last_game) host (deal draws (new_state (pos size))))
        (create_answer w (suc w.db.last_lobby) (suc w.db.last_game)) e in
    rw (create_answer-db w (suc w.db.last_lobby) (suc w.db.last_game) d' st r rest) (
      persist_first_deal-Seating d d' (suc w.db.last_game) host (deal draws (new_state (pos size)))
        st (insert_rows-Seating w.db name host size h positive) stored_it)

settle-Seating :
    (w : World) (r : Outcome ApiError (World × CreateAnswer))
    → Seating w.db
    → ((x : World × CreateAnswer) → r ≡ ok x → Seating x.0.db)
    → Seating (settle w r).0.db
unfolding settle
settle-Seating w (ok (w', a)) h seated = seated (w', a) refl
settle-Seating w (err e) h seated = h
settle-Seating w panic h seated = h

create_checked-Seating :
    (w : World) (host : ℕ) (size : Option ℕ) (name : Option Text) (draws : List ℕ)
    (r : World × CreateAnswer)
    → Seating w.db
    → ((n : ℕ) → size ≡ some n → 0 < n)
    → create_checked w host size name draws ≡ ok r
    → Seating r.0.db
unfolding create_checked
create_checked-Seating w host none name draws r h positive e = absurd (cc)
create_checked-Seating w host (some size) none draws r h positive e = absurd (cc)
create_checked-Seating w host (some size) (some name) draws r h positive e =
    create_with-Seating w host name size draws r h (positive size refl) e

create_lobby-Seating :
    (w : World) (host : ℕ) (req : CreateRequest) (draws : List ℕ)
    → Seating w.db
    → Seating (create_lobby w host req draws).0.db
unfolding create_lobby
create_lobby-Seating w host req draws h =
    settle-Seating w
      (create_checked w host (valid_size req.max_players) (valid_name req.name) draws) h
      (λ x e.
        create_checked-Seating w host (valid_size req.max_players) (valid_name req.name) draws x h
          (λ n is. let (two, four) = positive_size req.max_players n is in omega (arith, two)) e)

Step-Seating : {s t : System} → Step s t → Seating s.world.db → Seating t.world.db
Step-Seating {s} (create_step host req draws) h = create_lobby-Seating s.world host req draws h
Step-Seating {s} (join_step lobby user game e newest entered) h =
    enter-Seating s.world.db lobby user e h entered
Step-Seating {s} (bot_step lobby user diff suffixes game b placed) h =
    bot_in-Seating s.world.db lobby user suffixes diff (game, b) h placed
Step-Seating {s} (align_step before after p there) h =
    rw
      (sync_runtime_state-db s.world p.game p.place p.seen.state_version p.seen.state_json
        p.seen.hand_json)
      h
Step-Seating {s} (other_step f keep) h = keep s.world h

-- Whatever lobbies are created, joined and given bots, in any interleaving with each other, with the
-- alignments that are still to run and with other requests that keep it, the positions of every game have
-- no gaps, and no game has more players than its lobby has places.
pub Reach-Seating : {s t : System} → Reach s t → Seating s.world.db → Seating t.world.db
Reach-Seating reached h = h
Reach-Seating (one_more r st) h = Step-Seating st (Reach-Seating r h)
