-- ===== src/Moves/Ready.antt =====
-- NextHandHandler of internal/handlers/game.go: the players say that they are ready, and the last one
-- has the next hand dealt. The user is known and the game's id is valid; a failing database is left
-- out.
use fifteen_thirty_one_go.Shared.{
  Bool, List, Outcome, [], err, false, get_or, if◌then◌else◌, leb, length, ltb, none, not, ok,
  panic, replicate, set, some, true, ℕ, ◌%◌, ◌&&◌, ◌+◌, ◌==◌, ◌>>=◌, ◌||◌, ◌∷◌,
}
use fifteen_thirty_one_go.Engine.Dealing.{deal}
use fifteen_thirty_one_go.Engine.State.{State, counting, players, stage_eq}
use fifteen_thirty_one_go.Moves.Apply.{persist_hands}
use fifteen_thirty_one_go.Moves.World.{World, ensure_game_state}
use fifteen_thirty_one_go.Store.Games.{
  ApiError, Db, GamePlayer, deal_failed, not_a_player, not_in_counting_stage, not_ready, update,
  update_game_state_cas,
}
use fifteen_thirty_one_go.Store.Players.{find_player, list_game_players}
use fifteen_thirty_one_go.Views.{clone_state_deep}

-- `make([]bool, n)` where the list does not have the length.
unfoldable pub fresh_ready : State → List Bool
fresh_ready s =
    if length s.ready_next_hand == players s then s.ready_next_hand else replicate (players s) false

-- Bots are ready.
unfoldable pub ready_bots : ℕ → List GamePlayer → List Bool → List Bool
ready_bots n [] ready = ready
ready_bots n (p ∷ rows) ready =
    ready_bots n rows (if p.is_bot && ltb p.position n then set ready p.position true else ready)

-- The readiness after the request of the player at a position.
unfoldable pub toggled : State → ℕ → List GamePlayer → List Bool
unfolding fresh_ready ready_bots
toggled s place rows =
    let ready = fresh_ready s in
    ready_bots (players s) rows (set ready place (not (get_or ready place false)))

unfoldable pub all_ready : ℕ → List GamePlayer → List Bool → Bool
all_ready n [] ready = true
all_ready n (p ∷ rows) ready =
    let rest = all_ready n rows ready in
    if p.is_bot
    then rest
    else if leb n p.position || not (get_or ready p.position false)
    then false
    else rest

-- The dealer moves on and the next hand is dealt.
unfoldable pub deal_next : List ℕ → State → Outcome ApiError State
deal_next draws s =
    let r = deal draws (record s { dealer_index = (s.dealer_index + 1) % players s }) in
    elim r.1 [ ok _ ↦ ok r.0 | err e ↦ err deal_failed | panic ↦ panic ]

-- The transaction, with the state that it stores.
unfoldable pub persist_ready :
    Db → ℕ → List GamePlayer → List ℕ → Bool → State → Outcome ApiError (Db × State)
unfolding deal_next
persist_ready db game rows draws true working = do
  dealt ← deal_next draws working
  db' ← persist_hands db game dealt.hands rows
  db'' ← update_game_state_cas db' game working.version dealt
  ok (db'', dealt)
persist_ready db game rows draws false working = do
  db' ← update_game_state_cas db game working.version working
  ok (db', working)

-- The state in memory after the commit, or the world as it is where the transaction fails.
unfoldable pub commit_ready :
    World → ℕ → ℕ → Outcome ApiError (Db × State) → World × Outcome ApiError (Unit {0})
commit_ready w game base (ok (db, working)) = elim (w.runtime game) [
  | none ↦ (record w { db = db }, ok tt)
  | some st ↦ (
    record {
      db = db;
      runtime = update w.runtime game (some (record working { version = base + 1 }));
    },
    ok tt,
  )
]
commit_ready w game base (err e) = (w, err e)
commit_ready w game base panic = (w, panic)

-- From the state in memory on. The readiness is written to it before the transaction begins.
unfoldable pub next_hand_from :
    World → ℕ → ℕ → List GamePlayer → List ℕ → State → World × Outcome ApiError (Unit {0})
unfolding toggled all_ready persist_ready commit_ready
next_hand_from w game place rows draws s =
    if not (stage_eq s.stage counting)
    then (w, err not_in_counting_stage)
    else if leb (players s) place
    then (w, err not_a_player)
    else let marked = record s { ready_next_hand = toggled s place rows } in
      let working = clone_state_deep marked in
      commit_ready (record w { runtime = update w.runtime game (some marked) }) game s.version
        (persist_ready w.db game rows draws (all_ready (players s) rows marked.ready_next_hand)
          working)

unfoldable pub next_hand_in :
    ℕ
    → ℕ
    → List GamePlayer
    → List ℕ
    → World × Outcome ApiError State
    → World × Outcome ApiError (Unit {0})
unfolding next_hand_from
next_hand_in game place rows draws (w, ok s) = next_hand_from w game place rows draws s
next_hand_in game place rows draws (w, err e) = (w, err not_ready)
next_hand_in game place rows draws (w, panic) = (w, panic)

unfoldable pub next_hand : World → ℕ → ℕ → List ℕ → World × Outcome ApiError (Unit {0})
unfolding next_hand_in
next_hand w game user draws =
    let rows = list_game_players w.db game in
    elim (find_player user rows) [
      | none ↦ (w, err not_a_player)
      | some p ↦ next_hand_in game p.position rows draws (ensure_game_state w game rows draws)
    ]
