-- ===== src/Moves/Waiting.antt =====
-- NextHandHandler of internal/handlers/game.go: sequences of requests for the next hand.
use fifteen_thirty_one_go.Shared.{
  Bool-cases, List, Option-cases, Outcome, [], ap, arith, err, false, get_or, get_or-set_other, inl,
  inr, leb, length, none, not, ok, refl, replicate, set, some, subst, suc, sym, zero, ℕ, ◌+◌, ◌<◌,
  ◌==◌, ◌∙◌, ◌∷◌, ◌≡◌, ◌≢◌,
}
use fifteen_thirty_one_go.Engine.State.{State, counting, players, stage_eq_iff}
use fifteen_thirty_one_go.Moves.Ready.{
  all_ready, commit_ready, fresh_ready, next_hand, next_hand_from, next_hand_in, persist_ready,
  ready_bots, toggled,
}
use fifteen_thirty_one_go.Moves.World.{World, ensure_running}
use fifteen_thirty_one_go.Store.Games.{
  ApiError, Db, GamePlayer, GameRow, marshal_state, not_a_player, update, update_game_state_cas,
}
use fifteen_thirty_one_go.Store.Players.{find_player}
use fifteen_thirty_one_go.Views.{clone_state_deep}

-- Two people play: their rows are in the order of their positions.
pub record IsTwoPeople (w : World) (game : ℕ) (a b : GamePlayer) : Type 0 where
  pub rows : w.db.players_of game ≡ a ∷ b ∷ []
  pub first : a.position ≡ 0
  pub second : b.position ≡ 1
  pub human_a : a.is_bot ≡ false
  pub human_b : b.is_bot ≡ false

-- The hand has been counted and nobody is ready; memory and store have the same version.
pub record IsWaiting (w : World) (game : ℕ) : Type 0 where
  pub state : State
  pub row : GameRow
  pub in_memory : w.runtime game ≡ some state
  pub in_store : w.db.games game ≡ some row
  pub same_version : row.state_version ≡ state.version
  pub two_players : players state ≡ 2
  pub in_counting : state.stage ≡ counting
  pub nobody : (i : ℕ) → get_or state.ready_next_hand i false ≡ false

get_or-replicate : (n i : ℕ) → get_or (replicate n false) i false ≡ false
get_or-replicate zero i = refl
get_or-replicate (suc n) zero = refl
get_or-replicate (suc n) (suc i) = get_or-replicate n i

-- Where nobody is ready nobody is in the list that a request begins with.
fresh_ready_nobody :
    (s : State) (i : ℕ)
    → ((j : ℕ) → get_or s.ready_next_hand j false ≡ false)
    → get_or (fresh_ready s) i false ≡ false
unfolding fresh_ready
fresh_ready_nobody s i h = elim (Bool-cases (length s.ready_next_hand == players s)) [
  | inl e ↦ rw e (h i)
  | inr e ↦ rw e (get_or-replicate (players s) i)
]

-- With one of two people ready the game is not dealt.
not_all_ready :
    (s : State) (a b : GamePlayer) (w : World) (game p : ℕ)
    → IsTwoPeople w game a b
    → players s ≡ 2
    → ((i : ℕ) → get_or s.ready_next_hand i false ≡ false)
    → p < 2
    → all_ready (players s) (a ∷ b ∷ []) (toggled s p (a ∷ b ∷ [])) ≡ false
unfolding all_ready toggled ready_bots
not_all_ready s a b w game p t e h k = elim (Bool-cases (p == 0)) [
  | inl first ↦
      let other = still 1 (λ x. absurd (ground arith)) in
      ground (arith, t.human_a, t.human_b, t.first, t.second, other)
  | inr second ↦
      let other = still 0 (λ x. absurd (ground arith)) in
      ground (arith, t.human_a, t.human_b, t.first, t.second, other)
]
  where
    still : (i : ℕ) → p ≢ i → get_or (toggled s p (a ∷ b ∷ [])) i false ≡ false
    still i other =
        let ready = fresh_ready s in
        let mine = not (get_or ready p false) in
        let same : toggled s p (a ∷ b ∷ []) ≡ set ready p mine =
          ground (arith, t.human_a, t.human_b) in
        ap (λ xs. get_or xs i false) same
        ∙ get_or-set_other ready p i mine false other
        ∙ fresh_ready_nobody s i h

cas_waiting :
    (db : Db) (game expected : ℕ) (s : State) (row : GameRow)
    → db.games game ≡ some row
    → row.state_version ≡ expected
    → (db' : Db) × (row' : GameRow) × (update_game_state_cas db game expected s ≡ ok db')
      × (db'.players_of ≡ db.players_of)
      × (db'.games game ≡ some row')
      × (row'.state_version ≡ expected + 1)
unfolding update_game_state_cas
cas_waiting db game expected s row h e =
    let written : GameRow = record row {
      state_json = marshal_state s;
      state_version = row.state_version + 1;
    } in
    (
      record db { games = update db.games game (some written) },
      written,
      ground arith,
      refl,
      ground arith,
      ground arith,
    )

-- The two people are still there, and still wait.
Waits : (a b : GamePlayer) (game : ℕ) (w : World) → Type 0
Waits a b game w = IsTwoPeople w game a b × IsWaiting w game

next_hand_from-Waits :
    (w : World) (game p : ℕ) (a b : GamePlayer) (draws : List ℕ)
    → (t : IsTwoPeople w game a b) → (q : IsWaiting w game) → p < 2
    → Waits a b game (next_hand_from w game p (a ∷ b ∷ []) draws q.state).0
unfolding Waits next_hand_from persist_ready commit_ready clone_state_deep
next_hand_from-Waits w game p a b draws t q h =
    let s = q.state in
    let marked : State = record s { ready_next_hand = toggled s p (a ∷ b ∷ []) } in
    let working = clone_state_deep marked in
    let (db', row', e, same, found, ver) =
      cas_waiting w.db game s.version working q.row q.in_store q.same_version in
    let waiting = not_all_ready s a b w game p t q.two_players q.nobody h in
    let saved : persist_ready w.db game (a ∷ b ∷ []) draws
          (all_ready (players s) (a ∷ b ∷ []) marked.ready_next_hand) working
        ≡ ok (db', working) =
      rw waiting (rw (e, persist_ready) refl) in
    let here : World = record w { runtime = update w.runtime game (some marked) } in
    let w' : World = record {
      db = db';
      runtime = update here.runtime game (some (record working { version = s.version + 1 }));
    } in
    let committed : commit_ready here game s.version (ok (db', working)) ≡ (w', ok tt) =
      ground arith in
    let c1 = (stage_eq_iff s.stage counting).1 q.in_counting in
    let c2 : leb (players s) p ≡ false = ground (arith, q.two_players) in
    let passed : next_hand_from w game p (a ∷ b ∷ []) draws s
        ≡ commit_ready here game s.version (
            persist_ready w.db game (a ∷ b ∷ []) draws
              (all_ready (players s) (a ∷ b ∷ []) marked.ready_next_hand) working) =
      rw (c1, c2) refl in
    subst (λ (r : World × Outcome ApiError (Unit {0})). Waits a b game r.0)
      (sym (passed ∙ ap (commit_ready here game s.version) saved ∙ committed))
      (
        record {
          rows = ap (λ (f : ℕ → List GamePlayer). f game) same ∙ t.rows;
          first = t.first;
          second = t.second;
          human_a = t.human_a;
          human_b = t.human_b;
        },
        record {
          state = record working { version = s.version + 1 };
          row = row';
          in_memory = ground arith;
          in_store = found;
          same_version = ver;
          two_players = q.two_players;
          in_counting = q.in_counting;
          nobody = λ i. refl;
        },
      )

find_two_people :
    (w : World) (game user : ℕ) (a b p : GamePlayer)
    → IsTwoPeople w game a b
    → find_player user (a ∷ b ∷ []) ≡ some p
    → p.position < 2
unfolding find_player
find_two_people w game user a b p t h = ground (arith, t.first, t.second)

next_hand_found :
    (w : World) (game user : ℕ) (draws : List ℕ) (p : GamePlayer) (s : State)
    → find_player user (w.db.players_of game) ≡ some p
    → w.runtime game ≡ some s
    → next_hand w game user draws ≡ next_hand_from w game p.position (w.db.players_of game) draws s
unfolding next_hand next_hand_in
next_hand_found w game user draws p s e h =
    rw (e, next_hand) (rw (ensure_running w game (w.db.players_of game) draws h) refl)

next_hand_not_found :
    (w : World) (game user : ℕ) (draws : List ℕ)
    → find_player user (w.db.players_of game) ≡ none
    → next_hand w game user draws ≡ (w, err not_a_player)
unfolding next_hand
next_hand_not_found w game user draws e = rw (e, next_hand) refl

next_hand-Waits :
    (w : World) (game user : ℕ) (a b : GamePlayer) (draws : List ℕ)
    → Waits a b game w
    → Waits a b game (next_hand w game user draws).0
unfolding Waits
next_hand-Waits w game user a b draws (t, q) = elim (Option-cases (find_player user (a ∷ b ∷ []))) [
  | inl e ↦
      subst (λ (r : World × Outcome ApiError (Unit {0})). Waits a b game r.0)
        (sym (next_hand_not_found w game user draws (ap (find_player user) t.rows ∙ e))) (t, q)
  | inr (p, e) ↦
      let found =
        next_hand_found w game user draws p q.state (ap (find_player user) t.rows ∙ e)
          q.in_memory in
      let moved =
        found
        ∙ ap (λ (rows : List GamePlayer). next_hand_from w game p.position rows draws q.state)
            t.rows in
      subst (λ (r : World × Outcome ApiError (Unit {0})). Waits a b game r.0) (sym moved)
        (next_hand_from-Waits w game p.position a b draws t q
          (find_two_people w game user a b p t e))
]

-- Requests one after the other, each with its user and with the draws of its deal.
abbrev pub next_hands : World → ℕ → List (ℕ × List ℕ) → World
next_hands w game [] = w
next_hands w game ((user, draws) ∷ requests) =
    next_hands (next_hand w game user draws).0 game requests

next_hands-Waits :
    (w : World) (game : ℕ) (a b : GamePlayer) (requests : List (ℕ × List ℕ))
    → Waits a b game w
    → Waits a b game (next_hands w game requests)
next_hands-Waits w game a b [] h = h
next_hands-Waits w game a b ((user, draws) ∷ requests) h =
    next_hands-Waits (next_hand w game user draws).0 game a b requests
      (next_hand-Waits w game user a b draws h)

-- Two people who play each other are not dealt a next hand by requests that come one after the other, each
-- handled to its end before the next begins, whoever makes them and in whatever order: from a counted
-- hand with nobody ready the game in memory is still in the count with nobody ready.
pub next_hands_never_deal :
    (w : World) (game : ℕ) (a b : GamePlayer) (requests : List (ℕ × List ℕ))
    → IsTwoPeople w game a b
    → IsWaiting w game
    → IsWaiting (next_hands w game requests) game
unfolding Waits
next_hands_never_deal w game a b requests t q = (next_hands-Waits w game a b requests (t, q)).1
