-- ===== src/Moves/Sequential.antt =====
-- ApplyMove of internal/handlers/game_logic.go, for a move with no other request in between.
use fifteen_thirty_one_go.Shared.{
  >>=-eq-ok, Bool-cases, List, Option, Outcome, [], ap, arith, err, get_or, inl, inr, length-set,
  ok, panic, pos, refl, some, subst, sym, ℕ, ◌+◌, ◌∙◌, ◌≡◌,
}
use fifteen_thirty_one_go.Bot.{before}
use fifteen_thirty_one_go.Cards.{Card}
use fifteen_thirty_one_go.Cards.Text.{parse_card}
use fifteen_thirty_one_go.Engine.Discarding.{discard}
use fifteen_thirty_one_go.Engine.Invariant.{WellFormed}
use fifteen_thirty_one_go.Engine.Play.{go, play_pegging_card}
use fifteen_thirty_one_go.Engine.Stages.{
  LeavesDiscard, go-LeavesDiscard, play_pegging_card-LeavesDiscard,
}
use fifteen_thirty_one_go.Engine.State.{
  Error, State, discarding, not_in_discard_stage, pegging, stage_eq, stage_eq_iff,
}
use fifteen_thirty_one_go.Moves.Apply.{
  Computed, MoveRequest, Response, apply_move, apply_to_runtime, attempt, attempt_compute,
  attempt_persist, attempt_with, attempts_loop, check_turn, commit_move, compute_move,
  discard_request, ended, go_request, lift, other_request, parse_cards, parsed, persist_move,
  play_card_request, working_copy, write_dealt, write_hand_out,
}
use fifteen_thirty_one_go.Moves.World.{World, ensure_running}
use fifteen_thirty_one_go.Store.Games.{
  ApiError, Db, GamePlayer, GameRow, insert_move, marshal_state, stored, update,
  update_game_state_cas,
}
use fifteen_thirty_one_go.Store.Players.{find_player, update_player_hand, write_hand}
use fifteen_thirty_one_go.Views.{clone_state_deep}

-- The game is in memory, and its row has the same version.
pub record IsRunning (w : World) (game : ℕ) (st : State) (row : GameRow) : Type 0 where
  pub in_memory : w.runtime game ≡ some st
  pub in_store : w.db.games game ≡ some row
  pub same_version : row.state_version ≡ st.version

-- The user is a player of the game, at a position and with a hand.
pub record IsPlayer (w : World) (game user : ℕ) (p : GamePlayer) (hand : List Card) : Type 0 where
  pub found : find_player user (w.db.players_of game) ≡ some p
  pub holds : p.hand ≡ stored hand

abbrev pub alone : ℕ → World → World
alone k w = w

pub lift_ok : {A : Type 0} (r : State × Outcome Error A) {t : State × A} → lift r ≡ ok t → r.0 ≡ t.0
lift_ok (s, ok a) h = ground arith
lift_ok (s, err e) h = cc
lift_ok (s, panic) h = cc

working_copy-WellFormed :
    (st : State) (p : ℕ) (hand : List Card) → WellFormed st → WellFormed (working_copy st p hand)
unfolding working_copy clone_state_deep
working_copy-WellFormed st p hand w = ground (arith, length-set st.hands p hand)

stage-working_copy :
    (st : State) (p : ℕ) (hand : List Card) → (working_copy st p hand).stage ≡ st.stage
unfolding working_copy clone_state_deep
stage-working_copy st p hand = refl

discard_outside :
    (s : State) (p : ℕ) (cards : List Card)
    → s.stage ≡ pegging
    → discard s (pos p) cards ≡ (s, err not_in_discard_stage)
unfolding discard stage_eq
discard_outside s p cards h = rw h refl

-- A move that is computed in the play does not lead to the discards.
compute_move-LeavesDiscard :
    (game user : ℕ) (s : State) (p : ℕ) (req : MoveRequest) {c : Computed}
    → WellFormed s
    → s.stage ≡ pegging
    → compute_move game user s p req ≡ ok c
    → LeavesDiscard c.working.stage
unfolding compute_move
compute_move-LeavesDiscard game user s p (discard_request texts) w e h =
    let (cards, _, r) = >>=-eq-ok (parse_cards texts) _ h in
    let (t, f, _) = >>=-eq-ok (lift (discard s (pos p) cards)) _ r in
    absurd (ground (arith, ap lift (discard_outside s p cards e)))
compute_move-LeavesDiscard game user s p (play_card_request text) w e h =
    let (_, _, q) = >>=-eq-ok (check_turn s p) _ h in
    let (card, _, r) = >>=-eq-ok (parsed (parse_card text)) _ q in
    let (t, f, g) = >>=-eq-ok (lift (play_pegging_card s (pos p) card)) _ r in
    let leaves = play_pegging_card-LeavesDiscard s p card w e in
    let same = lift_ok (play_pegging_card s (pos p) card) f in
    λ d. leaves (ap (λ (x : State). x.stage) same ∙ ground (arith, g))
compute_move-LeavesDiscard game user s p go_request w e h =
    let (_, _, q) = >>=-eq-ok (check_turn s p) _ h in
    let (t, f, g) = >>=-eq-ok (lift (go s (pos p))) _ q in
    let leaves = go-LeavesDiscard s p w e in
    let same = lift_ok (go s (pos p)) f in
    λ d. leaves (ap (λ (x : State). x.stage) same ∙ ground (arith, g))
compute_move-LeavesDiscard game user s p other_request w e h = cc

write_dealt_nothing :
    (db : Db) (game : ℕ) (rows : List GamePlayer) (before working : State)
    → (before.stage ≡ pegging → LeavesDiscard working.stage)
    → write_dealt db game rows before working ≡ ok db
unfolding write_dealt
write_dealt_nothing db game rows before working h =
    ground (arith, stage_eq_iff before.stage pegging, stage_eq_iff working.stage discarding)

write_hand_out_found :
    (db : Db) (game user p : ℕ) (c : Computed) (row : GamePlayer)
    → find_player user (db.players_of game) ≡ some row
    → (db' : Db) × (write_hand_out db game user p c ≡ ok db') × (db'.games ≡ db.games)
unfolding write_hand_out update_player_hand
write_hand_out_found db game user p c row h = elim (Bool-cases c.hand_out) [
  | inl e ↦ (
    record db {
      players_of =
          update db.players_of game
            (write_hand user (get_or c.working.hands p []) (db.players_of game));
    },
    ground arith,
    refl,
  )
  | inr e ↦ (db, ground arith, refl)
]

cas_found :
    (db : Db) (game expected : ℕ) (s : State) (row : GameRow)
    → db.games game ≡ some row
    → row.state_version ≡ expected
    → (db' : Db) × (update_game_state_cas db game expected s ≡ ok db')
      × (db'.games game
          ≡ some (record row { state_json = marshal_state s; state_version = expected + 1 }))
unfolding update_game_state_cas
cas_found db game expected s row h e = (
  record db {
    games =
        update db.games game (
          some
            (record row { state_json = marshal_state s; state_version = row.state_version + 1 }));
  },
  ground arith,
  ground arith,
)

-- With the row at the version of the computed state the transaction commits.
persist_move_found :
    (db : Db) (game user p : ℕ) (rows : List GamePlayer) (before : State) (c : Computed)
    (player : GamePlayer) (row : GameRow)
    → find_player user (db.players_of game) ≡ some player
    → db.games game ≡ some row
    → row.state_version ≡ before.version
    → (before.stage ≡ pegging → LeavesDiscard c.working.stage)
    → (db' : Db) × (persist_move db game user p rows before c ≡ ok db')
      × (db'.games game
          ≡ some (record row {
            state_json = marshal_state c.working;
            state_version = before.version + 1;
          }))
unfolding persist_move
persist_move_found db game user p rows before c player row fp fr e leaves =
    let (m, em, gm) = write_hand_out_found db game user p c player fp in
    let n = insert_move m c.move in
    let gn : n.games game ≡ some row =
      unfold insert_move in (ap (λ (g : ℕ → Option GameRow). g game) gm ∙ fr) in
    let (db', ed, gd) = cas_found n game before.version c.working row gn e in
    (db', rw (em, write_dealt_nothing m game rows before c.working leaves) ed, gd)

-- What the caller of ApplyMove finds after an accepted move.
pub record Applied (w : World) (game : ℕ) (row : GameRow) (base : ℕ) (c : Computed)
    (r : World × Outcome ApiError Response) : Type 0 where
  pub answer : r.1 ≡ ok c.response
  pub memory : r.0.runtime game ≡ some (record c.working { version = base + 1 })
  pub saved :
      r.0.db.games game
      ≡ some (record row { state_json = marshal_state c.working; state_version = base + 1 })

apply_to_runtime_lem :
    (w : World) (game : ℕ) (before : State) (c : Computed) (row : GameRow)
    → w.db.games game
      ≡ some
          (record row { state_json = marshal_state c.working; state_version = before.version + 1 })
    → Applied w game row before.version c
        (apply_to_runtime game before.version c.working (w, ok before), ok c.response)
unfolding apply_to_runtime
apply_to_runtime_lem w game before c row e = record {
  answer = refl;
  memory = ground arith;
  saved = ground arith;
}

commit_move_lem :
    (w : World) (game : ℕ) (rows : List GamePlayer) (draws : List ℕ) (before : State) (c : Computed)
    (db : Db) (row : GameRow)
    → w.runtime game ≡ some before
    → db.games game
      ≡ some
          (record row { state_json = marshal_state c.working; state_version = before.version + 1 })
    → Applied w game row before.version c (commit_move w game rows draws before c db)
unfolding commit_move
commit_move_lem w game rows draws before c db row h e =
    let inner = apply_to_runtime_lem (record w { db = db }) game before c row e in
    let found = ensure_running (record w { db = db }) game rows draws h in
    subst
      (λ (x : World × Outcome ApiError State).
        Applied w game row before.version c
          (apply_to_runtime game before.version c.working x, ok c.response))
      (sym found) (record { answer = inner.answer; memory = inner.memory; saved = inner.saved })

attempt_computed :
    (w : World) (others : World → World) (game user : ℕ) (draws : List ℕ) (req : MoveRequest)
    {st : State} {p : GamePlayer} {hand : List Card}
    → w.runtime game ≡ some st
    → IsPlayer w game user p hand
    → attempt w others game user draws req
      ≡ attempt_compute others game user p.position hand (w.db.players_of game) draws req (w, ok st)
unfolding attempt attempt_with
attempt_computed w others game user draws req h q =
    rw (q.found, attempt)
      (rw (q.holds, attempt_with) (rw (ensure_running w game (w.db.players_of game) draws h) refl))

apply_move_ended :
    (w : World) (game user : ℕ) (draws : List ℕ) (req : MoveRequest)
    {r : World × Outcome ApiError Response}
    → attempt w (alone 2) game user draws req ≡ ended r
    → apply_move alone w game user draws req ≡ r
unfolding apply_move attempts_loop
apply_move_ended w game user draws req h = rw (h, attempts_loop) refl

-- A move with no other request in between, of a player of a game that is in memory in a well-formed
-- state and stored under the same version, that the engine accepts on the player's stored hand:
-- ApplyMove answers with what the engine answered, the game in memory is the computed state under the
-- next version, and the row of the game holds that state and that version.
pub apply_move-Applied :
    (w : World) (game user : ℕ) (draws : List ℕ) (req : MoveRequest) (st : State) (row : GameRow)
    (p : GamePlayer) (hand : List Card) (c : Computed)
    → IsRunning w game st row
    → IsPlayer w game user p hand
    → WellFormed st
    → compute_move game user (working_copy st p.position hand) p.position req ≡ ok c
    → Applied w game row st.version c (apply_move alone w game user draws req)
unfolding attempt_compute attempt_persist
apply_move-Applied w game user draws req st row p hand c running player wf h =
    let rows = w.db.players_of game in
    let s = working_copy st p.position hand in
    let leaves = λ (e : st.stage ≡ pegging).
      compute_move-LeavesDiscard game user s p.position req
        (working_copy-WellFormed st p.position hand wf) (stage-working_copy st p.position hand ∙ e)
        h in
    let (db, ed, gd) =
      persist_move_found w.db game user p.position rows st c p row player.found running.in_store
        running.same_version leaves in
    let step : attempt w (alone 2) game user draws req
        ≡ ended (commit_move w game rows draws st c db) =
      attempt_computed w (alone 2) game user draws req running.in_memory player
      ∙ rw (h, attempt_compute) (rw (ed, attempt_persist) refl) in
    subst (λ (x : World × Outcome ApiError Response). Applied w game row st.version c x)
      (sym (apply_move_ended w game user draws req step))
      (commit_move_lem w game rows draws st c db row running.in_memory gd)

-- A move with no other request in between, of a player of a game in memory, that the engine or the
-- parser refuses on the player's stored hand: ApplyMove returns that error, and the database and the
-- states in memory are as they were.
pub apply_move_refused :
    (w : World) (game user : ℕ) (draws : List ℕ) (req : MoveRequest) (st : State) (p : GamePlayer)
    (hand : List Card) (e : ApiError)
    → w.runtime game ≡ some st
    → IsPlayer w game user p hand
    → compute_move game user (working_copy st p.position hand) p.position req ≡ err e
    → apply_move alone w game user draws req ≡ (w, err e)
unfolding attempt_compute
apply_move_refused w game user draws req st p hand e running player h =
    apply_move_ended w game user draws req (
      attempt_computed w (alone 2) game user draws req running player
      ∙ rw (h, attempt_compute) refl)
