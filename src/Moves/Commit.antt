-- ===== src/Moves/Commit.antt =====
-- ApplyMove of internal/handlers/game_logic.go: what its transaction writes.
use fifteen_thirty_one_go.Shared.{
  >>=-eq-ok, Bool-cases, List, Option, Option-cases, [], ap, arith, get_elem?, inl, inr, ok, refl,
  some, sym, ℕ, ◌&&◌, ◌+◌, ◌∙◌, ◌∷◌, ◌≡◌,
}
use fifteen_thirty_one_go.Bot.{before}
use fifteen_thirty_one_go.Cards.{Card}
use fifteen_thirty_one_go.Engine.State.{State, discarding, pegging, stage_eq}
use fifteen_thirty_one_go.Moves.Apply.{
  Computed, persist_hands, persist_move, write_dealt, write_hand_out,
}
use fifteen_thirty_one_go.Store.Games.{
  Db, GameMove, GamePlayer, GameRow, insert_move, marshal_state, update_game_state_cas,
}
use fifteen_thirty_one_go.Store.Players.{update_player_hand}

-- The statements before the last one leave the rows of games alone.
games-update_player_hand :
    (db : Db) (game user : ℕ) (hand : List Card) {db' : Db}
    → update_player_hand db game user hand ≡ ok db'
    → db'.games ≡ db.games
unfolding update_player_hand
games-update_player_hand db game user hand h = ground arith

games-persist_hands :
    (db : Db) (game : ℕ) (hands : List (List Card)) (rows : List GamePlayer) {db' : Db}
    → persist_hands db game hands rows ≡ ok db'
    → db'.games ≡ db.games
unfolding persist_hands
games-persist_hands db game hands [] h = ground arith
games-persist_hands db game hands (p ∷ ps) h = elim (Option-cases (get_elem? hands p.position)) [
  | inl e ↦ absurd (ground arith)
  | inr (hand, e) ↦
      let (mid, first, rest) = then_ok e h in
      games-persist_hands mid game hands ps rest
      ∙ games-update_player_hand db game p.user_id hand first
]
  where
    then_ok :
        {hand : List Card} {db' : Db}
        → get_elem? hands p.position ≡ some hand
        → persist_hands db game hands (p ∷ ps) ≡ ok db'
        → (mid : Db) × (update_player_hand db game p.user_id hand ≡ ok mid)
          × (persist_hands mid game hands ps ≡ ok db')
    then_ok e h = >>=-eq-ok (update_player_hand db game p.user_id _) _ (rw (e, persist_hands) at h)

games-insert_move : (db : Db) (m : GameMove) → (insert_move db m).games ≡ db.games
unfolding insert_move
games-insert_move db m = refl

-- A successful compare-and-swap found the expected version.
pub record Swapped (db db' : Db) (game expected : ℕ) (s : State) : Type 0 where
  pub before : GameRow
  pub found : db.games game ≡ some before
  pub same_version : before.state_version ≡ expected
  pub written :
      db'.games game
      ≡ some (record before { state_json = marshal_state s; state_version = expected + 1 })

pub update_game_state_cas-Swapped :
    (db db' : Db) (game expected : ℕ) (s : State)
    → update_game_state_cas db game expected s ≡ ok db'
    → Swapped db db' game expected s
unfolding update_game_state_cas
update_game_state_cas-Swapped db db' game expected s h = elim (Option-cases (db.games game)) [
  | inl e ↦ absurd (ground arith)
  | inr (row, e) ↦ record {
    before = row;
    found = e;
    same_version = ground arith;
    written = ground arith;
  }
]

games-write_hand_out :
    (db : Db) (game user p : ℕ) (c : Computed) {db' : Db}
    → write_hand_out db game user p c ≡ ok db'
    → db'.games ≡ db.games
unfolding write_hand_out update_player_hand
games-write_hand_out db game user p c h = ground arith

games-write_dealt :
    (db : Db) (game : ℕ) (rows : List GamePlayer) (before working : State) {db' : Db}
    → write_dealt db game rows before working ≡ ok db'
    → db'.games ≡ db.games
unfolding write_dealt
games-write_dealt db game rows before working {db'} h =
    elim (Bool-cases (stage_eq before.stage pegging && stage_eq working.stage discarding)) [
      | inl e ↦
          games-persist_hands db game working.hands rows {db' = db'} (rw (e, write_dealt) at h)
      | inr e ↦ ground arith
    ]

-- A transaction that commits found the version that the move was computed from, and wrote the
-- computed state under the next one: a move is never applied on top of another that it has not seen.
pub persist_move-Swapped :
    (db db' : Db) (game user p : ℕ) (rows : List GamePlayer) (before : State) (c : Computed)
    → persist_move db game user p rows before c ≡ ok db'
    → Swapped db db' game before.version c.working
unfolding persist_move
persist_move-Swapped db db' game user p rows before c h =
    let (m, e, r) = >>=-eq-ok (write_hand_out db game user p c) _ h in
    let (n, f, t) = >>=-eq-ok (write_dealt m game rows before c.working) _ r in
    let swapped =
      update_game_state_cas-Swapped (insert_move n c.move) db' game before.version c.working t in
    let same : (insert_move n c.move).games ≡ db.games =
      games-insert_move n c.move
      ∙ games-write_dealt m game rows before c.working f
      ∙ games-write_hand_out db game user p c e in
    record {
      before = swapped.before;
      found = ap (λ (g : ℕ → Option GameRow). g game) (sym same) ∙ swapped.found;
      same_version = swapped.same_version;
      written = swapped.written;
    }
