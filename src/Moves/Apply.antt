-- ===== src/Moves/Apply.antt =====
-- ApplyMove of internal/handlers/game_logic.go.
use fifteen_thirty_one_go.Shared.{
  Bool, List, Option, Outcome, [], err, false, get_elem?, get_or, if◌then◌else◌, length, ltb, none,
  not, ok, panic, pos, set, some, suc, true, zero, ℕ, ◌&&◌, ◌+◌, ◌==◌, ◌>>=◌, ◌∷◌,
}
use fifteen_thirty_one_go.Bot.{before}
use fifteen_thirty_one_go.Cards.{Card}
use fifteen_thirty_one_go.Cards.Text.{CardError, Text, parse_card}
use fifteen_thirty_one_go.Engine.Discarding.{discard}
use fifteen_thirty_one_go.Engine.Play.{go, play_pegging_card}
use fifteen_thirty_one_go.Engine.State.{
  Error, State, discarding, not_in_pegging_stage, not_your_turn, pegging, stage_eq,
}
use fifteen_thirty_one_go.Moves.World.{World, ensure_game_state}
use fifteen_thirty_one_go.Scoring.Pegging.{PegReason}
use fifteen_thirty_one_go.Store.Games.{
  ApiError, Db, GameMove, GamePlayer, MoveType, blank, discard_move, engine, game_state_conflict,
  go_move, insert_move, invalid_card, invalid_json, invalid_player_position, not_a_player,
  play_card_move, stored, undecodable, unknown_move_type, update, update_game_state_cas,
}
use fifteen_thirty_one_go.Store.Players.{find_player, list_game_players, update_player_hand}
use fifteen_thirty_one_go.Views.{clone_state_deep}

pub data MoveRequest : Type 0 where
  discard_request : List Text → MoveRequest
  play_card_request : Text → MoveRequest
  go_request other_request : MoveRequest

pub data Response : Type 0 where
  discarded : Response
  played : (points : ℕ) (reasons : List PegReason) (total : ℕ) → Response
  went : (awarded : ℕ) → Response

-- What the computation under the lock leaves: the new state, whether the hand is written, the move
-- and the answer.
pub record Computed : Type 0 where
  pub working : State
  pub hand_out : Bool
  pub move : GameMove
  pub response : Response

abbrev pub lift {ℓ} : {A : Type ℓ} → State × Outcome Error A → Outcome ApiError (State × A)
lift (s, ok a) = ok (s, a)
lift (s, err e) = err (engine e)
lift (s, panic) = panic

unfoldable pub parsed : Outcome CardError Card → Outcome ApiError Card
parsed (ok c) = ok c
parsed (err e) = err invalid_card
parsed panic = panic

unfoldable pub parse_cards : List Text → Outcome ApiError (List Card)
unfolding parsed
parse_cards [] = ok []
parse_cards (t ∷ ts) = do c ← parsed (parse_card t); cards ← parse_cards ts; ok (c ∷ cards)

unfoldable pub move_of : ℕ → ℕ → MoveType → Option Card → Option ℕ → GameMove
move_of game user type card verified = record {
  game_id = game;
  player_id = user;
  move_type = type;
  card_played = card;
  score_claimed = none;
  score_verified = verified;
  is_corrected = false;
}

-- The copy that the move is computed on, with the hand of the player's row.
unfoldable pub working_copy : State → ℕ → List Card → State
working_copy st p hand = record (clone_state_deep st) {
  hands = if ltb p (length st.hands) then set st.hands p hand else st.hands;
}

-- The turn validation of play_card and go.
unfoldable pub check_turn : State → ℕ → Outcome ApiError (Unit {0})
check_turn s p =
    if not (stage_eq s.stage pegging)
    then err (engine not_in_pegging_stage)
    else if not (s.current_index == p)
    then err (engine not_your_turn)
    else ok tt

unfoldable pub compute_move : ℕ → ℕ → State → ℕ → MoveRequest → Outcome ApiError Computed
unfolding check_turn parse_cards move_of
compute_move game user s p (discard_request texts) = do
  cards ← parse_cards texts
  r ← lift (discard s (pos p) cards)
  ok (record {
    working = r.0;
    hand_out = true;
    move = move_of game user discard_move none none;
    response = discarded;
  })
compute_move game user s p (play_card_request text) = do
  _ ← check_turn s p
  card ← parsed (parse_card text)
  r ← lift (play_pegging_card s (pos p) card)
  ok (record {
    working = r.0;
    hand_out = true;
    move = move_of game user play_card_move (some card) (some r.1.0);
    response = played r.1.0 r.1.1 r.0.pegging_total;
  })
compute_move game user s p go_request = do
  _ ← check_turn s p
  r ← lift (go s (pos p))
  ok (record {
    working = r.0;
    hand_out = false;
    move = move_of game user go_move none (some r.1);
    response = went r.1;
  })
compute_move game user s p other_request = err unknown_move_type

-- `prevStage == "pegging" && working.Stage == "discard"`: the hands of all players are written.
unfoldable pub persist_hands : Db → ℕ → List (List Card) → List GamePlayer → Outcome ApiError Db
persist_hands db game hands [] = ok db
persist_hands db game hands (p ∷ ps) = elim (get_elem? hands p.position) [
  | none ↦ err invalid_player_position
  | some hand ↦ update_player_hand db game p.user_id hand >>= λ db'. persist_hands db' game hands ps
]

-- The statements of the transaction before the move is inserted.
unfoldable pub write_hand_out : Db → ℕ → ℕ → ℕ → Computed → Outcome ApiError Db
write_hand_out db game user p c =
    if c.hand_out then update_player_hand db game user (get_or c.working.hands p []) else ok db

unfoldable pub write_dealt : Db → ℕ → List GamePlayer → State → State → Outcome ApiError Db
write_dealt db game rows before working =
    if stage_eq before.stage pegging && stage_eq working.stage discarding
    then persist_hands db game working.hands rows
    else ok db

-- The transaction: nothing of it is kept where a statement fails.
unfoldable pub persist_move :
    Db → ℕ → ℕ → ℕ → List GamePlayer → State → Computed → Outcome ApiError Db
persist_move db game user p rows before c = do
  db' ← write_hand_out db game user p c
  db'' ← write_dealt db' game rows before c.working
  update_game_state_cas (insert_move db'' c.move) game before.version c.working

-- The state in memory after the commit.
unfoldable pub reload : World → ℕ → World
reload w game = elim (w.db.games game) [
  | none ↦ w
  | some row ↦ elim row.state_json [
    | blank ↦ w
    | undecodable ↦ w
    | stored s ↦ record w {
      runtime = update w.runtime game (some (record s { version = row.state_version }));
    }
  ]
]

unfoldable pub apply_to_runtime : ℕ → ℕ → State → World × Outcome ApiError State → World
unfolding reload
apply_to_runtime game base working (w, ok st2) =
    if st2.version == base
    then record w { runtime = update w.runtime game (some (record working { version = base + 1 })) }
    else if not (st2.version == base + 1)
    then reload w game
    else w
apply_to_runtime game base working (w, err e) = reload w game
apply_to_runtime game base working (w, panic) = w

unfoldable pub commit_move :
    World → ℕ → List GamePlayer → List ℕ → State → Computed → Db → World × Outcome ApiError Response
unfolding apply_to_runtime
commit_move w game rows draws before c db = (
  apply_to_runtime game before.version c.working
      (ensure_game_state (record w { db = db }) game rows draws),
  ok c.response,
)

pub data Attempt : Type 0 where
  retried : World → Attempt
  ended : World × Outcome ApiError Response → Attempt

-- From the unlocking to the end of one attempt, in the world that the transaction meets.
unfoldable pub attempt_persist :
    World → ℕ → ℕ → ℕ → List GamePlayer → List ℕ → State → Computed → Attempt
attempt_persist w game user p rows draws before c =
    elim (persist_move w.db game user p rows before c) [
      | ok db ↦ ended (commit_move w game rows draws before c db)
      | err game_state_conflict ↦ retried w
      | err e ↦ ended (w, err e)
      | panic ↦ ended (w, panic)
    ]

unfoldable pub attempt_compute :
    (World → World)
    → ℕ
    → ℕ
    → ℕ
    → List Card
    → List GamePlayer
    → List ℕ
    → MoveRequest
    → World × Outcome ApiError State
    → Attempt
attempt_compute others game user p hand rows draws req (w, ok st) =
    elim (compute_move game user (working_copy st p hand) p req) [
      | ok c ↦ attempt_persist (others w) game user p rows draws st c
      | err e ↦ ended (w, err e)
      | panic ↦ ended (w, panic)
    ]
attempt_compute others game user p hand rows draws req (w, err e) = ended (w, err e)
attempt_compute others game user p hand rows draws req (w, panic) = ended (w, panic)

unfoldable pub attempt_with :
    World → (World → World) → ℕ → ℕ → List GamePlayer → List ℕ → MoveRequest → GamePlayer → Attempt
unfolding attempt_compute
attempt_with w others game user rows draws req row = elim row.hand [
  | blank ↦ ended (w, err invalid_json)
  | undecodable ↦ ended (w, err invalid_json)
  | stored hand ↦
      attempt_compute others game user row.position hand rows draws req
        (ensure_game_state w game rows draws)
]

unfoldable pub attempt : World → (World → World) → ℕ → ℕ → List ℕ → MoveRequest → Attempt
unfolding attempt_with
attempt w others game user draws req =
    let rows = list_game_players w.db game in
    elim (find_player user rows) [
      | none ↦ ended (w, err not_a_player)
      | some row ↦ attempt_with w others game user rows draws req row
    ]

-- The loop over the attempts that are left; a conflict on the last one is returned.
unfoldable pub attempts_loop :
    ℕ
    → (ℕ → World → World)
    → World
    → ℕ
    → ℕ
    → List ℕ
    → MoveRequest
    → World × Outcome ApiError Response
attempts_loop zero others w game user draws req = (w, err game_state_conflict)
attempts_loop (suc k) others w game user draws req =
    elim (attempt w (others k) game user draws req) [
      | ended r ↦ r
      | retried w' ↦ attempts_loop k others w' game user draws req
    ]

unfoldable pub apply_move :
    (ℕ → World → World) → World → ℕ → ℕ → List ℕ → MoveRequest → World × Outcome ApiError Response
apply_move others w game user draws req = attempts_loop 3 others w game user draws req
