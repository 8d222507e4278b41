-- ===== src/Counting.antt =====
-- CountHandler of internal/handlers/game.go: a player says how many points a hand or the crib has.
-- The user is known and the game's id is valid; a failing database is left out. The state in memory
-- is read under its lock, the statements run after the lock is released.
pub mod Correct
pub mod Quit
pub mod Once
pub mod Resumed
pub mod Corrected
use fifteen_thirty_one_go.Shared.{
  Bool, Outcome, err, false, get_elem?, if◌then◌else◌, none, not, ok, some, true, ℕ, ℤ, ◌&&◌, ◌==◌,
  ◌>>=◌,
}
use fifteen_thirty_one_go.Cards.{Card}
use fifteen_thirty_one_go.Engine.State.{State, counting, stage_eq}
use fifteen_thirty_one_go.Moves.Committed.{committed}
use fifteen_thirty_one_go.Moves.World.{World}
use fifteen_thirty_one_go.Scoring.Show.{ScoreBreakdown, score_hand}
use fifteen_thirty_one_go.Store.Games.{
  ApiError, AutoCountMode, Db, GameMove, MoveType, count_move, final_count_already_submitted,
  insert_move, invalid_kind, invalid_player_position, not_a_player, not_in_counting_stage,
  not_ready, only_dealer_counts_crib,
}
use fifteen_thirty_one_go.Store.Moves.{get_user_preferences, has_uncorrected_move_type}
use fifteen_thirty_one_go.Store.Players.{find_player, list_game_players}

-- `none` is a text that is neither hand nor crib.
pub data CountKind : Type 0 where
  hand_kind crib_kind unknown_kind : CountKind

pub record CountRequest : Type 0 where
  pub kind : CountKind
  pub claim : ℤ
  pub final : Bool

pub record CountAnswer : Type 0 where
  pub verified : ℕ
  pub breakdown : ScoreBreakdown
  pub auto_count_mode : AutoCountMode

-- The cards that are scored: those the player kept, or the crib for the dealer.
unfoldable pub counted_breakdown : State → Card → ℕ → CountKind → Outcome ApiError ScoreBreakdown
counted_breakdown s cut place hand_kind = elim (get_elem? s.kept_hands place) [
  | none ↦ err invalid_player_position
  | some kept ↦ ok (score_hand kept cut false)
]
counted_breakdown s cut place crib_kind =
    if place == s.dealer_index then ok (score_hand s.crib cut true) else err only_dealer_counts_crib
counted_breakdown s cut place unknown_kind = err invalid_kind

-- `"count_" + req.Kind`, with `"_final"`; the kind is known here.
abbrev pub count_type : CountRequest → MoveType
count_type req = elim req.kind [
  | hand_kind ↦ count_move false req.final
  | crib_kind ↦ count_move true req.final
  | unknown_kind ↦ count_move false req.final
]

abbrev pub count_entry : ℕ → ℕ → CountRequest → ℕ → GameMove
count_entry game user req verified = record {
  game_id = game;
  player_id = user;
  move_type = count_type req;
  card_played = none;
  score_claimed = some req.claim;
  score_verified = some verified;
  is_corrected = false;
}

-- From the breakdown on: a final count is refused where one stands, the move is stored.
unfoldable pub record_count :
    Db → ℕ → ℕ → CountRequest → ScoreBreakdown → Outcome ApiError (Db × CountAnswer)
record_count db game user req bd =
    if req.final && has_uncorrected_move_type db game user (count_type req)
    then err final_count_already_submitted
    else ok (
      insert_move db (count_entry game user req bd.total),
      record {
        verified = bd.total;
        breakdown = bd;
        auto_count_mode = get_user_preferences db user;
      },
    )

-- With the state that was in memory.
unfoldable pub count_in : Db → ℕ → ℕ → CountRequest → State → Outcome ApiError (Db × CountAnswer)
unfolding counted_breakdown record_count
count_in db game user req s = elim s.cut [
  | none ↦ err not_ready
  | some cut ↦
      if not (stage_eq s.stage counting)
      then err not_in_counting_stage
      else elim (find_player user (list_game_players db game)) [
        | none ↦ err not_a_player
        | some p ↦ counted_breakdown s cut p.position req.kind >>= record_count db game user req
      ]
]

unfoldable pub handle_count : World → ℕ → ℕ → CountRequest → World × Outcome ApiError CountAnswer
unfolding count_in
handle_count w game user req = elim (w.runtime game) [
  | none ↦ (w, err not_ready)
  | some s ↦ committed w (count_in w.db game user req s)
]
