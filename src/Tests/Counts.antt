-- ===== src/Tests/Counts.antt =====
-- Counting, correcting and quitting.
use fifteen_thirty_one_go.Shared.{[], false, none, ok, pos, refl, some, true, ◌∷◌, ◌≡◌, ◌≢◌}
use fifteen_thirty_one_go.Cards.{diamonds}
use fifteen_thirty_one_go.Counting.{
  CountAnswer, CountRequest, count_entry, count_in, counted_breakdown, hand_kind, handle_count,
  record_count,
}
use fifteen_thirty_one_go.Counting.Correct.{
  commit_correction, correct, correct_found, correct_in, correctable, correction, host_of,
}
use fifteen_thirty_one_go.Counting.Corrected.{Corrected, correct-Corrected}
use fifteen_thirty_one_go.Counting.Once.{Verified, handle_count-Verified, handle_count_once}
use fifteen_thirty_one_go.Counting.Quit.{quit_game, quit_in}
use fifteen_thirty_one_go.Counting.Resumed.{quit_game_resumes}
use fifteen_thirty_one_go.Engine.State.{State, stage_eq}
use fifteen_thirty_one_go.Moves.Committed.{committed}
use fifteen_thirty_one_go.Moves.World.{World, ensure_game_state}
use fifteen_thirty_one_go.Scoring.Show.{ScoreBreakdown, score_hand}
use fifteen_thirty_one_go.Store.Games.{
  Db, count_move, game_finished, insert_move, suggest_mode, update,
}
use fifteen_thirty_one_go.Store.Moves.{
  any_uncorrected, get_move_by_id, get_user_preferences, has_uncorrected_move_type, is_user_in_game,
  mark_move_as_corrected,
}
use fifteen_thirty_one_go.Store.Players.{find_player}
use fifteen_thirty_one_go.Tests.Table.{
  anna, bob, card_of, counted_state, hand_a, in_play, row_of, world_of,
}

abbrev final_hand : CountRequest
final_hand = record { kind = hand_kind; claim = pos 8; final = true }

abbrev scored : ScoreBreakdown
scored = score_hand hand_a (card_of 11 diamonds) false

abbrev told : CountAnswer
told = record { verified = scored.total; breakdown = scored; auto_count_mode = suggest_mode }

abbrev before_count : World
before_count = world_of counted_state

abbrev after_count : World
after_count = record before_count {
  db = insert_move before_count.db (count_entry 1 20 final_hand scored.total);
}

counted_hand : handle_count before_count 1 20 final_hand ≡ (after_count, ok told)
unfolding handle_count count_in counted_breakdown record_count committed has_uncorrected_move_type
    any_uncorrected get_user_preferences find_player stage_eq
counted_hand = refl

handle_count-Verified_example : Verified before_count after_count 1 20 final_hand told
handle_count-Verified_example =
    handle_count-Verified before_count after_count 1 20 final_hand told counted_hand

handle_count_once_example : handle_count after_count 1 20 final_hand ≢ (after_count, ok told)
unfolding insert_move
handle_count_once_example =
    handle_count_once before_count after_count after_count after_count 1 20 final_hand final_hand
      told told [] refl counted_hand refl refl refl

abbrev corrected : Db
corrected = record after_count.db {
  moves =
      record (count_entry 1 20 final_hand scored.total) { is_corrected = true }
      ∷ correction 1 20 (count_move false true) (pos 9) scored.total
      ∷ [];
}

correct-Corrected_example : Corrected after_count.db corrected 1 20 1 (pos 9) scored.total
unfolding correct correct_found correct_in correctable host_of commit_correction
    mark_move_as_corrected get_move_by_id insert_move
correct-Corrected_example =
    correct-Corrected after_count.db corrected 1 20 1 (pos 9) scored.total refl

-- Anna leaves the game of two.
abbrev playing : World
playing = world_of in_play

abbrev left_game : World
left_game = quit_in playing 1 (row_of in_play)

quit_game_resumes_example :
    let restored : State = in_play in
    (left_game.db.games 1 ≡ some (record (row_of in_play) { status = game_finished }))
    × (left_game.runtime 1 ≡ none)
    × (ensure_game_state left_game 1 (anna ∷ bob ∷ []) []
        ≡ (record left_game { runtime = update left_game.runtime 1 (some restored) }, ok restored))
unfolding quit_game is_user_in_game find_player
quit_game_resumes_example =
    quit_game_resumes playing left_game 1 20 (row_of in_play) (record in_play { version = 0 })
      (anna ∷ bob ∷ []) [] refl refl refl refl
