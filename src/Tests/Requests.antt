-- ===== src/Tests/Requests.antt =====
-- Requests of the handlers.
use fifteen_thirty_one_go.Shared.{
  List, Outcome, [], arith, err, length, ok, pos, refl, some, true, ℕ, ◌∷◌, ◌≡◌, ◌≤◌,
}
use fifteen_thirty_one_go.Cards.{card_eq, hearts, spades, value15}
use fifteen_thirty_one_go.Cards.Text.{card_string, parse_card}
use fifteen_thirty_one_go.Engine.Play.{go, pass_turn, play_of, play_pegging_card, record_play}
use fifteen_thirty_one_go.Engine.Rounds.{
  add_score, advance_loop, advance_to_next_playable_or_go, all_empty_loop, can_play, has_legal_card,
  maybe_finish_round,
}
use fifteen_thirty_one_go.Engine.State.{Error, State, find_card, has_legal_play, stage_eq}
use fifteen_thirty_one_go.Moves.Apply.{
  Computed, MoveRequest, apply_move, check_turn, compute_move, go_request, move_of, parsed,
  persist_move, play_card_request, played, working_copy, write_dealt, write_hand_out,
}
use fifteen_thirty_one_go.Moves.Bots.{
  act, at_position, bot_action, maybe_run_bot_turns, pegging_action, turn, turn_in, turns_loop,
}
use fifteen_thirty_one_go.Moves.Commit.{Swapped, persist_move-Swapped}
use fifteen_thirty_one_go.Moves.Final.{maybe_finalize_game_again}
use fifteen_thirty_one_go.Moves.Finalize.{
  ahead, commit_final, final_of, finalize_in, finalize_ranked, has_scores, insert_final,
  maybe_finalize_game, rank_finals, write_final, write_finals, write_results,
}
use fifteen_thirty_one_go.Moves.Forgotten.{apply_move_forgets}
use fifteen_thirty_one_go.Moves.Hidden.{Hides, build_game_snapshot_for_user-Hides}
use fifteen_thirty_one_go.Moves.Sequential.{
  Applied, IsPlayer, IsRunning, alone, apply_move-Applied, apply_move_refused,
}
use fifteen_thirty_one_go.Moves.Settled.{Rests, maybe_run_bot_turns-Rests}
use fifteen_thirty_one_go.Moves.Snapshots.{
  GameInfo, GameSnapshot, build_game_snapshot_for_user, counted, decoded_hand, fallback_hand,
  for_user, get_game, hide_row, listed, repair, show_own, show_row, show_rows, shown_hand,
  snapshot_in, snapshot_shown,
}
use fifteen_thirty_one_go.Moves.Waiting.{IsWaiting, next_hands, next_hands_never_deal}
use fifteen_thirty_one_go.Moves.World.{World, ensure_game_state}
use fifteen_thirty_one_go.Scoring.Pegging.{PegReason, makes_15, pegging_score}
use fifteen_thirty_one_go.Store.Games.{
  Db, GamePlayer, engine, game_waiting, insert_move, marshal_state, play_card_move, set_game_status,
  stored, update, update_game_state_cas,
}
use fifteen_thirty_one_go.Store.Lobbies.{set_lobby_status}
use fifteen_thirty_one_go.Store.Players.{find_player, update_player_hand, write_hand}
use fifteen_thirty_one_go.Tests.Table.{
  anna, bob, card_of, counted_state, hand_a, in_play, in_play-WellFormed, over, row_of, store_of,
  world_of,
}
use fifteen_thirty_one_go.Views.{clone_state_deep, clone_state_for_view}

running : IsRunning (world_of in_play) 1 in_play (row_of in_play)
running = record { in_memory = refl; in_store = refl; same_version = refl }

ann_plays : IsPlayer (world_of in_play) 1 20 anna hand_a
unfolding find_player
ann_plays = record { found = refl; holds = refl }

-- Ann plays her five on the ten.
abbrev request : MoveRequest
request = play_card_request (card_string (card_of 5 spades))

abbrev played_five : State × Outcome Error (ℕ × List PegReason)
played_five = play_pegging_card (working_copy in_play 0 hand_a) (pos 0) (card_of 5 spades)

abbrev computed : Computed
computed = record {
  working = played_five.0;
  hand_out = true;
  move = move_of 1 20 play_card_move (some (card_of 5 spades)) (some 2);
  response = played 2 (makes_15 ∷ []) 15;
}

computed_move : compute_move 1 20 (working_copy in_play 0 hand_a) 0 request ≡ ok computed
unfolding compute_move check_turn stage_eq parsed parse_card play_pegging_card play_of working_copy
    clone_state_deep card_string find_card card_eq value15 maybe_finish_round all_empty_loop
    pass_turn record_play pegging_score advance_to_next_playable_or_go advance_loop add_score
    can_play has_legal_card
computed_move = refl

apply_move-Applied_example :
    Applied
      (world_of in_play)
      1
      (row_of in_play)
      3
      computed
      (apply_move alone (world_of in_play) 1 20 [] request)
apply_move-Applied_example =
    apply_move-Applied (world_of in_play) 1 20 [] request in_play (row_of in_play) anna hand_a
      computed running ann_plays in_play-WellFormed computed_move

-- A Go of a player who can play.
refused_go :
    compute_move 1 20 (working_copy in_play 0 hand_a) 0 go_request ≡ err (engine has_legal_play)
unfolding compute_move check_turn stage_eq go can_play has_legal_card value15 working_copy
    clone_state_deep
refused_go = refl

apply_move_refused_example :
    apply_move alone (world_of in_play) 1 20 [] go_request
    ≡ (world_of in_play, err (engine has_legal_play))
apply_move_refused_example =
    apply_move_refused (world_of in_play) 1 20 [] go_request in_play anna hand_a
      (engine has_legal_play) refl ann_plays refused_go

abbrev anna_after : GamePlayer
anna_after = record anna { hand = stored (card_of 9 hearts ∷ []) }

-- What the transaction of the five writes.
abbrev written_five : Db
written_five = record (store_of in_play) {
  games = update (store_of in_play).games 1 (
      some (record (row_of in_play) {
        state_json = marshal_state computed.working;
        state_version = 4;
      }));
  players_of = update (store_of in_play).players_of 1 (anna_after ∷ bob ∷ []);
  moves = computed.move ∷ [];
}

five_persisted :
    persist_move (store_of in_play) 1 20 0 (anna ∷ bob ∷ []) in_play computed ≡ ok written_five
unfolding persist_move write_hand_out write_dealt update_player_hand find_player write_hand
    insert_move update_game_state_cas stage_eq play_pegging_card play_of working_copy
    clone_state_deep find_card card_eq value15 maybe_finish_round all_empty_loop pass_turn
    record_play pegging_score advance_to_next_playable_or_go advance_loop add_score can_play
    has_legal_card move_of
five_persisted = refl

persist_move-Swapped_example : Swapped (store_of in_play) written_five 1 3 computed.working
persist_move-Swapped_example =
    persist_move-Swapped (store_of in_play) written_five 1 20 0 (anna ∷ bob ∷ []) in_play computed
      five_persisted

abbrev info : GameInfo
info = record { lobby_id = 5; status = game_waiting }

abbrev anna_shown : GamePlayer
anna_shown = record anna { hand_count = some 2 }

abbrev bob_hidden : GamePlayer
bob_hidden = record bob { hand_count = some 2; hand = stored [] }

-- What Ann sees.
abbrev for_ann : GameSnapshot
for_ann = record {
  game = info;
  players = anna_shown ∷ bob_hidden ∷ [];
  state = record (clone_state_for_view in_play) { hands = hand_a ∷ [] ∷ [] };
}

shown_to_ann : (build_game_snapshot_for_user (world_of in_play) 1 20 []).1 ≡ ok for_ann
unfolding build_game_snapshot_for_user for_user snapshot_in snapshot_shown listed get_game show_rows
    show_row show_own decoded_hand repair shown_hand hide_row counted ensure_game_state
    clone_state_for_view fallback_hand find_player
shown_to_ann = refl

build_game_snapshot_for_user-Hides_example : Hides 20 for_ann
build_game_snapshot_for_user-Hides_example =
    build_game_snapshot_for_user-Hides (world_of in_play) 1 20 [] shown_to_ann

-- Ann, Bob, and Ann again say that they are ready.
next_hands_never_deal_example :
    IsWaiting (next_hands (world_of counted_state) 1 ((20, []) ∷ (21, []) ∷ (20, []) ∷ [])) 1
next_hands_never_deal_example =
    next_hands_never_deal (world_of counted_state) 1 anna bob ((20, []) ∷ (21, []) ∷ (20, []) ∷ [])
      (record { rows = refl; first = refl; second = refl; human_a = refl; human_b = refl })
      (record {
        state = counted_state;
        row = row_of counted_state;
        in_memory = refl;
        in_store = refl;
        same_version = refl;
        two_players = refl;
        in_counting = refl;
        nobody = λ i. ground arith;
      })

no_bots :
    maybe_run_bot_turns (λ _. alone) (world_of in_play) 1 (λ _. []) (λ _. [])
    ≡ (world_of in_play, ok tt)
unfolding maybe_run_bot_turns turns_loop turn turn_in bot_action pegging_action at_position act
    stage_eq ensure_game_state
no_bots = refl

maybe_run_bot_turns-Rests_example : Rests 1 (world_of in_play)
maybe_run_bot_turns-Rests_example =
    maybe_run_bot_turns-Rests (λ _. alone) (world_of in_play) (world_of in_play) 1 (λ _. [])
      (λ _. []) no_bots

-- Ann has won.
abbrev results : World
results = (maybe_finalize_game (world_of over) 1 []).0

results_written : maybe_finalize_game (world_of over) 1 [] ≡ (results, ok tt)
unfolding maybe_finalize_game finalize_in commit_final finalize_ranked rank_finals insert_final
    ahead final_of has_scores write_results write_finals write_final set_game_status
    set_lobby_status stage_eq ensure_game_state
results_written = refl

maybe_finalize_game_again_example : maybe_finalize_game results 1 [] ≡ (results, ok tt)
maybe_finalize_game_again_example =
    maybe_finalize_game_again (world_of over) results 1 [] [] over refl results_written

-- The five again.
apply_move_forgets_example :
    (s : State) × ((apply_move alone (world_of in_play) 1 20 [] request).0.runtime 1 ≡ some s)
    × (length s.history ≤ 1)
apply_move_forgets_example =
    apply_move_forgets (world_of in_play) 1 20 [] request in_play (row_of in_play) anna hand_a
      computed running ann_plays in_play-WellFormed computed_move
