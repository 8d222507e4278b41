-- ===== src/Tests/Joining.antt =====
-- Lobbies: created, joined, joined again.
use fifteen_thirty_one_go.Shared.{
  [], arith, false, none, ok, pos, refl, set, some, true, ◌+◌, ◌∷◌, ◌≡◌,
}
use fifteen_thirty_one_go.Cards.{Card, card_eq, spades}
use fifteen_thirty_one_go.Cards.Text.{trim_space}
use fifteen_thirty_one_go.Deck.Counting.{count}
use fifteen_thirty_one_go.Engine.Conserved.{cards_in}
use fifteen_thirty_one_go.Engine.Dealing.{deal}
use fifteen_thirty_one_go.Engine.Discarding.{complete_crib, discard, move_to_crib, note_discard}
use fifteen_thirty_one_go.Engine.State.{State, discarding, find_card, new_state, pop, stage_eq}
use fifteen_thirty_one_go.Lobbies.Create.{
  CreateAnswer, CreateRequest, create_lobby, default_name, valid_name, valid_size,
}
use fifteen_thirty_one_go.Lobbies.Created.{Created, create_lobby-Created}
use fifteen_thirty_one_go.Lobbies.Join.{Entered, handle_join}
use fifteen_thirty_one_go.Lobbies.Reached.{
  Reach, Reach-Seating, System, create_step, one_more, reached,
}
use fifteen_thirty_one_go.Lobbies.Stale.{rejoin_brings_back}
use fifteen_thirty_one_go.Lobbies.Sync.{see}
use fifteen_thirty_one_go.Moves.World.{World}
use fifteen_thirty_one_go.Rules.{discard_count}
use fifteen_thirty_one_go.Store.Games.{Db, LobbyRow, marshal_state, stored, update}
use fifteen_thirty_one_go.Store.Players.{find_player, update_player_hand_if_empty}
use fifteen_thirty_one_go.Store.Seating.{Seating}
use fifteen_thirty_one_go.Store.Seats.{insert_player, latest_from, new_player}
use fifteen_thirty_one_go.Tests.Rounds.{draws_51}
use fifteen_thirty_one_go.Tests.Table.{
  anna, card_of, hand_a, hand_b, in_play, lobby_row, row_of, store_of, world_of,
}

-- A database without lobbies.
abbrev vacant : Db
vacant = record (store_of in_play) {
  games = λ _. none;
  players_of = λ _. [];
  lobbies = λ _. none;
  last_game = 0;
  last_lobby = 0;
}

vacant-Seating : Seating vacant
vacant-Seating = record {
  seated = λ game. tt;
  fits = λ game lobby n e e'. omega arith;
  owned = λ game lobby e. absurd (cc);
  no_later_lobby = λ lobby l. refl;
  no_later_game = λ game l. refl;
  no_later_player = λ game l. refl;
}

abbrev closed_house : World
closed_house = record { db = vacant; runtime = λ _. none }

-- The name is trimmed.
abbrev for_three : CreateRequest
for_three = record { name = b' ' ∷ b'A' ∷ []; max_players = pos 3 }

create_lobby-Created_example :
    (w' : World) × (a : CreateAnswer) × (create_lobby closed_house 20 for_three draws_51
      ≡ (w', ok a))
    × Created closed_house w' 20 (b'A' ∷ []) 3 a (deal draws_51 (new_state (pos 3))).0
unfolding valid_size valid_name default_name trim_space
create_lobby-Created_example =
    create_lobby-Created closed_house 20 for_three draws_51 (b'A' ∷ []) 3 vacant-Seating refl refl
      (omega arith)

abbrev house : System
house = record { world = closed_house; pending = [] }

start_house : Reach house house
start_house = reached

Reach-Seating_example : Seating (create_lobby closed_house 20 for_three draws_51).0.db
Reach-Seating_example =
    Reach-Seating (one_more start_house (create_step 20 for_three draws_51)) vacant-Seating

-- Anna and Bob wait for a third player, and all three hands are dealt.
abbrev three_hands : State
three_hands = record in_play { hands = hand_a ∷ hand_b ∷ hand_a ∷ [] }

abbrev waiting_room : Db
waiting_room = store_of three_hands

abbrev third : LobbyRow
third = record lobby_row { current_players = 3 }

abbrev three_seated : Db
three_seated =
    update_player_hand_if_empty
      (insert_player (record waiting_room { lobbies = update waiting_room.lobbies 5 (some third) })
        1 (new_player 22 2 false none))
      1 22 hand_a

abbrev first_join : Entered
first_join = record {
  row = third;
  place = 2;
  already = false;
  seen = see three_seated (marshal_state three_hands) 3 (stored hand_a);
}

abbrev second_join : Entered
second_join = record {
  row = third;
  place = 2;
  already = true;
  seen =
      see (update_player_hand_if_empty three_seated 1 22 hand_a) (marshal_state three_hands) 3
        (stored hand_a);
}

-- Anna discards while she joins again.
abbrev discard_stage : State
discard_stage = record in_play {
  stage = discarding;
  cut = none;
  hands = hand_a ∷ hand_b ∷ [];
  discard_completed = false ∷ true ∷ [];
  crib = card_of 1 spades ∷ card_of 8 spades ∷ [];
}

abbrev discarded_state : State
discarded_state = (discard discard_stage (pos 0) hand_a).0

abbrev meanwhile : World → World
meanwhile v = record v { runtime = update v.runtime 1 (some discarded_state) }

rejoin_brings_back_example :
    let back = record discarded_state { hands = set discarded_state.hands 0 hand_a } in
    ((handle_join (world_of discard_stage) meanwhile 5 20).0.runtime 1 ≡ some back)
    × ((c : Card) → cards_in c back + count c [] ≡ cards_in c discard_stage + count c hand_a)
unfolding latest_from find_player discard stage_eq discard_count note_discard move_to_crib find_card
    card_eq complete_crib pop
rejoin_brings_back_example =
    rejoin_brings_back (world_of discard_stage) meanwhile 5 1 20 anna lobby_row
      (row_of discard_stage) (record discard_stage { version = 0 }) hand_a refl refl refl refl refl
      refl discard_stage hand_a [] refl refl refl (λ v. refl)
