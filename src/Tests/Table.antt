-- ===== src/Tests/Table.antt =====
-- Cards, states and a database for the tests.
use fifteen_thirty_one_go.Shared.{List, [], arith, false, none, pos, refl, some, true, ℕ, ◌∷◌}
use fifteen_thirty_one_go.Cards.{Card, Suit, clubs, diamonds, hearts, spades}
use fifteen_thirty_one_go.Engine.Invariant.{WellFormed}
use fifteen_thirty_one_go.Engine.State.{State, counting, finished, pegging}
use fifteen_thirty_one_go.Moves.World.{World}
use fifteen_thirty_one_go.Store.Games.{
  Db, GamePlayer, GameRow, LobbyRow, game_waiting, lobby_waiting, marshal_state, stored, update,
}

abbrev pub card_of : ℕ → Suit → Card
card_of r s = record { rank = r; suit = s }

abbrev pub hand_a : List Card
hand_a = card_of 5 spades ∷ card_of 9 hearts ∷ []

abbrev pub hand_b : List Card
hand_b = card_of 13 clubs ∷ card_of 4 diamonds ∷ []

-- Two players in the play, with a ten on the table.
abbrev pub in_play : State
in_play = record {
  version = 3;
  rules = record { max_players = 2 };
  dealer_index = 1;
  current_index = 0;
  last_play_index = pos 1;
  deck = card_of 2 clubs ∷ [];
  cut = some (card_of 11 diamonds);
  hands = hand_a ∷ hand_b ∷ [];
  kept_hands = hand_a ∷ (card_of 10 clubs ∷ hand_b) ∷ [];
  crib = card_of 1 spades ∷ [];
  pegging_total = 10;
  pegging_seq = card_of 10 clubs ∷ [];
  pegging_passed = false ∷ false ∷ [];
  discard_completed = true ∷ true ∷ [];
  scores = 7 ∷ 3 ∷ [];
  stage = pegging;
  ready_next_hand = [];
  count_summary = none;
  history = [];
}

pub in_play-WellFormed : WellFormed in_play
in_play-WellFormed = record {
  at_least_two = omega arith;
  at_most_four = omega arith;
  dealer_in = omega arith;
  current_in = omega arith;
  last_in = omega arith;
  length_hands = refl;
  length_kept = refl;
  length_scores = refl;
  length_completed = refl;
  length_passed = λ _. refl;
}

-- The same two players when the hand has been counted.
abbrev pub counted_state : State
counted_state = record in_play { stage = counting; hands = [] ∷ [] ∷ [] }

-- And at the end of the game.
abbrev pub over : State
over = record in_play { stage = finished; hands = [] ∷ [] ∷ []; scores = 121 ∷ 80 ∷ [] }

abbrev pub anna : GamePlayer
anna = record {
  user_id = 20;
  position = 0;
  hand = stored hand_a;
  hand_count = none;
  is_bot = false;
  bot_difficulty = none;
}

abbrev pub bob : GamePlayer
bob = record {
  user_id = 21;
  position = 1;
  hand = stored hand_b;
  hand_count = none;
  is_bot = false;
  bot_difficulty = none;
}

abbrev pub lobby_row : LobbyRow
lobby_row = record {
  name = b'A' ∷ [];
  host_id = 20;
  max_players = 3;
  current_players = 2;
  status = lobby_waiting;
}

abbrev pub row_of : State → GameRow
row_of s = record {
  lobby_id = 5;
  status = game_waiting;
  state_json = marshal_state s;
  state_version = s.version;
}

-- The game 1 of the lobby 5, in a given state.
abbrev pub store_of : State → Db
store_of s = record {
  games = update (λ _. none) 1 (some (row_of s));
  players_of = update (λ _. []) 1 (anna ∷ bob ∷ []);
  lobbies = update (λ _. none) 5 (some lobby_row);
  moves = [];
  scoreboard = [];
  users = λ _. record { games_played = 0; games_won = 0 };
  usernames = [];
  preferences = λ _. none;
  last_game = 1;
  last_lobby = 5;
  last_user = 21;
}

abbrev pub world_of : State → World
world_of s = record { db = store_of s; runtime = update (λ _. none) 1 (some s) }
