-- ===== src/Tests/Lounge.antt =====
-- The chat of a lobby.
use mathlib.Core.List.{reverse}
use fifteen_thirty_one_go.Shared.{
  Bool, [], length, none, ok, pos, refl, some, true, ◌==◌, ◌∷◌, ◌≡◌, ◌≤◌, ◌⊎◌,
}
use fifteen_thirty_one_go.Cards.Text.{Text, trim_space}
use fifteen_thirty_one_go.Social.{
  ChatMessage, Social, chat_message, checked_chat, count_from, is_participant, lobby_chat, name_of,
  post, send_lobby_chat_message, system_message, valid_message,
}
use fifteen_thirty_one_go.Social.History.{
  AllIn, HasRow, Orders, count_of, count_of-reverse, get_lobby_chat_history,
  get_lobby_chat_history-Shown, history_limit, of_lobby_messages, stored_in,
}
use fifteen_thirty_one_go.Social.Posted.{Plays, Posted, send_lobby_chat_message-Posted}
use fifteen_thirty_one_go.Social.Spectators.{is_spectating}
use fifteen_thirty_one_go.Store.Games.{update}
use fifteen_thirty_one_go.Store.Moves.{is_user_in_game}
use fifteen_thirty_one_go.Store.Players.{find_player}
use fifteen_thirty_one_go.Tests.Table.{in_play, store_of}

abbrev anna_name : Text
anna_name = b'A' ∷ b'n' ∷ b'n' ∷ b'a' ∷ []

abbrev hello : Text
hello = b'H' ∷ b'i' ∷ []

-- A message of another lobby, and the one that Anna sends.
abbrev elsewhere : ChatMessage
elsewhere = record {
  id = 1;
  lobby_id = 6;
  user_id = none;
  username = anna_name;
  message = hello;
  message_type = system_message;
}

abbrev lounge : Social
lounge = record {
  db = store_of in_play;
  names = update (λ _. none) 20 (some anna_name);
  allow_spectators = λ _. true;
  spectators = (5, 30) ∷ [];
  messages = elsewhere ∷ [];
  told = [];
}

abbrev greeting : ChatMessage
greeting = record {
  id = 2;
  lobby_id = 5;
  user_id = some 20;
  username = anna_name;
  message = hello;
  message_type = chat_message;
}

abbrev greeted : Social
greeted = record lounge {
  messages = elsewhere ∷ greeting ∷ [];
  told = (5, lobby_chat greeting) ∷ [];
}

greets : send_lobby_chat_message true lounge 5 20 (b' ' ∷ hello) ≡ (greeted, ok greeting)
unfolding send_lobby_chat_message checked_chat post valid_message name_of is_participant trim_space
    count_from is_user_in_game find_player
greets = refl

send_lobby_chat_message-Posted_example : Posted true lounge greeted 5 20 (b' ' ∷ hello) greeting
send_lobby_chat_message-Posted_example =
    send_lobby_chat_message-Posted true lounge greeted 5 20 (b' ' ∷ hello) greeting greets

in_order : Orders reverse
in_order = count_of-reverse

-- A spectator reads the chat.
read_it : get_lobby_chat_history reverse greeted 5 30 (some (pos 50)) ≡ ok (greeting ∷ [])
unfolding get_lobby_chat_history of_lobby_messages history_limit count_from is_user_in_game
    find_player is_spectating
read_it = refl

get_lobby_chat_history-Shown_example :
    (Plays greeted.db 5 30 ⊎ HasRow (5, 30) greeted.spectators)
    × AllIn 5 (greeting ∷ [])
    × (length (greeting ∷ []) ≤ 200)
    × ((test : ChatMessage → Bool)
        → count_of test (greeting ∷ []) ≤ count_of (stored_in 5 test) greeted.messages)
    × (count_of (λ m. m.lobby_id == 5) greeted.messages ≤ history_limit (some (pos 50))
        → (test : ChatMessage → Bool)
        → count_of test (greeting ∷ []) ≡ count_of (stored_in 5 test) greeted.messages)
get_lobby_chat_history-Shown_example =
    get_lobby_chat_history-Shown reverse greeted 5 30 (some (pos 50)) (greeting ∷ []) in_order
      read_it
