-- ===== src/Social.antt =====
-- internal/handlers/lobby_chat.go and spectator.go: the messages and the spectators of a lobby. The tables
-- of these files stand beside the others; what goes to the hub is kept in order. The name of a user
-- and the column allow_spectators are read only. Whether the hub is there and takes a
-- broadcast, which it drops where its buffer is full or it has stopped, is an argument.
pub mod Spectators
pub mod History
pub mod Posted
pub mod Watching
use fifteen_thirty_one_go.Shared.{
  Bool, List, Option, Outcome, [], err, if◌then◌else◌, length, ltb, none, ok, panic, some, suc,
  zero, ℕ, ◌&&◌, ◌++◌, ◌==◌, ◌>>=◌, ◌∷◌,
}
use fifteen_thirty_one_go.Cards.Text.{Text, trim_space}
use fifteen_thirty_one_go.Store.Games.{Db}
use fifteen_thirty_one_go.Store.Moves.{is_user_in_game}
use fifteen_thirty_one_go.Store.Seats.{active_of_lobby}

pub data MessageType : Type 0 where
  chat_message system_message join_message leave_message : MessageType

pub record ChatMessage : Type 0 where
  pub id : ℕ
  pub lobby_id : ℕ
  pub user_id : Option ℕ
  pub username : Text
  pub message : Text
  pub message_type : MessageType

pub data Told : Type 0 where
  lobby_chat : ChatMessage → Told
  spectator_joined spectator_left : (user : ℕ) (username : Text) → Told

pub data SocialError : Type 0 where
  message_empty message_too_long not_in_lobby lobby_missing finished_lobby : SocialError
  spectators_refused already_player not_spectating internal_server_error : SocialError

-- A broadcast goes to the room of a lobby.
pub record Social : Type 0 where
  pub db : Db
  pub names : ℕ → Option Text
  pub allow_spectators : ℕ → Bool
  pub spectators : List (ℕ × ℕ)
  pub messages : List ChatMessage
  pub told : List (ℕ × Told)

-- The users of the active games of a lobby, counted from the greatest id down.
unfoldable pub count_from : Db → ℕ → ℕ → ℕ → ℕ
count_from db lobby user zero = 0
count_from db lobby user (suc i) =
    let rest = count_from db lobby user i in
    elim (db.games (suc i)) [
      | none ↦ rest
      | some row ↦
          if active_of_lobby lobby row && is_user_in_game db user (suc i) then suc rest else rest
    ]

-- `SELECT COUNT(*) FROM game_players gp JOIN games g ...`.
abbrev pub player_count : Db → ℕ → ℕ → ℕ
player_count db lobby user = count_from db lobby user db.last_game

-- `strings.TrimSpace` and at most 500 bytes.
unfoldable pub valid_message : Text → Outcome SocialError Text
valid_message given = elim (trim_space given) [
  | [] ↦ err message_empty
  | c ∷ cs ↦ if ltb 500 (length (c ∷ cs)) then err message_too_long else ok (c ∷ cs)
]

unfoldable pub name_of : Social → ℕ → Outcome SocialError Text
name_of s user = elim (s.names user) [ none ↦ err internal_server_error | some name ↦ ok name ]

unfoldable pub is_participant : Social → ℕ → ℕ → Outcome SocialError (Unit {0})
is_participant s lobby user = if player_count s.db lobby user == 0 then err not_in_lobby else ok tt

-- An INSERT INTO lobby_messages, with the message that it stores.
abbrev pub new_message : Social → ℕ → Option ℕ → Text → Text → MessageType → ChatMessage
new_message s lobby user name text type = record {
  id = suc (length s.messages);
  lobby_id = lobby;
  user_id = user;
  username = name;
  message = text;
  message_type = type;
}

unfoldable pub post : Bool → Social → ℕ → ChatMessage → Social
post taken s lobby msg = record s {
  messages = s.messages ++ msg ∷ [];
  told = if taken then s.told ++ (lobby, lobby_chat msg) ∷ [] else s.told;
}

-- The checks and the message of SendLobbyChatMessage.
unfoldable pub checked_chat : Social → ℕ → ℕ → Text → Outcome SocialError ChatMessage
unfolding valid_message name_of is_participant
checked_chat s lobby user given = do
  text ← valid_message given
  name ← name_of s user
  _ ← is_participant s lobby user
  ok (new_message s lobby (some user) name text chat_message)

abbrev pub posted :
    Bool → Social → ℕ → Outcome SocialError ChatMessage → Social × Outcome SocialError ChatMessage
posted taken s lobby (ok msg) = (post taken s lobby msg, ok msg)
posted taken s lobby (err e) = (s, err e)
posted taken s lobby panic = (s, panic)

-- SendLobbyChatMessage.
unfoldable pub send_lobby_chat_message :
    Bool → Social → ℕ → ℕ → Text → Social × Outcome SocialError ChatMessage
unfolding checked_chat post
send_lobby_chat_message taken s lobby user given =
    posted taken s lobby (checked_chat s lobby user given)

-- handleLobbyChatWS; the answer says only that there was an error.
unfoldable pub handle_lobby_chat_ws : Bool → Social → ℕ → ℕ → Text → Social
unfolding send_lobby_chat_message
handle_lobby_chat_ws taken s lobby user given = (send_lobby_chat_message taken s lobby user given).0

-- SendSystemMessage.
unfoldable pub send_system_message : Bool → Social → ℕ → Text → MessageType → Social
unfolding post
send_system_message taken s lobby text type =
    post taken s lobby (new_message s lobby none system_name text type)
  where
    system_name : Text
    system_name = b'S' ∷ b'y' ∷ b's' ∷ b't' ∷ b'e' ∷ b'm' ∷ []
