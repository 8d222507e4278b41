-- ===== src/Social/Spectators.antt =====
-- The requests of internal/handlers/spectator.go, and who may read the chat.
use fifteen_thirty_one_go.Shared.{
  Bool, List, Option, Outcome, [], err, false, if◌then◌else◌, ltb, none, not, ok, panic, some, true,
  ℕ, ◌&&◌, ◌++◌, ◌==◌, ◌||◌, ◌∷◌,
}
use fifteen_thirty_one_go.Cards.Text.{Text}
use fifteen_thirty_one_go.Social.{
  MessageType, Social, SocialError, Told, already_player, finished_lobby, join_message,
  leave_message, lobby_missing, name_of, not_spectating, player_count, send_system_message,
  spectator_joined, spectator_left, spectators_refused,
}
use fifteen_thirty_one_go.Store.Games.{
  LobbyStatus, lobby_finished, lobby_in_progress, lobby_waiting,
}

unfoldable pub is_spectating : ℕ → ℕ → List (ℕ × ℕ) → Bool
is_spectating lobby user [] = false
is_spectating lobby user (row ∷ rows) =
    (row.0 == lobby && row.1 == user) || is_spectating lobby user rows

-- INSERT INTO lobby_spectators ... ON CONFLICT DO NOTHING.
unfoldable pub insert_spectator : ℕ → ℕ → List (ℕ × ℕ) → List (ℕ × ℕ)
unfolding is_spectating
insert_spectator lobby user rows =
    if is_spectating lobby user rows then rows else rows ++ (lobby, user) ∷ []

-- DELETE FROM lobby_spectators.
unfoldable pub delete_spectator : ℕ → ℕ → List (ℕ × ℕ) → List (ℕ × ℕ)
delete_spectator lobby user [] = []
delete_spectator lobby user (row ∷ rows) =
    let rest = delete_spectator lobby user rows in
    if row.0 == lobby && row.1 == user then rest else row ∷ rest

abbrev pub is_finished : LobbyStatus → Bool
is_finished lobby_waiting = false
is_finished lobby_in_progress = false
is_finished lobby_finished = true

-- The checks of JoinAsSpectator, and the name of the user.
unfoldable pub may_spectate : Social → ℕ → ℕ → Outcome SocialError Text
unfolding name_of
may_spectate s lobby user = elim (s.db.lobbies lobby) [
  | none ↦ err lobby_missing
  | some l ↦
      if is_finished l.status
      then err finished_lobby
      else if not (s.allow_spectators lobby)
      then err spectators_refused
      else if ltb 0 (player_count s.db lobby user)
      then err already_player
      else name_of s user
]

-- " is now spectating" and " stopped spectating" stand after the name.
abbrev pub now_spectating : Text
now_spectating =
    b' ' ∷ b'i' ∷ b's' ∷ b' ' ∷ b'n' ∷ b'o' ∷ b'w' ∷ b' ' ∷ b's' ∷ b'p' ∷ b'e' ∷ b'c' ∷ b't' ∷ b'a'
    ∷ b't' ∷ b'i' ∷ b'n' ∷ b'g' ∷ []

abbrev pub stopped_spectating : Text
stopped_spectating =
    b' ' ∷ b's' ∷ b't' ∷ b'o' ∷ b'p' ∷ b'p' ∷ b'e' ∷ b'd' ∷ b' ' ∷ b's' ∷ b'p' ∷ b'e' ∷ b'c' ∷ b't'
    ∷ b'a' ∷ b't' ∷ b'i' ∷ b'n' ∷ b'g' ∷ []

-- Whether the hub takes the two broadcasts of a request of a spectator.
pub record Takes : Type 0 where
  pub event : Bool
  pub message : Bool

-- The broadcast and the system message, where the hub is there. The message is stored also where its
-- broadcast is dropped.
unfoldable pub announce : Option Takes → Social → ℕ → Told → Text → MessageType → Social
unfolding send_system_message
announce none s lobby event text type = s
announce (some takes) s lobby event text type =
    send_system_message takes.message
      (if takes.event then record s { told = s.told ++ (lobby, event) ∷ [] } else s) lobby text type

unfoldable pub join_as_spectator :
    Option Takes → Social → ℕ → ℕ → Social × Outcome SocialError (Unit {0})
unfolding may_spectate insert_spectator announce
join_as_spectator hub s lobby user = elim (may_spectate s lobby user) [
  | ok name ↦ (
    announce hub (record s { spectators = insert_spectator lobby user s.spectators }) lobby
        (spectator_joined user name) (name ++ now_spectating) join_message,
    ok tt,
  )
  | err e ↦ (s, err e)
  | panic ↦ (s, panic)
]

unfoldable pub leave_as_spectator :
    Option Takes → Social → ℕ → ℕ → Social × Outcome SocialError (Unit {0})
unfolding name_of is_spectating delete_spectator announce
leave_as_spectator hub s lobby user = elim (name_of s user) [
  | ok name ↦
      if is_spectating lobby user s.spectators
      then (
        announce hub (record s { spectators = delete_spectator lobby user s.spectators }) lobby
            (spectator_left user name) (name ++ stopped_spectating) leave_message,
        ok tt,
      )
      else (s, err not_spectating)
  | err e ↦ (s, err e)
  | panic ↦ (s, panic)
]

-- GetSpectators, in the order of joining; who has no row in users is left out.
unfoldable pub get_spectators : Social → ℕ → List (ℕ × ℕ) → List (ℕ × Text)
get_spectators s lobby [] = []
get_spectators s lobby (row ∷ rows) =
    let rest = get_spectators s lobby rows in
    if row.0 == lobby
    then elim (s.names row.1) [ none ↦ rest | some name ↦ (row.1, name) ∷ rest ]
    else rest
