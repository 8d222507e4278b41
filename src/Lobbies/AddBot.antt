-- ===== src/Lobbies/AddBot.antt =====
-- AddBotToLobbyHandler of internal/handlers/lobby.go. The random suffixes are texts that the generator
-- gives, or nothing where it fails: one for the name and one for the password of each attempt. Hashing
-- the password does not fail. Nothing comes between the read of the lobby and the transaction.
use fifteen_thirty_one_go.Shared.{
  Bool, List, Option, Outcome, [], err, false, if◌then◌else◌, ltb, none, not, ok, panic, some, suc,
  true, zero, ℕ, ◌++◌, ◌+◌, ◌==◌, ◌>>=◌, ◌||◌, ◌∷◌,
}
use fifteen_thirty_one_go.Cards.Text.{Text, decimal, text_eq}
use fifteen_thirty_one_go.Lobbies.Sync.{Seen, aligned, persist_hand}
use fifteen_thirty_one_go.Moves.World.{World}
use fifteen_thirty_one_go.Store.Games.{
  ApiError, BotDifficulty, Db, LobbyRow, could_not_allocate_position, easy, hard, internal_error,
  invalid_difficulty, lobby_finished, lobby_full, lobby_in_progress, lobby_not_joinable,
  lobby_waiting, medium, no_rows, only_host, unique_constraint, unknown_difficulty,
}
use fifteen_thirty_one_go.Store.Players.{add_game_player_auto_position}
use fifteen_thirty_one_go.Store.Seats.{get_lobby_by_id, latest_game}

pub record BotAnswer : Type 0 where
  pub game_id : ℕ
  pub bot_user_id : ℕ
  pub bot_username : Text
  pub place : ℕ

unfoldable pub difficulty_text : BotDifficulty → Text
difficulty_text easy = b'e' ∷ b'a' ∷ b's' ∷ b'y' ∷ []
difficulty_text medium = b'm' ∷ b'e' ∷ b'd' ∷ b'i' ∷ b'u' ∷ b'm' ∷ []
difficulty_text hard = b'h' ∷ b'a' ∷ b'r' ∷ b'd' ∷ []
difficulty_text unknown_difficulty = []

-- `fmt.Sprintf("bot_%s_%d_%s", diff, lobbyID, suf)`.
unfoldable pub bot_name : BotDifficulty → ℕ → Text → Text
unfolding difficulty_text
bot_name diff lobby suffix =
    (b'b' ∷ b'o' ∷ b't' ∷ b'_' ∷ difficulty_text diff)
    ++ ((b'_' ∷ decimal lobby) ++ (b'_' ∷ suffix))

unfoldable pub name_taken : Text → List Text → Bool
name_taken name [] = false
name_taken name (n ∷ names) = text_eq n name || name_taken name names

-- INSERT INTO users, where the name is free.
unfoldable pub insert_user : Db → Text → Db × ℕ
insert_user db name =
    (record db { usernames = name ∷ db.usernames; last_user = db.last_user + 1 }, db.last_user + 1)

-- The attempts that are left; a taken name ends the last one with an error.
unfoldable pub create_bot :
    ℕ → Db → BotDifficulty → ℕ → List Text → Outcome ApiError (Db × (ℕ × Text))
create_bot zero db diff lobby suffixes = err internal_error
create_bot (suc left) db diff lobby [] = err internal_error
create_bot (suc left) db diff lobby (suffix ∷ []) = err internal_error
create_bot (suc left) db diff lobby (suffix ∷ password ∷ suffixes) =
    let rest = create_bot left db diff lobby suffixes in
    let name = bot_name diff lobby suffix in
    if name_taken name db.usernames
    then (if ltb 0 left then rest else err unique_constraint)
    else ok ((insert_user db name).0, ((insert_user db name).1, name))

pub record Placed : Type 0 where
  pub bot_id : ℕ
  pub name : Text
  pub place : ℕ
  pub seen : Seen

-- An empty difficulty is easy; `unknown_difficulty` is any other text.
abbrev pub chosen_difficulty : Option BotDifficulty → BotDifficulty
chosen_difficulty none = easy
chosen_difficulty (some d) = d

-- No position that is free is told as a full lobby, any other error as it is.
unfoldable pub as_full : Outcome ApiError (Db × ℕ) → Outcome ApiError (Db × ℕ)
as_full (ok r) = ok r
as_full (err could_not_allocate_position) = err lobby_full
as_full (err e) = err e
as_full panic = panic

-- The transaction.
unfoldable pub place_bot :
    Db → ℕ → ℕ → LobbyRow → BotDifficulty → List Text → Outcome ApiError Placed
unfolding create_bot as_full
place_bot db lobby game l diff suffixes = do
  made ← create_bot 5 db diff lobby suffixes
  added ←
      as_full (add_game_player_auto_position made.0 game made.1.0 l.max_players true (some diff))
  seen ← persist_hand added.0 game made.1.0 added.1 false
  ok (record { bot_id = made.1.0; name = made.1.1; place = added.1; seen = seen })

unfoldable pub host_check : ℕ → LobbyRow → Outcome ApiError (Unit {0})
host_check user l = if not (l.host_id == user) then err only_host else elim l.status [
  | lobby_waiting ↦ ok tt
  | lobby_in_progress ↦ err lobby_not_joinable
  | lobby_finished ↦ err lobby_not_joinable
]

-- The latest game of the lobby, in the transaction.
unfoldable pub bot_game :
    Db → ℕ → LobbyRow → BotDifficulty → List Text → Outcome ApiError (ℕ × Placed)
unfolding place_bot
bot_game db lobby l diff suffixes = elim (latest_game db lobby) [
  | none ↦ err no_rows
  | some game ↦ place_bot db lobby game l diff suffixes >>= λ placed. ok (game, placed)
]

unfoldable pub bot_known : Db → ℕ → ℕ → BotDifficulty → List Text → Outcome ApiError (ℕ × Placed)
unfolding host_check bot_game
bot_known db lobby user diff suffixes = do
  l ← get_lobby_by_id db lobby
  _ ← host_check user l
  bot_game db lobby l diff suffixes

unfoldable pub bot_in : Db → ℕ → ℕ → BotDifficulty → List Text → Outcome ApiError (ℕ × Placed)
unfolding bot_known
bot_in db lobby user unknown_difficulty suffixes = err invalid_difficulty
bot_in db lobby user easy suffixes = bot_known db lobby user easy suffixes
bot_in db lobby user medium suffixes = bot_known db lobby user medium suffixes
bot_in db lobby user hard suffixes = bot_known db lobby user hard suffixes

unfoldable pub bot_end :
    World → (World → World) → Outcome ApiError (ℕ × Placed) → World × Outcome ApiError BotAnswer
bot_end w others (ok (game, b)) = (
  (aligned w others game b.place b.seen).0,
  ok (record { game_id = game; bot_user_id = b.bot_id; bot_username = b.name; place = b.place }),
)
bot_end w others (err e) = (w, err e)
bot_end w others panic = (w, panic)

unfoldable pub add_bot :
    World
    → (World → World)
    → ℕ
    → ℕ
    → Option BotDifficulty
    → List Text
    → World × Outcome ApiError BotAnswer
unfolding bot_in bot_end
add_bot w others lobby user diff suffixes =
    bot_end w others (bot_in w.db lobby user (chosen_difficulty diff) suffixes)
