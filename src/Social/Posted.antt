-- ===== src/Social/Posted.antt =====
-- Who may write to the chat of a lobby, and what it stores and sends.
-- A player of an active game of a lobby.
use fifteen_thirty_one_go.Shared.{
  >>=-eq-ok, Bool, Bool-cases, Option-cases, Outcome, [], ap, arith, err, false, inl, inr, length,
  ltb, ok, ok_injective, panic, refl, some, subst, suc, sym, true, zero, ℕ, ◌++◌, ◌==◌, ◌>>=◌, ◌∙◌,
  ◌∷◌, ◌≡◌, ◌≢◌, ◌≤◌,
}
use fifteen_thirty_one_go.Cards.Text.{Text, trim_space}
use fifteen_thirty_one_go.Social.{
  ChatMessage, Social, SocialError, chat_message, checked_chat, count_from, is_participant,
  lobby_chat, name_of, new_message, player_count, post, posted, send_lobby_chat_message,
  valid_message,
}
use fifteen_thirty_one_go.Store.Games.{Db, GameRow}
use fifteen_thirty_one_go.Store.Marked.{stored_last}
use fifteen_thirty_one_go.Store.Moves.{is_user_in_game}
use fifteen_thirty_one_go.Store.Seats.{active_of_lobby}

pub record Plays (db : Db) (lobby user : ℕ) : Type 0 where
  pub game : ℕ
  pub row : GameRow
  pub found : db.games game ≡ some row
  pub active : active_of_lobby lobby row ≡ true
  pub seated : is_user_in_game db user game ≡ true

pub count_from-Plays :
    (db : Db) (lobby user n : ℕ) → count_from db lobby user n ≢ 0 → Plays db lobby user
unfolding count_from
count_from-Plays db lobby user zero h = absurd (h refl)
count_from-Plays db lobby user (suc i) h = elim (Option-cases (db.games (suc i))) [
  | inl f ↦ count_from-Plays db lobby user i (λ z. h (ground arith))
  | inr (row, f) ↦ elim (Bool-cases (active_of_lobby lobby row)) [
    | inr e ↦ count_from-Plays db lobby user i (λ z. h (ground arith))
    | inl e ↦ elim (Bool-cases (is_user_in_game db user (suc i))) [
      | inr e' ↦ count_from-Plays db lobby user i (λ z. h (ground arith))
      | inl e' ↦ record { game = suc i; row = row; found = f; active = e; seated = e' }
    ]
  ]
]

-- What an answered message was and did: its writer plays in the lobby, it has 1 to 500 bytes without space
-- around, it is stored last under the next id, and sent to the lobby's room where the hub takes it.
pub record Posted (hub : Bool) (s s' : Social) (lobby user : ℕ) (given : Text) (msg : ChatMessage)
    : Type 0 where
  pub writer : Plays s.db lobby user
  pub trimmed : msg.message ≡ trim_space given
  pub not_empty : msg.message ≢ []
  pub not_long : length msg.message ≤ 500
  pub by_user : msg.user_id ≡ some user
  pub named : s.names user ≡ some msg.username
  pub next_id : msg.id ≡ suc (length s.messages)
  pub in_lobby : msg.lobby_id ≡ lobby
  pub stored_last : s'.messages ≡ s.messages ++ msg ∷ []
  pub sent_last : hub ≡ true → s'.told ≡ s.told ++ (lobby, lobby_chat msg) ∷ []
  pub same_db : s'.db ≡ s.db

valid_message-ok :
    (given text : Text)
    → valid_message given ≡ ok text
    → (text ≡ trim_space given) × (text ≢ []) × (length text ≤ 500)
unfolding valid_message
valid_message-ok given text h = by_text (trim_space given) refl
  where
    by_text :
        (t : Text)
        → trim_space given ≡ t
        → (text ≡ trim_space given) × (text ≢ []) × (length text ≤ 500)
    by_text [] e = absurd (cc (rw (e, valid_message) at h))
    by_text (c ∷ cs) e = elim (Bool-cases (ltb 500 (length (c ∷ cs)))) [
      | inl long ↦ absurd (cc (rw (e, valid_message, long) at h))
      | inr short ↦
          let is : c ∷ cs ≡ text = ok_injective (rw (e, valid_message, short) at h) in
          (sym is ∙ sym e, λ x. cc (x, is), subst (λ t. length t ≤ 500) is (ground arith))
    ]

name_of-ok :
    (s : Social) (user : ℕ) (name : Text) → name_of s user ≡ ok name → s.names user ≡ some name
unfolding name_of
name_of-ok s user name h = elim (Option-cases (s.names user)) [
  | inl f ↦ absurd (ground arith)
  | inr (n, f) ↦ ground arith
]

is_participant-ok :
    (s : Social) (lobby user : ℕ) → is_participant s lobby user ≡ ok tt → Plays s.db lobby user
unfolding is_participant
is_participant-ok s lobby user h = elim (Bool-cases (player_count s.db lobby user == 0)) [
  | inl e ↦ absurd (ground arith)
  | inr e ↦ count_from-Plays s.db lobby user s.db.last_game (λ z. absurd (ground arith))
]

checked_chat-ok :
    (s : Social) (lobby user : ℕ) (given : Text) (msg : ChatMessage)
    → checked_chat s lobby user given ≡ ok msg
    → (text : Text) × (name : Text) × (valid_message given ≡ ok text)
      × (name_of s user ≡ ok name)
      × (is_participant s lobby user ≡ ok tt)
      × (new_message s lobby (some user) name text chat_message ≡ msg)
unfolding checked_chat
checked_chat-ok s lobby user given msg h =
    let (text, valid, h1) =
      >>=-eq-ok (valid_message given)
        (λ text. name_of s user >>= λ name. is_participant s lobby user >>= λ _.
          ok (new_message s lobby (some user) name text chat_message))
        h in
    let (name, named, h2) =
      >>=-eq-ok (name_of s user)
        (λ name. is_participant s lobby user >>= λ _.
          ok (new_message s lobby (some user) name text chat_message))
        h1 in
    let (u, inside, last) =
      >>=-eq-ok (is_participant s lobby user)
        (λ _. ok (new_message s lobby (some user) name text chat_message)) h2 in
    (text, name, valid, named, inside, ok_injective last)

post-fields :
    (hub : Bool) (s : Social) (lobby : ℕ) (msg : ChatMessage)
    → let p = post hub s lobby msg in
      (p.messages ≡ s.messages ++ msg ∷ [])
      × (hub ≡ true → p.told ≡ s.told ++ (lobby, lobby_chat msg) ∷ [])
      × (p.db ≡ s.db)
unfolding post
post-fields true s lobby msg = (refl, λ _. refl, refl)
post-fields false s lobby msg = (refl, λ h. absurd (cc), refl)

posted-ok :
    (hub : Bool) (s s' : Social) (lobby : ℕ) (r : Outcome SocialError ChatMessage)
    (msg : ChatMessage)
    → posted hub s lobby r ≡ (s', ok msg)
    → (r ≡ ok msg) × (post hub s lobby msg ≡ s')
posted-ok hub s s' lobby (ok m) msg h =
    let same : m ≡ msg =
      ok_injective (ap (λ (x : Social × Outcome SocialError ChatMessage). x.1) h) in
    let state = ap (λ (x : Social × Outcome SocialError ChatMessage). x.0) h in
    (ap ok same, ap (post hub s lobby) (sym same) ∙ state)
posted-ok hub s s' lobby (err e) msg h =
    absurd (cc (ap (λ (x : Social × Outcome SocialError ChatMessage). x.1) h))
posted-ok hub s s' lobby panic msg h =
    absurd (cc (ap (λ (x : Social × Outcome SocialError ChatMessage). x.1) h))

-- An answered chat message is by a player of an active game of the lobby, has 1 to 500 bytes without space
-- around, and is stored once, last, and sent once where the hub takes it.
pub send_lobby_chat_message-Posted :
    (hub : Bool) (s s' : Social) (lobby user : ℕ) (given : Text) (msg : ChatMessage)
    → send_lobby_chat_message hub s lobby user given ≡ (s', ok msg)
    → Posted hub s s' lobby user given msg
unfolding send_lobby_chat_message
send_lobby_chat_message-Posted hub s s' lobby user given msg h =
    let (checked, is) = posted-ok hub s s' lobby (checked_chat s lobby user given) msg h in
    let (text, name, valid, named, inside, made) = checked_chat-ok s lobby user given msg checked in
    let (trimmed, not_empty, short) = valid_message-ok given text valid in
    let (stored_last, sent, same) = post-fields hub s lobby msg in
    let message_is : text ≡ msg.message = ap (λ (x : ChatMessage). x.message) made in
    record {
      writer = is_participant-ok s lobby user inside;
      trimmed = sym message_is ∙ trimmed;
      not_empty = subst (λ t. t ≢ []) message_is not_empty;
      not_long = subst (λ t. length t ≤ 500) message_is short;
      by_user = sym (ap (λ (x : ChatMessage). x.user_id) made);
      named = name_of-ok s user name named ∙ ap (λ (x : ChatMessage). some x.username) made;
      next_id = sym (ap (λ (x : ChatMessage). x.id) made);
      in_lobby = sym (ap (λ (x : ChatMessage). x.lobby_id) made);
      stored_last = sym (ap (λ (x : Social). x.messages) is) ∙ stored_last;
      sent_last = λ there. sym (ap (λ (x : Social). x.told) is) ∙ sent there;
      same_db = sym (ap (λ (x : Social). x.db) is) ∙ same;
    }
