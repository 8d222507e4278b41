-- ===== src/Lobbies/Bots.antt =====
-- A bot that the host adds, and a lobby that is created, keep the seating.
use fifteen_thirty_one_go.Shared.{
  >>=-eq-ok, Bool-cases, List, Option, Option-cases, Outcome, [], ap, arith, err, false, inl, inr,
  ltb, ok, ok_injective, panic, refl, some, subst, suc, true, zero, ℕ, ◌>>=◌, ◌∙◌, ◌∷◌, ◌≡◌,
}
use fifteen_thirty_one_go.Cards.Text.{Text}
use fifteen_thirty_one_go.Lobbies.AddBot.{
  Placed, add_bot, as_full, bot_end, bot_game, bot_in, bot_known, bot_name, chosen_difficulty,
  create_bot, host_check, insert_user, name_taken, place_bot,
}
use fifteen_thirty_one_go.Lobbies.Capacity.{
  add_game_player-Seating, latest_game-lobby_of, persist_hand-Seating,
}
use fifteen_thirty_one_go.Lobbies.Invariant.{Keeps, aligned-Seating}
use fifteen_thirty_one_go.Lobbies.Sync.{persist_hand}
use fifteen_thirty_one_go.Moves.World.{World}
use fifteen_thirty_one_go.Store.Games.{
  ApiError, BotDifficulty, Db, LobbyRow, easy, hard, medium, unknown_difficulty,
}
use fifteen_thirty_one_go.Store.Players.{add_game_player_auto_position}
use fifteen_thirty_one_go.Store.Seated.{SameHouse-fields}
use fifteen_thirty_one_go.Store.Seating.{Seating, Seating-same, lobby_of, size_of}
use fifteen_thirty_one_go.Store.Seats.{get_lobby_by_id, latest_game}

-- A user row says nothing about games and lobbies.
insert_user-Seating : (db : Db) (name : Text) → Seating db → Seating (insert_user db name).0
unfolding insert_user
insert_user-Seating db name h =
    Seating-same db (insert_user db name).0 h
      (SameHouse-fields db (insert_user db name).0 refl refl refl refl) refl

-- What a new user leaves as it is.
abbrev SameTables : Db → Db → Type 0
SameTables db db' = (db'.games ≡ db.games) × (db'.lobbies ≡ db.lobbies)

same-lobby_of :
    (db db' : Db) (game : ℕ) → db'.games ≡ db.games → lobby_of db' game ≡ lobby_of db game
same-lobby_of db db' game e = rw e refl

same-size_of :
    (db db' : Db) (lobby : ℕ) (l : LobbyRow)
    → db'.lobbies ≡ db.lobbies
    → db.lobbies lobby ≡ some l
    → size_of db' lobby ≡ some l.max_players
same-size_of db db' lobby l e found = ground (arith, ap (λ f. f lobby) e)

create_bot-Seating :
    (left : ℕ) (db : Db) (diff : BotDifficulty) (lobby : ℕ) (suffixes : List Text)
    (made : Db × (ℕ × Text))
    → Seating db
    → create_bot left db diff lobby suffixes ≡ ok made
    → Seating made.0 × SameTables db made.0
unfolding create_bot insert_user
create_bot-Seating zero db diff lobby suffixes made h e = absurd (cc)
create_bot-Seating (suc left) db diff lobby [] made h e = absurd (cc)
create_bot-Seating (suc left) db diff lobby (suffix ∷ []) made h e = absurd (cc)
create_bot-Seating (suc left) db diff lobby (suffix ∷ password ∷ suffixes) made h e =
    let name = bot_name diff lobby suffix in
    elim (Bool-cases (name_taken name db.usernames)) [
      | inl taken ↦ elim (Bool-cases (ltb 0 left)) [
        | inl more ↦
            create_bot-Seating left db diff lobby suffixes made h
              (rw (taken, create_bot, more) at e)
        | inr last ↦ absurd (cc (rw (taken, create_bot, last) at e))
      ]
      | inr free ↦
          subst (λ (m : Db × (ℕ × Text)). Seating m.0 × SameTables db m.0)
            (ok_injective (rw (free, create_bot) at e))
            (insert_user-Seating db name h, (refl, refl))
    ]

as_full-ok : (r : Outcome ApiError (Db × ℕ)) (a : Db × ℕ) → as_full r ≡ ok a → r ≡ ok a
unfolding as_full
as_full-ok (ok x) a h = h
as_full-ok (err e) a h = absurd (ground arith)
as_full-ok panic a h = absurd (cc)

place_bot-Seating :
    (db : Db) (lobby game : ℕ) (l : LobbyRow) (diff : BotDifficulty) (suffixes : List Text)
    (b : Placed)
    → Seating db
    → db.lobbies lobby ≡ some l
    → lobby_of db game ≡ some lobby
    → place_bot db lobby game l diff suffixes ≡ ok b
    → Seating b.seen.db
unfolding place_bot
place_bot-Seating db lobby game l diff suffixes b h found home done =
    let ((db1, (id, name)), m, rest) =
      >>=-eq-ok (create_bot 5 db diff lobby suffixes)
        (λ made. do
          added ←
              as_full
                (add_game_player_auto_position made.0 game made.1.0 l.max_players true (some diff))
          seen ← persist_hand added.0 game made.1.0 added.1 false
          ok (record { bot_id = made.1.0; name = made.1.1; place = added.1; seen = seen }))
        done in
    let ((db2, place), a, rest2) =
      >>=-eq-ok (as_full (add_game_player_auto_position db1 game id l.max_players true (some diff)))
        (λ added. do
          seen ← persist_hand added.0 game id added.1 false
          ok (record { bot_id = id; name = name; place = added.1; seen = seen }))
        rest in
    let (seen, persisted, last) =
      >>=-eq-ok (persist_hand db2 game id place false)
        (λ seen. ok (record { bot_id = id; name = name; place = place; seen = seen })) rest2 in
    let (h1, (games, lobbies)) =
      create_bot-Seating 5 db diff lobby suffixes (db1, (id, name)) h m in
    let size : size_of db1 lobby ≡ some l.max_players = same-size_of db db1 lobby l lobbies found in
    let home1 : lobby_of db1 game ≡ some lobby = same-lobby_of db db1 game games ∙ home in
    let h2 =
      add_game_player-Seating db1 db2 game lobby id l.max_players place true (some diff) h1 home1
        size
        (as_full-ok (add_game_player_auto_position db1 game id l.max_players true (some diff))
          (db2, place) a) in
    subst (λ (x : Placed). Seating x.seen.db) (ok_injective last)
      (persist_hand-Seating db2 game id place false seen h2 persisted)

module _ (db : Db) (lobby user : ℕ) (suffixes : List Text) where
  bot_found-Seating :
      (diff : BotDifficulty) (game : ℕ) (l : LobbyRow) (r : ℕ × Placed)
      → Seating db
      → db.lobbies lobby ≡ some l
      → latest_game db lobby ≡ some game
      → place_bot db lobby game l diff suffixes >>= (λ placed. ok (game, placed)) ≡ ok r
      → Seating r.1.seen.db
  bot_found-Seating diff game l r h found newest done =
      let (b, placed, last) =
        >>=-eq-ok (place_bot db lobby game l diff suffixes) (λ placed. ok (game, placed)) done in
      subst (λ (x : ℕ × Placed). Seating x.1.seen.db) (ok_injective last)
        (place_bot-Seating db lobby game l diff suffixes b h found
          (latest_game-lobby_of db lobby game newest) placed)

  get_lobby-found : (l : LobbyRow) → get_lobby_by_id db lobby ≡ ok l → db.lobbies lobby ≡ some l
  unfolding get_lobby_by_id
  get_lobby-found l e = elim (Option-cases (db.lobbies lobby)) [
    | inl m ↦ absurd (ground arith)
    | inr (x, f) ↦ f ∙ ap (λ v. some v) (ok_injective (rw (f, get_lobby_by_id) at e))
  ]

  bot_game-Seating :
      (l : LobbyRow) (diff : BotDifficulty) (r : ℕ × Placed)
      → Seating db
      → db.lobbies lobby ≡ some l
      → bot_game db lobby l diff suffixes ≡ ok r
      → Seating r.1.seen.db
  unfolding bot_game
  bot_game-Seating l diff r h found done = elim (Option-cases (latest_game db lobby)) [
    | inl m ↦ absurd (cc (rw (m, bot_game) at done))
    | inr (game, m) ↦ bot_found-Seating diff game l r h found m (rw (m, bot_game) at done)
  ]

  bot_known-Seating :
      (diff : BotDifficulty) (r : ℕ × Placed)
      → Seating db
      → bot_known db lobby user diff suffixes ≡ ok r
      → Seating r.1.seen.db
  unfolding bot_known
  bot_known-Seating diff r h done =
      let (l, found, rest) =
        >>=-eq-ok (get_lobby_by_id db lobby)
          (λ l. do _ ← host_check user l; bot_game db lobby l diff suffixes) done in
      let (_, checked, last) =
        >>=-eq-ok (host_check user l) (λ _. bot_game db lobby l diff suffixes) rest in
      bot_game-Seating l diff r h (get_lobby-found l found) last

  pub bot_in-Seating :
      (diff : BotDifficulty) (r : ℕ × Placed)
      → Seating db
      → bot_in db lobby user diff suffixes ≡ ok r
      → Seating r.1.seen.db
  unfolding bot_in
  bot_in-Seating easy r h e = bot_known-Seating easy r h e
  bot_in-Seating medium r h e = bot_known-Seating medium r h e
  bot_in-Seating hard r h e = bot_known-Seating hard r h e
  bot_in-Seating unknown_difficulty r h e = absurd (cc)

bot_end-Seating :
    (w : World) (others : World → World) (r : Outcome ApiError (ℕ × Placed))
    → Keeps others
    → Seating w.db
    → ((x : ℕ × Placed) → r ≡ ok x → Seating x.1.seen.db)
    → Seating (bot_end w others r).0.db
unfolding bot_end
bot_end-Seating w others (ok (game, b)) keep h seated =
    aligned-Seating w others game b.place b.seen keep (seated (game, b) refl)
bot_end-Seating w others (err x) keep h seated = h
bot_end-Seating w others panic keep h seated = h

-- A bot is added on the next free position only: the positions stay without gaps, and no game gets more
-- players than its lobby has places.
pub add_bot-Seating :
    (w : World) (others : World → World) (lobby user : ℕ) (diff : Option BotDifficulty)
    (suffixes : List Text)
    → Keeps others
    → Seating w.db
    → Seating (add_bot w others lobby user diff suffixes).0.db
unfolding add_bot
add_bot-Seating w others lobby user diff suffixes keep h =
    bot_end-Seating w others (bot_in w.db lobby user (chosen_difficulty diff) suffixes) keep h
      (λ x e. bot_in-Seating w.db lobby user suffixes (chosen_difficulty diff) x h e)
