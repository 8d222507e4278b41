-- ===== src/Store/Seating.antt =====
-- The rows of game_players beside their games and lobbies: positions without gaps, and no game with
-- more players than its lobby has places.
use fifteen_thirty_one_go.Shared.{
  List, Option, [], arith, length, none, refl, some, suc, sym, ℕ, ◌++◌, ◌+◌, ◌<◌, ◌∙◌, ◌∷◌, ◌≡◌,
  ◌≤◌,
}
use fifteen_thirty_one_go.Engine.State.{players}
use fifteen_thirty_one_go.Store.Games.{Db, GamePlayer}
use fifteen_thirty_one_go.Store.Players.{next_position}

-- The positions count up from a number.
abbrev pub SeatedFrom : ℕ → List GamePlayer → Type 0
SeatedFrom k [] = Unit
SeatedFrom k (p ∷ ps) = (p.position ≡ k) × SeatedFrom (suc k) ps

abbrev pub size_of : Db → ℕ → Option ℕ
size_of db lobby = elim (db.lobbies lobby) [ none ↦ none | some l ↦ some l.max_players ]

abbrev pub lobby_of : Db → ℕ → Option ℕ
lobby_of db game = elim (db.games game) [ none ↦ none | some row ↦ some row.lobby_id ]

pub record Seating (db : Db) : Type 0 where
  pub seated : (game : ℕ) → SeatedFrom 0 (db.players_of game)
  pub fits :
      (game lobby n : ℕ)
      → lobby_of db game ≡ some lobby
      → size_of db lobby ≡ some n
      → length (db.players_of game) ≤ n
  pub owned : (game lobby : ℕ) → lobby_of db game ≡ some lobby → lobby ≤ db.last_lobby
  pub no_later_lobby : (lobby : ℕ) → db.last_lobby < lobby → size_of db lobby ≡ none
  pub no_later_game : (game : ℕ) → db.last_game < game → lobby_of db game ≡ none
  pub no_later_player : (game : ℕ) → db.last_game < game → db.players_of game ≡ []

-- Two databases with the same games in the same lobbies, of the same sizes.
pub record SameHouse (db db' : Db) : Type 0 where
  pub same_size : (lobby : ℕ) → size_of db' lobby ≡ size_of db lobby
  pub same_lobby : (game : ℕ) → lobby_of db' game ≡ lobby_of db game
  pub same_last_lobby : db'.last_lobby ≡ db.last_lobby
  pub same_last_game : db'.last_game ≡ db.last_game

pub Seating-kept :
    (db db' : Db)
    → Seating db
    → SameHouse db db'
    → ((game : ℕ) → SeatedFrom 0 (db'.players_of game))
    → ((game lobby n : ℕ)
        → lobby_of db game ≡ some lobby
        → size_of db lobby ≡ some n
        → length (db'.players_of game) ≤ n)
    → ((game : ℕ) → db.last_game < game → db'.players_of game ≡ [])
    → Seating db'
Seating-kept db db' h same seats fit later = record {
  seated = seats;
  fits = λ game lobby n e e'.
      fit game lobby n (sym (same.same_lobby game) ∙ e) (sym (same.same_size lobby) ∙ e');
  owned =
      λ game lobby e. rw same.same_last_lobby (h.owned game lobby (sym (same.same_lobby game) ∙ e));
  no_later_lobby =
      λ lobby l. same.same_size lobby ∙ h.no_later_lobby lobby (rw same.same_last_lobby at l);
  no_later_game =
      λ game l. same.same_lobby game ∙ h.no_later_game game (rw same.same_last_game at l);
  no_later_player = λ game l. later game (rw same.same_last_game at l);
}

-- A change that leaves the players alone.
pub Seating-same :
    (db db' : Db) → Seating db → SameHouse db db' → db'.players_of ≡ db.players_of → Seating db'
Seating-same db db' h same players =
    Seating-kept db db' h same (λ game. rw players (h.seated game))
      (λ game lobby n e e'. rw players (h.fits game lobby n e e'))
      (λ game l. rw players (h.no_later_player game l))

next_position-Seated :
    (k : ℕ) (p : GamePlayer) (ps : List GamePlayer)
    → SeatedFrom k (p ∷ ps)
    → next_position (p ∷ ps) ≡ k + length (p ∷ ps)
unfolding next_position
next_position-Seated k p [] h = ground arith
next_position-Seated k p (q ∷ ps) h = ground (arith, next_position-Seated (suc k) q ps h.1)

pub next_position-length : (ps : List GamePlayer) → SeatedFrom 0 ps → next_position ps ≡ length ps
unfolding next_position
next_position-length [] h = refl
next_position-length (p ∷ ps) h = omega (arith, next_position-Seated 0 p ps h)

pub SeatedFrom-append :
    (k : ℕ) (ps : List GamePlayer) (p : GamePlayer)
    → SeatedFrom k ps
    → p.position ≡ k + length ps
    → SeatedFrom k (ps ++ p ∷ [])
SeatedFrom-append k [] p h e = (omega (arith, e), tt)
SeatedFrom-append k (q ∷ ps) p h e = (h.0, SeatedFrom-append (suc k) ps p h.1 (omega (arith, e)))
