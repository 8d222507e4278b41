-- ===== src/Store/Seated.antt =====
-- The statements of joining and of dealing keep the seating.
use mathlib.Core.Option.{some-injective}
use fifteen_thirty_one_go.Shared.{
  ==_iff, Bool-cases, List, Option-cases, [], ap, arith, inl, inr, length, length-append, ok,
  ok_injective, refl, some, subst, suc, sym, ℕ, ◌&&◌, ◌++◌, ◌+◌, ◌<◌, ◌==◌, ◌∙◌, ◌∷◌, ◌≡◌, ◌≤◌,
}
use fifteen_thirty_one_go.Cards.{Card}
use fifteen_thirty_one_go.Engine.State.{State}
use fifteen_thirty_one_go.Store.Games.{
  Db, GamePlayer, GameRow, LobbyRow, marshal_state, update, update_game_state,
}
use fifteen_thirty_one_go.Store.Lobbies.{join_lobby, join_lobby-Joined}
use fifteen_thirty_one_go.Store.Players.{
  is_empty_hand, update_player_hand_if_empty, write_empty_hand,
}
use fifteen_thirty_one_go.Store.Seating.{
  SameHouse, SeatedFrom, SeatedFrom-append, Seating, Seating-kept, Seating-same, lobby_of, size_of,
}
use fifteen_thirty_one_go.Store.Seats.{after_players_insert, count_players, insert_player}

pub SameHouse-fields :
    (db db' : Db)
    → db'.games ≡ db.games
    → db'.lobbies ≡ db.lobbies
    → db'.last_lobby ≡ db.last_lobby
    → db'.last_game ≡ db.last_game
    → SameHouse db db'
SameHouse-fields db db' games lobbies last_lobby last_game = record {
  same_size = λ lobby. rw lobbies refl;
  same_lobby = λ game. rw games refl;
  same_last_lobby = last_lobby;
  same_last_game = last_game;
}

SameHouse-refl : (db : Db) → SameHouse db db
SameHouse-refl db = SameHouse-fields db db refl refl refl refl

-- The trigger writes a count to one lobby.
module _ (db : Db) (game : ℕ) where
  after_players_insert-SameHouse : SameHouse db (after_players_insert db game)
  unfolding after_players_insert
  after_players_insert-SameHouse = elim (Option-cases (db.games game)) [
    | inl e ↦ rw (e, after_players_insert) (SameHouse-refl db)
    | inr (row, e) ↦ elim (Option-cases (db.lobbies row.lobby_id)) [
      | inl e' ↦ rw (e, after_players_insert, e') (SameHouse-refl db)
      | inr (l, e') ↦
          rw (e, after_players_insert, e')
            (record {
              same_size = λ lobby. elim (Bool-cases (row.lobby_id == lobby)) [
                | inl s ↦ ground arith
                | inr s ↦ ground arith
              ];
              same_lobby = λ g. refl;
              same_last_lobby = refl;
              same_last_game = refl;
            })
    ]
  ]

  after_players_insert-players : (after_players_insert db game).players_of ≡ db.players_of
  unfolding after_players_insert
  after_players_insert-players = elim (Option-cases (db.games game)) [
    | inl e ↦ ground arith
    | inr (row, e) ↦ elim (Option-cases (db.lobbies row.lobby_id)) [
      | inl e' ↦ ground arith
      | inr (l, e') ↦ ground arith
    ]
  ]

-- A new player leaves the games, and stands last.
pub insert_player-games :
    (db : Db) (game : ℕ) (p : GamePlayer)
    → ((insert_player db game p).games ≡ db.games)
      × ((insert_player db game p).last_game ≡ db.last_game)
      × ((insert_player db game p).players_of game ≡ db.players_of game ++ p ∷ [])
unfolding insert_player after_players_insert
insert_player-games db game p = elim (Option-cases (db.games game)) [
  | inl e ↦ rw (e, after_players_insert) (refl, refl, ground arith)
  | inr (row, e) ↦ elim (Option-cases (db.lobbies row.lobby_id)) [
    | inl e' ↦ rw (e, after_players_insert, e') (refl, refl, ground arith)
    | inr (l, e') ↦ rw (e, after_players_insert, e') (refl, refl, ground arith)
  ]
]

-- What the trigger writes, where the game and its lobby are there.
pub after_players_insert-counts :
    (db : Db) (game : ℕ) (row : GameRow) (l : LobbyRow)
    → db.games game ≡ some row
    → db.lobbies row.lobby_id ≡ some l
    → let counted : LobbyRow = record l { current_players = count_players db row.lobby_id } in
      after_players_insert db game
      ≡ record db { lobbies = update db.lobbies row.lobby_id (some counted) }
unfolding after_players_insert
after_players_insert-counts db game row l e e' = rw (e, after_players_insert, e') refl

-- A new player on the next position of a game that has a place left.
pub insert_player-Seating :
    (db : Db) (game lobby n : ℕ) (p : GamePlayer)
    → Seating db
    → lobby_of db game ≡ some lobby
    → size_of db lobby ≡ some n
    → p.position ≡ length (db.players_of game)
    → length (db.players_of game) < n
    → Seating (insert_player db game p)
unfolding insert_player
insert_player-Seating db game lobby n p h home size place room =
    let db' : Db = record db {
      players_of = update db.players_of game (db.players_of game ++ p ∷ []);
    } in
    let seats : (g : ℕ) → SeatedFrom 0 (db'.players_of g) = λ g. elim (Bool-cases (game == g)) [
      | inl e ↦
          rw e (SeatedFrom-append 0 (db.players_of game) p (h.seated game) (omega (arith, place)))
      | inr e ↦ rw e (h.seated g)
    ] in
    let fit : (g lob m : ℕ)
        → lobby_of db g ≡ some lob
        → size_of db lob ≡ some m
        → length (db'.players_of g) ≤ m =
      λ g lob m e e'. elim (Bool-cases (game == g)) [
        | inl same ↦
            let there = (==_iff game g).0 same in
            let lobby_is = some-injective lobby lob (sym home ∙ ap (lobby_of db) there ∙ e) in
            let size_is = some-injective n m (sym size ∙ ap (size_of db) lobby_is ∙ e') in
            rw same (omega (arith, length-append {0} (db.players_of game) (p ∷ []), size_is, room))
        | inr other ↦ rw other (h.fits g lob m e e')
      ] in
    let later : (g : ℕ) → db.last_game < g → db'.players_of g ≡ [] = λ g l.
      elim (Bool-cases (game == g)) [
        | inl same ↦
            let there = (==_iff game g).0 same in
            absurd (cc (sym home ∙ ap (lobby_of db) there ∙ h.no_later_game g l))
        | inr other ↦ rw other (h.no_later_player g l)
      ] in
    let widened : Seating db' =
      Seating-kept db db' h (SameHouse-fields db db' refl refl refl refl) seats fit later in
    Seating-same db' (after_players_insert db' game) widened
      (after_players_insert-SameHouse db' game) (after_players_insert-players db' game)

write_empty_hand-Seated :
    (user : ℕ) (hand : List Card) (k : ℕ) (ps : List GamePlayer)
    → SeatedFrom k ps
    → SeatedFrom k (write_empty_hand user hand ps)
      × (length (write_empty_hand user hand ps) ≡ length ps)
unfolding write_empty_hand
write_empty_hand-Seated user hand k [] h = (tt, refl)
write_empty_hand-Seated user hand k (p ∷ ps) h =
    let (rest, same) = write_empty_hand-Seated user hand (suc k) ps h.1 in
    elim (Bool-cases (p.user_id == user && is_empty_hand p.hand)) [
      | inl e ↦ rw e ((h.0, rest), ap suc same)
      | inr e ↦ rw e ((h.0, rest), ap suc same)
    ]

-- A hand that is stored moves nobody.
pub update_player_hand_if_empty-Seating :
    (db : Db) (game user : ℕ) (hand : List Card)
    → Seating db
    → Seating (update_player_hand_if_empty db game user hand)
unfolding update_player_hand_if_empty write_empty_hand
update_player_hand_if_empty-Seating db game user hand h =
    let db' = update_player_hand_if_empty db game user hand in
    let kept = write_empty_hand-Seated user hand 0 (db.players_of game) (h.seated game) in
    Seating-kept db db' h (SameHouse-fields db db' refl refl refl refl)
      (λ g. elim (Bool-cases (game == g)) [ inl e ↦ rw e kept.0 | inr e ↦ rw e (h.seated g) ])
      (λ g lobby n e e'. elim (Bool-cases (game == g)) [
        | inl same ↦
            let there = sym ((==_iff game g).0 same) in
            rw same
              (omega (arith, kept.1, h.fits game lobby n (ap (lobby_of db) (sym there) ∙ e) e'))
        | inr other ↦ rw other (h.fits g lobby n e e')
      ])
      (λ g l. elim (Bool-cases (game == g)) [
        | inl same ↦
            let there = (==_iff game g).0 same in
            let empty = ap db.players_of there ∙ h.no_later_player g l in
            rw same (ap (λ ps. write_empty_hand user hand ps) empty)
        | inr other ↦ rw other (h.no_later_player g l)
      ])

-- The state of a game that is stored leaves it in its lobby.
pub update_game_state-Seating :
    (db db' : Db) (game : ℕ) (s : State)
    → Seating db
    → update_game_state db game s ≡ ok db'
    → Seating db'
unfolding update_game_state
update_game_state-Seating db db' game s h e = elim (Option-cases (db.games game)) [
  | inl missing ↦ absurd (ground arith)
  | inr (row, found) ↦
      let same = ok_injective (rw (found, update_game_state) at e) in
      subst (λ d. Seating d) same
        (Seating-same db
          (record db {
            games = update db.games game (
                some (record row {
                  state_json = marshal_state s;
                  state_version = row.state_version + 1;
                }));
          })
          h
          (record {
            same_size = λ lobby. refl;
            same_lobby = λ g. elim (Bool-cases (game == g)) [
              | inl there ↦ ground arith
              | inr other ↦ ground arith
            ];
            same_last_lobby = refl;
            same_last_game = refl;
          })
          refl)
]

-- A player more in a lobby leaves its size.
pub join_lobby-Seating :
    (db db' : Db) (lobby : ℕ) (l : LobbyRow)
    → Seating db
    → join_lobby db lobby ≡ ok (db', l)
    → Seating db'
      × (lobby_of db' ≡ lobby_of db)
      × (size_of db' lobby ≡ some l.max_players)
      × (db'.players_of ≡ db.players_of)
join_lobby-Seating db db' lobby l h e =
    let (before, j) = join_lobby-Joined db db' lobby l e in
    let middle : Db = record db { lobbies = update db.lobbies lobby (some l) } in
    let size : l.max_players ≡ before.max_players =
      ap (λ (r : LobbyRow). r.max_players) j.one_more in
    let same : SameHouse db middle = record {
      same_size = λ i. elim (Bool-cases (lobby == i)) [
        | inl there ↦
            let at_i = ap db.lobbies (sym ((==_iff lobby i).0 there)) ∙ j.found in
            ground (arith, at_i, size)
        | inr other ↦ ground arith
      ];
      same_lobby = λ g. refl;
      same_last_lobby = refl;
      same_last_game = refl;
    } in
    subst
      (λ (d : Db).
        Seating d
        × (lobby_of d ≡ lobby_of db)
        × (size_of d lobby ≡ some l.max_players)
        × (d.players_of ≡ db.players_of))
      (sym j.written) (Seating-same db middle h same refl, refl, ground arith, refl)
