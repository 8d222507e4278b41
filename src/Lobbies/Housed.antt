-- ===== src/Lobbies/Housed.antt =====
-- A new lobby with its game keeps the seating.
use mathlib.Core.Option.{some-injective}
use fifteen_thirty_one_go.Shared.{
  ==_iff, Bool-cases, ap, arith, false, inl, inr, length, none, some, suc, sym, ℕ, ◌<◌, ◌==◌, ◌∙◌,
  ◌≡◌, ◌≢◌, ◌≤◌,
}
use fifteen_thirty_one_go.Cards.Text.{Text}
use fifteen_thirty_one_go.Lobbies.Create.{insert_game, insert_lobby, insert_rows}
use fifteen_thirty_one_go.Store.Games.{Db}
use fifteen_thirty_one_go.Store.Seated.{insert_player-Seating}
use fifteen_thirty_one_go.Store.Seating.{Seating, lobby_of, size_of}
use fifteen_thirty_one_go.Store.Seats.{new_player}

module _ (db : Db) (name : Text) (host size : ℕ) (h : Seating db) where
  abbrev founded : Db
  founded = insert_game (insert_lobby db name host size) (suc db.last_lobby)

  -- An id that was given before is none of the new ones.
  old_size : (lobby : ℕ) → lobby ≤ db.last_lobby → size_of founded lobby ≡ size_of db lobby
  unfolding insert_game insert_lobby
  old_size lobby l = ground arith

  old_lobby : (game : ℕ) → game ≢ suc db.last_game → lobby_of founded game ≡ lobby_of db game
  unfolding insert_game insert_lobby
  old_lobby game l = ground arith

  new_lobby : lobby_of founded (suc db.last_game) ≡ some (suc db.last_lobby)
  unfolding insert_game insert_lobby
  new_lobby = ground arith

  new_size : size_of founded (suc db.last_lobby) ≡ some size
  unfolding insert_game insert_lobby
  new_size = ground arith

  later_size : (lobby : ℕ) → suc db.last_lobby < lobby → size_of founded lobby ≡ size_of db lobby
  unfolding insert_game insert_lobby
  later_size lobby l = ground arith

  founded-fits :
      (game lobby n : ℕ)
      → lobby_of founded game ≡ some lobby
      → size_of founded lobby ≡ some n
      → length (db.players_of game) ≤ n
  founded-fits game lobby n e e' = elim (Bool-cases (suc db.last_game == game)) [
    | inl new_game ↦
        let there = sym ((==_iff (suc db.last_game) game).0 new_game) in
        rw (h.no_later_player game (omega (arith, there))) (omega arith)
    | inr old ↦
        let home = sym (old_lobby game (λ same. ground (arith, same))) ∙ e in
        h.fits game lobby n home (sym (old_size lobby (h.owned game lobby home)) ∙ e')
  ]

  founded-owned : (game lobby : ℕ) → lobby_of founded game ≡ some lobby → lobby ≤ suc db.last_lobby
  founded-owned game lobby e = elim (Bool-cases (suc db.last_game == game)) [
    | inl new_game ↦
        let there = (==_iff (suc db.last_game) game).0 new_game in
        let same =
          some-injective (suc db.last_lobby) lobby
            (sym new_lobby ∙ ap (lobby_of founded) there ∙ e) in
        omega (arith, same)
    | inr old ↦
        omega (arith, h.owned game lobby (sym (old_lobby game (λ same. ground (arith, same))) ∙ e))
  ]

  founded-Seating : Seating founded
  unfolding insert_game insert_lobby
  founded-Seating = record {
    seated = h.seated;
    fits = founded-fits;
    owned = founded-owned;
    no_later_lobby = λ lobby l. later_size lobby l ∙ h.no_later_lobby lobby (omega (arith, l));
    no_later_game = λ game l.
        old_lobby game (λ same. omega (arith, l, same)) ∙ h.no_later_game game (omega (arith, l));
    no_later_player = λ game l. h.no_later_player game (omega (arith, l));
  }

  pub insert_rows-Seating : 0 < size → Seating (insert_rows db name host size)
  unfolding insert_rows insert_game insert_lobby
  insert_rows-Seating positive =
      let empty = h.no_later_player (suc db.last_game) (omega arith) in
      insert_player-Seating founded (suc db.last_game) (suc db.last_lobby) size
        (new_player host 0 false none) founded-Seating new_lobby new_size (ap length (sym empty))
        (rw empty positive)
