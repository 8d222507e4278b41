-- ===== src/Lobbies/Entering.antt =====
-- The statements that a transaction of a new join has run, one after the other.
use fifteen_thirty_one_go.Shared.{
  >>=-eq-ok, false, none, ok, ok_injective, refl, subst, true, ℕ, ◌>>=◌, ◌≡◌,
}
use fifteen_thirty_one_go.Lobbies.Join.{Entered, join_anew}
use fifteen_thirty_one_go.Lobbies.Sync.{persist_hand}
use fifteen_thirty_one_go.Store.Games.{Db}
use fifteen_thirty_one_go.Store.Lobbies.{join_lobby}
use fifteen_thirty_one_go.Store.Players.{add_game_player_auto_position}

pub record Entering (db : Db) (lobby game user : ℕ) (e : Entered) : Type 0 where
  pub counted : Db
  pub seated : Db
  pub joined : join_lobby db lobby ≡ ok (counted, e.row)
  pub added :
      add_game_player_auto_position counted game user e.row.max_players false none
      ≡ ok (seated, e.place)
  pub persisted : persist_hand seated game user e.place true ≡ ok e.seen
  pub fresh : e.already ≡ false

pub join_anew-Entering :
    (db : Db) (lobby game user : ℕ) (e : Entered)
    → join_anew db lobby game user ≡ ok e
    → Entering db lobby game user e
unfolding join_anew
join_anew-Entering db lobby game user e done =
    let ((db1, l), j, rest) =
      >>=-eq-ok (join_lobby db lobby)
        (λ joined. do
          added ← add_game_player_auto_position joined.0 game user joined.1.max_players false none
          seen ← persist_hand added.0 game user added.1 true
          ok (record { row = joined.1; place = added.1; already = false; seen = seen }))
        done in
    let ((db2, place), a, rest2) =
      >>=-eq-ok (add_game_player_auto_position db1 game user l.max_players false none)
        (λ added. do
          seen ← persist_hand added.0 game user added.1 true
          ok (record { row = l; place = added.1; already = false; seen = seen }))
        rest in
    let (seen, persisted, last) =
      >>=-eq-ok (persist_hand db2 game user place true)
        (λ seen. ok (record { row = l; place = place; already = false; seen = seen })) rest2 in
    subst (λ x. Entering db lobby game user x) (ok_injective last)
      (record {
        counted = db1;
        seated = db2;
        joined = j;
        added = a;
        persisted = persisted;
        fresh = refl;
      })
