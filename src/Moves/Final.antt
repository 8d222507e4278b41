-- ===== src/Moves/Final.antt =====
-- maybeFinalizeGame of internal/handlers/game_finalize.go: the ranking, and a second request.
use fifteen_thirty_one_go.Shared.{
  >>=-eq-ok, Bool-cases, List, Option, Option-cases, Outcome, [], ap, arith, err, false, inl, inr,
  map, ok, ok_injective, panic, refl, some, subst, sym, true, ℕ, ◌++◌, ◌+◌, ◌∙◌, ◌∷◌, ◌≡◌, ◌≤◌, ◌⊎◌,
}
use fifteen_thirty_one_go.Engine.State.{State, finished, stage_eq}
use fifteen_thirty_one_go.Moves.Finalize.{
  Final, ahead, commit_final, final_of, finalize_in, finalize_ranked, has_scores, insert_final,
  maybe_finalize_game, rank_finals, won, write_final, write_finals, write_results,
}
use fifteen_thirty_one_go.Moves.World.{World, ensure_running}
use fifteen_thirty_one_go.Store.Games.{
  ApiError, Db, GamePlayer, GameRow, GameStatus, LobbyStatus, ScoreRow, game_finished,
  lobby_finished, set_game_status, update,
}
use fifteen_thirty_one_go.Store.Lobbies.{set_lobby_status}
use fifteen_thirty_one_go.Store.Players.{list_game_players}

-- No one scores more than n.
abbrev pub ScoresAtMost : ℕ → List Final → Type 0
ScoresAtMost n [] = Unit
ScoresAtMost n (f ∷ finals) = (f.score ≤ n) × ScoresAtMost n finals

ScoresAtMost-trans :
    (m n : ℕ) (finals : List Final) → m ≤ n → ScoresAtMost m finals → ScoresAtMost n finals
ScoresAtMost-trans m n [] h k = tt
ScoresAtMost-trans m n (f ∷ finals) h (k, ks) = (omega arith, ScoresAtMost-trans m n finals h ks)

-- The first of a list has the highest score.
abbrev pub FirstIsBest : List Final → Type 0
FirstIsBest [] = Unit
FirstIsBest (f ∷ finals) = ScoresAtMost f.score finals

ahead-le : (b a : Final) → ahead b a ≡ true → a.score ≤ b.score
unfolding ahead
ahead-le b a h = ground arith

not_ahead-le : (b a : Final) → ahead b a ≡ false → b.score ≤ a.score
unfolding ahead
not_ahead-le b a h = ground arith

ScoresAtMost-insert_final :
    (n : ℕ) (a : Final) (finals : List Final)
    → a.score ≤ n
    → ScoresAtMost n finals
    → ScoresAtMost n (insert_final a finals)
unfolding insert_final
ScoresAtMost-insert_final n a [] h k = (h, tt)
ScoresAtMost-insert_final n a (b ∷ finals) h (k, ks) = elim (Bool-cases (ahead b a)) [
  | inl e ↦ rw (e, insert_final) (k, ScoresAtMost-insert_final n a finals h ks)
  | inr e ↦ rw (e, insert_final) (h, (k, ks))
]

insert_final-FirstIsBest :
    (a : Final) (finals : List Final) → FirstIsBest finals → FirstIsBest (insert_final a finals)
unfolding insert_final
insert_final-FirstIsBest a [] k = tt
insert_final-FirstIsBest a (b ∷ finals) k = elim (Bool-cases (ahead b a)) [
  | inl e ↦ rw (e, insert_final) ((ScoresAtMost-insert_final b.score a finals (ahead-le b a e) k))
  | inr e ↦
      rw (e, insert_final)
        ((not_ahead-le b a e, ScoresAtMost-trans b.score a.score finals (not_ahead-le b a e) k))
]

-- Whoever is ranked first has the highest score of all.
pub rank_finals-FirstIsBest : (finals : List Final) → FirstIsBest (rank_finals finals)
unfolding rank_finals
rank_finals-FirstIsBest [] = tt
rank_finals-FirstIsBest (a ∷ finals) =
    insert_final-FirstIsBest a (rank_finals finals) (rank_finals-FirstIsBest finals)

has_scores-append :
    (game : ℕ) (rows : List ScoreRow) (r : ScoreRow)
    → (has_scores game rows ≡ true) ⊎ (r.game_id ≡ game)
    → has_scores game (rows ++ r ∷ []) ≡ true
unfolding has_scores
has_scores-append game [] r h = ground arith
has_scores-append game (x ∷ rows) r h = ground (arith, has_scores-append game rows r)

write_finals-has_scores :
    (db : Db) (game rank : ℕ) (finals : List Final)
    → has_scores game db.scoreboard ≡ true
    → has_scores game (write_finals db game rank finals).scoreboard ≡ true
unfolding write_finals write_final
write_finals-has_scores db game rank [] h = h
write_finals-has_scores db game rank (f ∷ finals) h =
    write_finals-has_scores (write_final db game rank f) game (rank + 1) finals
      (has_scores-append game db.scoreboard _ (inl h))

write_final-has_scores :
    (db : Db) (game rank : ℕ) (f : Final)
    → has_scores game (write_final db game rank f).scoreboard ≡ true
unfolding write_final
write_final-has_scores db game rank f = has_scores-append game db.scoreboard _ (inr refl)

write_finals-games :
    (db : Db) (game rank : ℕ) (finals : List Final)
    → let db' = write_finals db game rank finals in
      (db'.games ≡ db.games) × (db'.players_of ≡ db.players_of)
unfolding write_finals write_final
write_finals-games db game rank [] = (refl, refl)
write_finals-games db game rank (f ∷ finals) =
    write_finals-games (write_final db game rank f) game (rank + 1) finals

-- After the transaction the game has its row and stands on the scoreboard.
record IsRecorded (db db' : Db) (game : ℕ) : Type 0 where
  players : db'.players_of ≡ db.players_of
  row : GameRow
  found : db'.games game ≡ some row
  recorded : has_scores game db'.scoreboard ≡ true

set_game_status_lem :
    (db db' : Db) (game : ℕ) (status : GameStatus)
    → set_game_status db game status ≡ ok db'
    → has_scores game db.scoreboard ≡ true
    → IsRecorded db db' game
unfolding set_game_status
set_game_status_lem db db' game status h k = elim (Option-cases (db.games game)) [
  | inl e ↦ absurd (ground arith)
  | inr (row, e) ↦ record {
    players = ground arith;
    row = record row { status = status };
    found = ground arith;
    recorded = ground arith;
  }
]

set_lobby_status_lem :
    (db db' : Db) (lobby : ℕ) (status : LobbyStatus)
    → set_lobby_status db lobby status ≡ ok db'
    → (db'.players_of ≡ db.players_of) × (db'.games ≡ db.games) × (db'.scoreboard ≡ db.scoreboard)
unfolding set_lobby_status
set_lobby_status_lem db db' lobby status h = (ground arith, ground arith, ground arith)

write_results-IsRecorded :
    (db db' : Db) (game lobby winner : ℕ) (f : Final) (finals : List Final)
    → write_results db game lobby winner (f ∷ finals) ≡ ok db'
    → IsRecorded db db' game
unfolding write_results write_finals
write_results-IsRecorded db db' game lobby winner f finals h =
    let d = write_finals db game 1 (f ∷ finals) in
    let d' : Db = record d { users = update d.users winner (won (d.users winner)) } in
    let (m, e, g) = >>=-eq-ok (set_game_status d' game game_finished) _ h in
    let there =
      write_finals-has_scores (write_final db game 1 f) game (1 + 1) finals
        (write_final-has_scores db game 1 f) in
    let r = set_game_status_lem d' m game game_finished e there in
    let (p, gs, sc) = set_lobby_status_lem m db' lobby lobby_finished g in
    record {
      players = p ∙ r.players ∙ (write_finals-games db game 1 (f ∷ finals)).1;
      row = r.row;
      found = ap (λ (x : ℕ → Option GameRow). x game) gs ∙ r.found;
      recorded = ap (has_scores game) sc ∙ r.recorded;
    }

-- A recorded game is not recorded again.
finalize_recorded :
    (db : Db) (game : ℕ) (finals : List Final) {row : GameRow}
    → db.games game ≡ some row
    → has_scores game db.scoreboard ≡ true
    → finalize_ranked db game finals ≡ ok db
unfolding finalize_ranked
finalize_recorded db game [] h k = refl
finalize_recorded db game (f ∷ finals) h k = rw (h, finalize_ranked) (rw k refl)

finalize_ranked_again :
    (db db' : Db) (game : ℕ) (finals : List Final)
    → finalize_ranked db game finals ≡ ok db'
    → (db'.players_of ≡ db.players_of) × (finalize_ranked db' game finals ≡ ok db')
unfolding finalize_ranked
finalize_ranked_again db db' game [] h = (ground arith, refl)
finalize_ranked_again db db' game (f ∷ finals) h = elim (Option-cases (db.games game)) [
  | inl e ↦ absurd (ground arith)
  | inr (row, e) ↦ elim (Bool-cases (has_scores game db.scoreboard)) [
    | inl k ↦ unchanged e k
    | inr k ↦ first e k
  ]
]
  where
    Again : Type 0
    Again = (db'.players_of ≡ db.players_of) × (finalize_ranked db' game (f ∷ finals) ≡ ok db')

    unchanged :
        {row : GameRow} → db.games game ≡ some row → has_scores game db.scoreboard ≡ true → Again
    unchanged e k =
        let same : db ≡ db' = ok_injective (rw k at rw (e, finalize_ranked) at h) in
        (
          ap (λ (x : Db). x.players_of) (sym same),
          subst (λ (x : Db). finalize_ranked x game (f ∷ finals) ≡ ok x) same
              (finalize_recorded db game (f ∷ finals) e k),
        )

    first :
        {row : GameRow} → db.games game ≡ some row → has_scores game db.scoreboard ≡ false → Again
    first {row = row} e k =
        let r =
          write_results-IsRecorded db db' game row.lobby_id f.user_id f finals
            (rw k at rw (e, finalize_ranked) at h) in
        (r.players, finalize_recorded db' game (f ∷ finals) r.found r.recorded)

commit_final_again :
    (w : World) (game : ℕ) (finals : List Final) {w' : World}
    → commit_final w (finalize_ranked w.db game finals) ≡ (w', ok tt)
    → (db' : Db) × (w' ≡ record w { db = db' }) × (finalize_ranked w.db game finals ≡ ok db')
unfolding commit_final
commit_final_again w game finals {w' = w'} h = from (finalize_ranked w.db game finals) refl h
  where
    from :
        (r : Outcome ApiError Db)
        → finalize_ranked w.db game finals ≡ r
        → commit_final w r ≡ (w', ok tt)
        → (db' : Db) × (w' ≡ record w { db = db' }) × (finalize_ranked w.db game finals ≡ ok db')
    from (ok db') e k = (db', ap (λ (x : World × Outcome ApiError (Unit {0})). x.0) (sym k), e)
    from (err x) e k = absurd (ground arith)
    from panic e k = absurd (ground arith)

finalize_in_again :
    (w w' : World) (game : ℕ) (rows : List GamePlayer) (s : State)
    → finalize_in game rows (w, ok s) ≡ (w', ok tt)
    → (w'.runtime ≡ w.runtime)
      × (w'.db.players_of ≡ w.db.players_of)
      × (finalize_in game rows (w', ok s) ≡ (w', ok tt))
unfolding finalize_in
finalize_in_again w w' game rows s h = elim (Bool-cases (stage_eq s.stage finished)) [
  | inl e ↦ over e
  | inr e ↦ early e
]
  where
    Again : World → Type 0
    Again v =
        (v.runtime ≡ w.runtime)
        × (v.db.players_of ≡ w.db.players_of)
        × (finalize_in game rows (v, ok s) ≡ (v, ok tt))

    early : stage_eq s.stage finished ≡ false → Again w'
    early e =
        let same : w ≡ w' =
          ap (λ (x : World × Outcome ApiError (Unit {0})). x.0) (rw (e, finalize_in) at h) in
        subst (λ v. Again v) same (refl, refl, rw (e, finalize_in) refl)

    over : stage_eq s.stage finished ≡ true → Again w'
    over e =
        let finals = rank_finals (map (final_of s.scores) rows) in
        let (db', same, done) = commit_final_again w game finals (rw (e, finalize_in) at h) in
        let (kept, again) = finalize_ranked_again w.db db' game finals done in
        subst (λ v. Again v) (sym same)
          (refl, kept, rw (e, finalize_in) (ap (commit_final (record w { db = db' })) again))

maybe_finalize_running :
    (w : World) (game : ℕ) (draws : List ℕ) (p : GamePlayer) (rows : List GamePlayer) (s : State)
    → w.runtime game ≡ some s
    → list_game_players w.db game ≡ p ∷ rows
    → maybe_finalize_game w game draws ≡ finalize_in game (p ∷ rows) (w, ok s)
unfolding maybe_finalize_game
maybe_finalize_running w game draws p rows s r e =
    rw (e, maybe_finalize_game) (rw (ensure_running w game (p ∷ rows) draws r) refl)

maybe_finalize_nobody :
    (w : World) (game : ℕ) (draws : List ℕ)
    → list_game_players w.db game ≡ []
    → maybe_finalize_game w game draws ≡ (w, ok tt)
unfolding maybe_finalize_game
maybe_finalize_nobody w game draws e = rw (e, maybe_finalize_game) refl

-- The results of a game in memory are written once: where a request has ended without an error, a
-- second one ends so too and changes nothing.
pub maybe_finalize_game_again :
    (w w' : World) (game : ℕ) (draws again : List ℕ) (s : State)
    → w.runtime game ≡ some s
    → maybe_finalize_game w game draws ≡ (w', ok tt)
    → maybe_finalize_game w' game again ≡ (w', ok tt)
maybe_finalize_game_again w w' game draws again s r h = from (list_game_players w.db game) refl
  where
    from :
        (rows : List GamePlayer)
        → list_game_players w.db game ≡ rows
        → maybe_finalize_game w' game again ≡ (w', ok tt)
    from [] e =
        let same =
          ap (λ (x : World × Outcome ApiError (Unit {0})). x.0)
            (sym (maybe_finalize_nobody w game draws e) ∙ h) in
        subst (λ v. maybe_finalize_game v game again ≡ (v, ok tt)) same
          (maybe_finalize_nobody w game again e)
    from (p ∷ rows) e =
        let (memory, kept, done) =
          finalize_in_again w w' game (p ∷ rows) s
            (sym (maybe_finalize_running w game draws p rows s r e) ∙ h) in
        maybe_finalize_running w' game again p rows s
          (ap (λ (f : ℕ → Option State). f game) memory ∙ r)
          (ap (λ (f : ℕ → List GamePlayer). f game) kept ∙ e)
        ∙ done
