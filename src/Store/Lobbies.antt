-- ===== src/Store/Lobbies.antt =====
-- models/lobby.go over the table lobbies.
use fifteen_thirty_one_go.Shared.{
  Bool-cases, Option, Option-cases, Outcome, ap, arith, err, if◌then◌else◌, inl, inr, ltb, none, ok,
  some, sym, ℕ, ◌+◌, ◌-◌, ◌<◌, ◌==◌, ◌∙◌, ◌≡◌, ◌≢◌, ◌≤◌, ◌⊎◌,
}
use fifteen_thirty_one_go.Store.Games.{
  ApiError, Db, LobbyRow, LobbyStatus, lobby_finished, lobby_full, lobby_in_progress,
  lobby_not_joinable, lobby_waiting, not_found, update,
}

-- JoinLobbyTx: the guarded increment, and the diagnosis where it changes no row.
unfoldable pub join_lobby : Db → ℕ → Outcome ApiError (Db × LobbyRow)
join_lobby db lobby = elim (db.lobbies lobby) [
  | none ↦ err not_found
  | some l ↦
      let l' : LobbyRow = record l { current_players = l.current_players + 1 } in
      elim l.status [
        | lobby_waiting ↦
            if ltb l.current_players l.max_players
            then ok (record db { lobbies = update db.lobbies lobby (some l') }, l')
            else err lobby_full
        | lobby_in_progress ↦ err lobby_not_joinable
        | lobby_finished ↦ err lobby_not_joinable
      ]
]

-- DecrementLobbyCurrentPlayers.
unfoldable pub decrement_lobby_current_players : Db → ℕ → Db
decrement_lobby_current_players db lobby = elim (db.lobbies lobby) [
  | none ↦ db
  | some l ↦ record db {
    lobbies = update db.lobbies lobby (
        some (record l {
          current_players = if ltb 0 l.current_players then l.current_players - 1 else 0;
        }));
  }
]

-- SetLobbyStatus and SetLobbyStatusTx.
unfoldable pub set_lobby_status : Db → ℕ → LobbyStatus → Outcome ApiError Db
set_lobby_status db lobby status = elim (db.lobbies lobby) [
  | none ↦ err not_found
  | some l ↦
      ok (record db { lobbies = update db.lobbies lobby (some (record l { status = status })) })
]

-- No lobby has more players than it may have.
abbrev pub HasRoom : Db → Type 0
HasRoom db =
    (lobby : ℕ) (l : LobbyRow) → db.lobbies lobby ≡ some l → l.current_players ≤ l.max_players

-- What a successful join did.
pub record Joined (db db' : Db) (lobby : ℕ) (before l : LobbyRow) : Type 0 where
  pub found : db.lobbies lobby ≡ some before
  pub was_waiting : before.status ≡ lobby_waiting
  pub had_room : before.current_players < before.max_players
  pub one_more : l ≡ record before { current_players = before.current_players + 1 }
  pub written : db' ≡ record db { lobbies = update db.lobbies lobby (some l) }

pub join_lobby-Joined :
    (db db' : Db) (lobby : ℕ) (l : LobbyRow)
    → join_lobby db lobby ≡ ok (db', l)
    → (before : LobbyRow) × Joined db db' lobby before l
unfolding join_lobby
join_lobby-Joined db db' lobby l h = elim (Option-cases (db.lobbies lobby)) [
  | inl e ↦ absurd (ground arith)
  | inr (before, e) ↦ (before, ground arith)
]

update_bound :
    (lobbies : ℕ → Option LobbyRow) (lobby : ℕ) (l : LobbyRow)
    → ((i : ℕ) (r : LobbyRow) → lobbies i ≡ some r → r.current_players ≤ r.max_players)
    → l.current_players ≤ l.max_players
    → (i : ℕ) (r : LobbyRow) → update lobbies lobby (some l) i ≡ some r
    → r.current_players ≤ r.max_players
update_bound lobbies lobby l room h i r e = elim (Bool-cases (lobby == i)) [
  | inl same ↦ ground arith
  | inr other ↦ room i r (ground arith)
]

-- A join is done only where the lobby waits and has room; it adds one player to it, and no lobby
-- gets more players than it may have.
pub join_lobby-HasRoom :
    (db db' : Db) (lobby : ℕ) (l : LobbyRow)
    → HasRoom db
    → join_lobby db lobby ≡ ok (db', l)
    → HasRoom db' × ((before : LobbyRow) × Joined db db' lobby before l)
join_lobby-HasRoom db db' lobby l room h =
    let (before, joined) = join_lobby-Joined db db' lobby l h in
    let fits : l.current_players ≤ l.max_players =
      rw joined.one_more (omega (arith, joined.had_room)) in
    let bounded : HasRoom db' = λ i r e.
      update_bound db.lobbies lobby l room fits i r
        (ap (λ (d : Db). d.lobbies i) (sym joined.written) ∙ e) in
    (bounded, (before, joined))

-- A refused join names its reason: the lobby is missing, does not wait, or is full.
pub join_lobby_refused :
    (db : Db) (lobby : ℕ) {e : ApiError}
    → join_lobby db lobby ≡ err e
    → ((e ≡ not_found) × (db.lobbies lobby ≡ none))
      ⊎ ((l : LobbyRow) × (db.lobbies lobby ≡ some l)
          × (((e ≡ lobby_not_joinable) × (l.status ≢ lobby_waiting))
              ⊎ ((e ≡ lobby_full)
                  × (l.status ≡ lobby_waiting)
                  × (l.max_players ≤ l.current_players))))
unfolding join_lobby
join_lobby_refused db lobby h = elim (Option-cases (db.lobbies lobby)) [
  | inl e ↦ inl (ground arith, e)
  | inr (l, e) ↦ inr (l, e, ground arith)
]
