-- ===== src/Lobbies/Sync.antt =====
-- syncRuntimeStateFromDB of internal/handlers/lobby.go. The columns are those that the transaction has
-- read or written; the answer says whether there was no error.
use fifteen_thirty_one_go.Shared.{
  Bool, List, Option, Outcome, err, false, get_elem?, if◌then◌else◌, length, ltb, none, ok, set,
  some, true, ℕ, ◌>>=◌,
}
use fifteen_thirty_one_go.Cards.{Card}
use fifteen_thirty_one_go.Engine.State.{State}
use fifteen_thirty_one_go.Moves.World.{World}
use fifteen_thirty_one_go.Store.Games.{
  ApiError, Column, Db, blank, get_game_state, invalid_json, position_out_of_bounds, stored,
  undecodable, update,
}
use fifteen_thirty_one_go.Store.Players.{update_player_hand_if_empty}

-- `st.Hands[nextPos] = handCards`, where the position is one of the hands.
abbrev pub with_hand : ℕ → List Card → State → State
with_hand place hand st =
    if ltb place (length st.hands) then record st { hands = set st.hands place hand } else st

-- A restored state takes the version of its row.
abbrev pub restored_at : ℕ → State → State
restored_at ver s = record s { version = ver }

abbrev pub put_state : World → ℕ → State → World
put_state w game s = record w { runtime = update w.runtime game (some s) }

-- The hand could not be decoded: the state is reloaded from its column, in memory or not.
unfoldable pub reload_state : World → ℕ → ℕ → Column State → World × Bool
reload_state w game ver (stored s) = (put_state w game (restored_at ver s), false)
reload_state w game ver undecodable = (w, false)
reload_state w game ver blank = (w, false)

-- Nothing is in memory: the state is restored from its column.
unfoldable pub install_missing : World → ℕ → ℕ → Column State → World × Bool
install_missing w game ver (stored s) = (put_state w game (restored_at ver s), true)
install_missing w game ver undecodable = (w, false)
install_missing w game ver blank = (w, true)

-- By what is in memory, with a hand or without one.
unfoldable pub align : World → ℕ → ℕ → ℕ → Column State → Option (List Card) → World × Bool
unfolding install_missing
align w game place ver column hand = elim (w.runtime game) [
  | none ↦ install_missing w game ver column
  | some st ↦ elim hand [
    | none ↦ (w, true)
    | some cards ↦ (put_state w game (with_hand place cards st), true)
  ]
]

unfoldable pub sync_runtime_state :
    World → ℕ → ℕ → ℕ → Column State → Column (List Card) → World × Bool
unfolding reload_state align
sync_runtime_state w game place ver blank hand = (w, true)
sync_runtime_state w game place ver undecodable undecodable = reload_state w game ver undecodable
sync_runtime_state w game place ver undecodable blank = align w game place ver undecodable none
sync_runtime_state w game place ver undecodable (stored cards) =
    align w game place ver undecodable (some cards)
sync_runtime_state w game place ver (stored s) undecodable = reload_state w game ver (stored s)
sync_runtime_state w game place ver (stored s) blank = align w game place ver (stored s) none
sync_runtime_state w game place ver (stored s) (stored cards) =
    align w game place ver (stored s) (some cards)

-- What the transactions of a join and of a new bot find out about the hand of a position: the state
-- and its version from the row, and the hand, stored for the player where none is.
pub record Seen : Type 0 where
  pub db : Db
  pub state_json : Column State
  pub state_version : ℕ
  pub hand_json : Column (List Card)

abbrev pub see : Db → Column State → ℕ → Column (List Card) → Seen
see db column ver hand = record {
  db = db;
  state_json = column;
  state_version = ver;
  hand_json = hand;
}

-- The hand at a position, which must be one of the hands where `strict`.
unfoldable pub persist_hand_of : Db → ℕ → ℕ → ℕ → Bool → State → ℕ → Outcome ApiError Seen
persist_hand_of db game user place strict s ver = elim (get_elem? s.hands place) [
  | some hand ↦
      ok (see (update_player_hand_if_empty db game user hand) (stored s) ver (stored hand))
  | none ↦ if strict then err position_out_of_bounds else ok (see db (stored s) ver blank)
]

unfoldable pub persist_hand_from : Db → ℕ → ℕ → ℕ → Bool → Column State × ℕ → Outcome ApiError Seen
unfolding persist_hand_of
persist_hand_from db game user place strict (blank, ver) = ok (see db blank ver blank)
persist_hand_from db game user place strict (undecodable, ver) = err invalid_json
persist_hand_from db game user place strict (stored s, ver) =
    persist_hand_of db game user place strict s ver

-- `SELECT state_json, state_version FROM games WHERE id = ?` and what follows it.
unfoldable pub persist_hand : Db → ℕ → ℕ → ℕ → Bool → Outcome ApiError Seen
unfolding persist_hand_from
persist_hand db game user place strict =
    get_game_state db game >>= persist_hand_from db game user place strict

-- After the commit: the others run, and the state in memory is aligned.
unfoldable pub aligned : World → (World → World) → ℕ → ℕ → Seen → World × Bool
unfolding sync_runtime_state
aligned w others game place seen =
    sync_runtime_state (others (record w { db = seen.db })) game place seen.state_version
      seen.state_json seen.hand_json
