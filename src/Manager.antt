-- ===== src/Manager.antt =====
-- internal/handlers/game_manager.go: the states of the games in memory, the lock of the map and the lock
-- of each entry. A turn of a thread is what its code does between two waits for a lock; a thread that
-- has to wait takes no turn, `none`. Entries are numbers in the order of their creation. What a
-- creation of a state answers, an error and a panic alike, is part of the action. Threads read the
-- map under its lock as readers, who exclude writers; that a waiting writer comes before new readers only
-- takes turns away.
pub mod Places
pub mod Locks
pub mod Turns
pub mod Endings
pub mod Parts
pub mod Preserved
pub mod Exclusive
pub mod Deadlock
use fifteen_thirty_one_go.Shared.{List, Option, [], if◌then◌else◌, none, some, suc, ℕ, ◌==◌, ◌∷◌}
use fifteen_thirty_one_go.Engine.State.{State}
use fifteen_thirty_one_go.Hub.{delete_client}
use fifteen_thirty_one_go.Store.Games.{update}

-- Where a thread is: the game and the entry it works on. The names that end in _waiting are before
-- `e.mu.Lock()`; failing is before the second `m.mu.Lock()` of GetOrCreateLocked and failed after it;
-- holding has been handed the state, and has not called the function that unlocks.
pub data Pc : Type 0 where
  outside : Pc
  get_waiting : (game entry : ℕ) → Pc
  getting : (game entry : ℕ) → Pc
  holding : (game entry : ℕ) → Pc
  set_waiting : (game entry : ℕ) (state : State) → Pc
  setting : (game entry : ℕ) (state : State) → Pc
  delete_waiting : (game entry : ℕ) → Pc
  deleting : (game entry : ℕ) → Pc
  create_waiting : (game entry : ℕ) → Pc
  creating : (game entry : ℕ) → Pc
  failing : (game entry : ℕ) → Pc
  failed : (game entry : ℕ) → Pc

-- What a thread may choose: which call it makes, what `createFn` answers, what it does with the state that
-- it holds. Everywhere else its code goes on in one way, and the action is not looked at.
pub data Action : Type 0 where
  call_get : (game : ℕ) → Action
  call_set : (game : ℕ) (state : State) → Action
  call_delete : (game : ℕ) → Action
  call_create : (game : ℕ) → Action
  create_answers : (made : Option State) → Action
  write_state : (state : State) → Action
  proceed : Action

-- `games` and `states` are the map and the entries; the rest is who holds which lock.
pub record Manager : Type 0 where
  pub games : ℕ → Option ℕ
  pub states : ℕ → Option State
  pub next_entry : ℕ
  pub writer : Option ℕ
  pub readers : List ℕ
  pub owner : ℕ → Option ℕ
  pub at : ℕ → Pc

abbrev pub new_manager : Manager
new_manager = record {
  games = λ _. none;
  states = λ _. none;
  next_entry = 0;
  writer = none;
  readers = [];
  owner = λ _. none;
  at = λ _. outside;
}

abbrev pub goes_to : Manager → ℕ → Pc → Manager
goes_to m t pc = record m { at = update m.at t pc }

-- `m.mu.RLock()` waits for a writer, `m.mu.Lock()` for everybody, `e.mu.Lock()` for the owner.
abbrev pub if_unwritten : Manager → Manager → Option Manager
if_unwritten m m' = elim m.writer [ none ↦ some m' | some u ↦ none ]

abbrev pub if_unread : List ℕ → Manager → Option Manager
if_unread [] m' = some m'
if_unread (u ∷ us) m' = none

abbrev pub if_free : Manager → Manager → Option Manager
if_free m m' = elim m.writer [ none ↦ if_unread m.readers m' | some u ↦ none ]

abbrev pub if_unowned : Manager → ℕ → Manager → Option Manager
if_unowned m e m' = elim (m.owner e) [ none ↦ some m' | some u ↦ none ]

-- The entry of a game, a new one where there is none, under the write lock.
unfoldable pub with_entry : Manager → ℕ → (ℕ → Pc) → ℕ → Manager
with_entry m t to game = elim (m.games game) [
  | none ↦ record m {
    games = update m.games game (some m.next_entry);
    states = update m.states m.next_entry none;
    next_entry = suc m.next_entry;
    writer = some t;
    at = update m.at t (to m.next_entry);
  }
  | some e ↦ record m { writer = some t; at = update m.at t (to e) }
]

-- The first part of each method, up to `e.mu.Lock()`.
unfoldable pub begin : Manager → ℕ → Action → Option Manager
unfolding with_entry
begin m t (call_get g) = if_unwritten m (elim (m.games g) [
  | none ↦ m
  | some e ↦ record m { readers = t ∷ m.readers; at = update m.at t (get_waiting g e) }
])
begin m t (call_set g s) = if_free m (with_entry m t (λ e. set_waiting g e s) g)
begin m t (call_delete g) = if_free m (elim (m.games g) [
  | none ↦ m
  | some e ↦ record m { writer = some t; at = update m.at t (delete_waiting g e) }
])
begin m t (call_create g) = if_free m (with_entry m t (create_waiting g) g)
begin m t (create_answers made) = none
begin m t (write_state s) = none
begin m t proceed = none

-- GetLocked with both locks: the entry has to be that of the map still, and to have a state.
unfoldable pub get_checked : Manager → ℕ → ℕ → ℕ → Manager
unfolding delete_client
get_checked m t g e =
    let left = record m { readers = delete_client t m.readers } in
    let refused = record left { owner = update m.owner e none; at = update m.at t outside } in
    elim (m.games g) [
      | none ↦ refused
      | some cur ↦
          if cur == e
          then elim (m.states e) [ none ↦ refused | some s ↦ goes_to left t (holding g e) ]
          else refused
    ]

-- What `createFn` answers is put into the entry, or the creation fails.
unfoldable pub answered : Manager → ℕ → ℕ → ℕ → Action → Option Manager
answered m t g e (create_answers none) = some (goes_to m t (failing g e))
answered m t g e (create_answers (some s)) =
    some (record m { states = update m.states e (some s); at = update m.at t (holding g e) })
answered m t g e (call_get g') = none
answered m t g e (call_set g' s) = none
answered m t g e (call_delete g') = none
answered m t g e (call_create g') = none
answered m t g e (write_state s) = none
answered m t g e proceed = none

-- GetOrCreateLocked with the lock of the entry.
unfoldable pub get_or_create : Manager → ℕ → ℕ → ℕ → Action → Option Manager
unfolding answered
get_or_create m t g e a = elim (m.states e) [
  | some s ↦ some (goes_to m t (holding g e))
  | none ↦ answered m t g e a
]

abbrev pub unlocked : Manager → ℕ → ℕ → Manager
unlocked m t e = record m { owner = update m.owner e none; at = update m.at t outside }

-- Who holds a state may write to it, or unlocks.
unfoldable pub held : Manager → ℕ → ℕ → Action → Manager
held m t e a = elim a [
  | write_state s ↦ record m { states = update m.states e (some s) }
  | create_answers made ↦ unlocked m t e
  | call_get g' ↦ unlocked m t e
  | call_set g' s ↦ unlocked m t e
  | call_delete g' ↦ unlocked m t e
  | call_create g' ↦ unlocked m t e
  | proceed ↦ unlocked m t e
]

-- The end of a failed creation: the entry leaves the map if it is the entry of the game still.
unfoldable pub dropped : Manager → ℕ → ℕ → ℕ → Manager
dropped m t g e =
    let done = record (unlocked m t e) { writer = none } in
    elim (m.games g) [
      | none ↦ done
      | some cur ↦ if cur == e then record done { games = update m.games g none } else done
    ]

unfoldable pub turn_at : Manager → ℕ → Pc → Action → Option Manager
unfolding begin get_checked get_or_create held dropped
turn_at m t outside a = begin m t a
turn_at m t (get_waiting g e) a =
    if_unowned m e
      (record m { owner = update m.owner e (some t); at = update m.at t (getting g e) })
turn_at m t (getting g e) a = some (get_checked m t g e)
turn_at m t (holding g e) a = some (held m t e a)
turn_at m t (set_waiting g e s) a = if_unowned m e (record m {
  owner = update m.owner e (some t);
  writer = none;
  at = update m.at t (setting g e s);
})
turn_at m t (setting g e s) a =
    some (record (unlocked m t e) { states = update m.states e (some s) })
turn_at m t (delete_waiting g e) a =
    if_unowned m e
      (record m { owner = update m.owner e (some t); at = update m.at t (deleting g e) })
turn_at m t (deleting g e) a = some (record (unlocked m t e) {
  states = update m.states e none;
  games = update m.games g none;
  writer = none;
})
turn_at m t (create_waiting g e) a = if_unowned m e (record m {
  owner = update m.owner e (some t);
  writer = none;
  at = update m.at t (creating g e);
})
turn_at m t (creating g e) a = get_or_create m t g e a
turn_at m t (failing g e) a =
    if_free m (record m { writer = some t; at = update m.at t (failed g e) })
turn_at m t (failed g e) a = some (dropped m t g e)

unfoldable pub advance : Manager → ℕ → Action → Option Manager
unfolding turn_at
advance m t a = turn_at m t (m.at t) a
