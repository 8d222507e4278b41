-- ===== src/Tests/Locks.antt =====
-- Threads that wait for the locks of the games in memory.
use fifteen_thirty_one_go.Shared.{none, refl, some, ℕ, ◌≡◌, ◌≢◌}
use fifteen_thirty_one_go.Manager.{
  Manager, advance, answered, begin, call_create, create_answers, create_waiting, creating, failing,
  get_or_create, holding, new_manager, proceed, turn_at, with_entry,
}
use fifteen_thirty_one_go.Manager.Deadlock.{failed_creation_deadlocks}
use fifteen_thirty_one_go.Manager.Exclusive.{Leads, at_start, holding_alone, next_turn}
use fifteen_thirty_one_go.Store.Games.{update}
use fifteen_thirty_one_go.Tests.Table.{in_play}

-- Two threads create the state of game 7, and what the first one reads cannot be decoded.
abbrev first_called : Manager
first_called = record new_manager {
  games = update new_manager.games 7 (some 0);
  states = update new_manager.states 0 none;
  next_entry = 1;
  writer = some 1;
  at = update new_manager.at 1 (create_waiting 7 0);
}

abbrev first_creates : Manager
first_creates = record first_called {
  owner = update new_manager.owner 0 (some 1);
  writer = none;
  at = update first_called.at 1 (creating 7 0);
}

abbrev second_called : Manager
second_called = record first_creates {
  writer = some 2;
  at = update first_creates.at 2 (create_waiting 7 0);
}

abbrev both_wait : Manager
both_wait = record second_called { at = update second_called.at 1 (failing 7 0) }

wait_reached : Leads new_manager both_wait
unfolding advance turn_at begin with_entry get_or_create answered
wait_reached =
    next_turn
      (next_turn (next_turn (next_turn at_start 1 (call_create 7) refl) 1 proceed refl) 2
        (call_create 7) refl)
      1 (create_answers none) refl

failed_creation_deadlocks_example :
    (both_wait.at 1 ≡ failing 7 0)
    × (both_wait.at 2 ≡ create_waiting 7 0)
    × (both_wait.writer ≡ some 2)
failed_creation_deadlocks_example =
    failed_creation_deadlocks both_wait both_wait 1 2 7 0 wait_reached refl refl at_start

-- The creation of the first thread succeeds.
abbrev first_holds : Manager
first_holds = record first_creates {
  states = update first_creates.states 0 (some in_play);
  at = update first_creates.at 1 (holding 7 0);
}

first_reached : Leads new_manager first_holds
unfolding advance turn_at begin with_entry get_or_create answered
first_reached =
    next_turn (next_turn (next_turn at_start 1 (call_create 7) refl) 1 proceed refl) 1
      (create_answers (some in_play)) refl

abbrev first_thread : ℕ
first_thread = 1

holding_alone_example :
    (first_thread ≡ first_thread) × (first_holds.games 7 ≡ some 0) × (first_holds.states 0 ≢ none)
holding_alone_example =
    holding_alone first_holds first_thread first_thread 7 0 0 first_reached refl refl
