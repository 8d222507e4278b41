-- ===== src/Moves.antt =====
-- internal/handlers/game_logic.go: ensureGameStateLocked and ApplyMove, over the database and the
-- states in memory. ApplyMove releases the game's lock between the computation and the transaction;
-- what other requests do meanwhile is the argument `others`, a change of the world for each attempt.
pub mod World
pub mod Committed
pub mod Apply
pub mod Commit
pub mod Sequential
pub mod Forgotten
pub mod Ready
pub mod Waiting
pub mod Snapshots
pub mod Hidden
pub mod Bots
pub mod Settled
pub mod Finalize
pub mod Final
