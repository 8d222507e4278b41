-- ===== src/Lobbies.antt =====
-- internal/handlers/lobby.go: creating a lobby with its game, joining one, adding a bot, and the
-- alignment of the state in memory after the commit. The user is known and the ids in the paths are
-- valid; a failing database is left out. A request is one transaction, so the statements of others
-- come before it or after its commit; what they do between the commit and the alignment is the
-- argument `others`, any change of the world.
pub mod Sync
pub mod Create
pub mod Capacity
pub mod Entering
pub mod Invariant
pub mod Bots
pub mod Housed
pub mod Rows
pub mod Created
pub mod Reached
pub mod Again
pub mod Stale
pub mod Join
pub mod AddBot
