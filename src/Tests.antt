-- ===== src/Tests.antt =====
-- Runs of the operations at concrete inputs.
pub mod Table
pub mod Rounds
pub mod Choices
pub mod Requests
pub mod Joining
pub mod Locks
pub mod Lounge
pub mod Counts
pub mod Rooms
pub mod Scripts
