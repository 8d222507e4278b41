-- ===== src/Engine.antt =====
-- internal/game/cribbage/cribbage.go: the server's state of one game and its operations.
pub mod State
pub mod Rounds
pub mod Dealing
pub mod Discarding
pub mod Play
pub mod Invariant
pub mod Safety
pub mod Dealt
pub mod Stages
pub mod Totals
pub mod Conserved
pub mod Winner
pub mod History
pub mod LastCard
