-- ===== src/Scoring.antt =====
-- internal/game/cribbage/scoring.go. Each child models one scoring function and compares it with an
-- independent description of what it counts; `Show` puts them together.
pub mod Fifteens
pub mod Pairs
pub mod Runs
pub mod Flush
pub mod Show
pub mod Pegging
pub mod Consecutive
pub mod Longest
pub mod Played
