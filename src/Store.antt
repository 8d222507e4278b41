-- ===== src/Store.antt =====
-- internal/models: the rows of games, game_players and game_moves that the handlers read and write,
-- and the statements over them. A statement of SQL is the change that it makes to the rows; faults of
-- the database itself (a lost connection, a full disk) are not modelled. An id is a number, and a
-- table is a function from ids or a list of rows.
pub mod Games
pub mod Seats
pub mod Players
pub mod Seating
pub mod Seated
pub mod Lobbies
pub mod Moves
pub mod Marked
