-- ===== src/Lib.antt =====
-- Verification of the backend of fifteen-thirty-one-go, a server for cribbage: the rules and the
-- scoring, the engine with the state of a game, the bots, the requests that change a lobby or a game in
-- memory and in the database, the hub of the websockets, and the migrations of the database.
--
-- How the parts work together. A request (internal/handlers) reads the rows of a game and its
-- players (internal/models), takes the state of the game from memory or restores it from the database
-- (ensureGameStateLocked), computes on a copy of it with the engine (internal/game/cribbage, on the
-- cards of internal/game/common), writes the result in a transaction under an optimistic version, and
-- puts it back into memory. A request to a lobby (create, join, add a bot) is one transaction, and
-- afterwards it aligns the state in memory with what the transaction has read. Snapshots show clients
-- the rows and a view of the state; the hub sends them to the clients of a room. All paths are below
-- backend/.
--
-- Which file models which part:
-- - Shared: lists, options, tests and integers, and the outcome of a Go function: a value, an error,
--   or a panic for an index out of range.
-- - Cards, Deck, Rules: internal/game/common/cards.go and deck.go, internal/game/cribbage/rules.go.
-- - Scoring: internal/game/cribbage/scoring.go, one module for each function; Consecutive is about
--   isRun, Longest and Played are about the play.
-- - Engine: internal/game/cribbage/cribbage.go. State has the record and the errors, Rounds the
--   helpers, the end of a sequence and the count, Dealing, Discarding and Play the methods Deal,
--   Discard, PlayPeggingCard and Go. Invariant, Safety, Dealt, Stages, Totals, Conserved,
--   Winner, History and LastCard hold the theorems.
-- - Views: internal/handlers/state_view.go and cloneStateDeep.
-- - Bot: internal/game/cribbage/bot.go.
-- - Store: internal/models over tables that are records of functions and lists. Seats has the inserts
--   of players with the trigger of internal/database/migrations/001_init.sql, Moves the reads and
--   corrections of moves; Marked, Seating and Seated are about them.
-- - Moves: internal/handlers. World has the database with the states in memory, Apply is ApplyMove,
--   Bots is maybeRunBotTurns, Snapshots the two BuildGameSnapshot functions, Ready is
--   NextHandHandler, Finalize is game_finalize.go. Commit, Sequential, Forgotten, Settled,
--   Hidden, Waiting and Final are about them.
-- - Counting: internal/handlers/game.go. The parent is CountHandler, Correct is CorrectHandler, Quit is
--   QuitGameHandler; Once, Corrected and Resumed are about them. Moves/Committed ends a transaction.
-- - Lobbies: internal/handlers/lobby.go. Create, Join and AddBot are the handlers of these names, Sync is
--   syncRuntimeStateFromDB with the helpers for the hand of a new player. The others hold the theorems:
--   Reached is about all interleavings of the requests, Created, Again and Stale about single ones.
-- - Hub: pkg/websocket/hub.go. Membership is the abstract view, Refined the refinement; Closed, Open and
--   Broadcast are about closed channels and delivery.
-- - Manager: internal/handlers/game_manager.go, as turns of threads that take the lock of the map and the
--   lock of an entry. Places, Locks, Turns, Endings, Parts and Preserved show which locks a thread has at each place;
--   Exclusive and Deadlock are about what follows.
-- - Social: internal/handlers/lobby_chat.go and spectator.go. The parent sends messages, Spectators has the
--   requests of spectators, History the reading of the chat; Posted and Watching are about them.
-- - Database: internal/database/db.go. Script strips comments, Split is splitSQLStatements, Migrate runs
--   the migrations; Comments, Pieces and Migrated are about them.
-- - Tests: runs at concrete inputs.
--
-- How the code is read. A method that mutates `*State` returns the new state with its outcome, on
-- error paths too. Indices are natural numbers; an index that the code tests against being negative
-- is an integer. Points, totals and versions stay far below 2^63 and are natural numbers; the scores
-- of a bot are counted from their start of -999999. A nil slice and an empty one are the same list. A
-- read of a slice at an index that is always in range has a default; that it is in range is part of
-- the well-formedness of a state (Engine/Invariant). The strings for suits, stages and statuses are
-- data types. Numbers from crypto/rand and math/rand are lists of draws: crypto/rand fails where its
-- list has run out.
--
-- Concurrency. ApplyMove releases the lock of a game between the computation and the transaction.
-- What other requests do meanwhile is an argument, any change of the world for each attempt; `alone`
-- is the change that does nothing. NextHandHandler releases the lock in the same way; Moves/Ready has
-- its requests one after the other. Joining a lobby and adding a bot have the same argument, for what
-- happens between the transaction and the alignment. In Lobbies/Reached these are two steps of a
-- relation, so that any number of requests interleave. Within one transaction the statements run one
-- after the other. In Manager a step is what a thread does between two waits for a lock, in any order
-- of the threads; elsewhere a state in memory is read and written as one step, which Manager/Exclusive
-- allows. The hub is one goroutine: its events come in a sequence, with the
-- direct answers of handlers and the receives of WritePump among them; clients, rooms and messages are
-- numbers, and a send on a closed channel is a panic.
--
-- Bounds. Loops over players, cards and masks are recursions on the number of rounds that are left.
-- ApplyMove makes 3 attempts and maybeRunBotTurns 64 steps, as the code does; running out of them is
-- an error value of the code. The loops over a script read one byte in each step. The buffer of a client
-- holds 256 messages, as in NewClient.
--
-- Not modelled. Failures of the database itself and of json.Marshal, the logging, HTTP and JSON
-- around the handlers, authentication, presence, the leaderboard, the listings, the
-- registry of games, the pumps of a client and the stop of the hub, opening SQLite with its DSN and
-- paths, and the configuration: network and file input and output, calls of other packages and
-- aggregations in SQL. What SQLite does with a statement of a migration is a parameter of
-- Database/Migrate, and the order of rows of one time a parameter of Social/History; whether the
-- hub takes a broadcast is an argument of the requests of Social. Upper case and white space in
-- texts are those of ASCII.
pub mod Shared
pub mod Cards
pub mod Deck
pub mod Rules
pub mod Scoring
pub mod Engine
pub mod Views
pub mod Store
pub mod Bot
pub mod Moves
pub mod Counting
pub mod Lobbies
pub mod Hub
pub mod Manager
pub mod Social
pub mod Database
pub mod Tests
