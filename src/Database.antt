-- ===== src/Database.antt =====
-- internal/database/db.go: the names of databases, the scripts of the migrations over their bytes, and the
-- order in which migrations are applied.
pub mod Script
pub mod Split
pub mod Pieces
pub mod Comments
pub mod Migrate
pub mod Migrated
