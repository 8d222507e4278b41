-- ===== src/Database/Migrate.antt =====
-- execSQLScript and migrate of internal/database/db.go. What SQLite does with a statement is a parameter: it
-- changes the schema, or refuses it. The files stand in the order of their names, with their texts.
use fifteen_thirty_one_go.Shared.{Bool, List, Option, [], false, none, some, true, ◌++◌, ◌||◌, ◌∷◌}
use fifteen_thirty_one_go.Cards.Text.{Text, text_eq, trim_space}
use fifteen_thirty_one_go.Database.Script.{strip_line_comments}
use fifteen_thirty_one_go.Database.Split.{split_sql_statements}

-- The schema with the rows of schema_migrations.
pub record Database (Schema : Type 0) : Type 0 where
  pub schema : Schema
  pub applied : List Text

unfoldable pub is_applied : Text → List Text → Bool
is_applied version [] = false
is_applied version (v ∷ vs) = text_eq v version || is_applied version vs

module _ {Schema : Type 0} (exec : Schema → Text → Option Schema) where
  -- The statements one after the other, trimmed, the empty ones left out; an error ends them.
  unfoldable pub exec_statements : Schema → List Text → Option Schema
  exec_statements s [] = some s
  exec_statements s (stmt ∷ stmts) = elim (trim_space stmt) [
    | [] ↦ exec_statements s stmts
    | c ∷ cs ↦ elim (exec s (c ∷ cs)) [ none ↦ none | some s' ↦ exec_statements s' stmts ]
  ]

  unfoldable pub exec_sql_script : Schema → Text → Option Schema
  unfolding exec_statements
  exec_sql_script s script = exec_statements s (split_sql_statements (strip_line_comments script))

  -- One migration in its transaction, which is rolled back where the script fails.
  unfoldable pub migrate_file : Database Schema → Text × Text → Option (Database Schema)
  unfolding exec_sql_script
  migrate_file db (version, body) = elim (exec_sql_script db.schema body) [
    | none ↦ none
    | some s ↦ some (record { schema = s; applied = db.applied ++ version ∷ [] })
  ]

  -- The loop, over the versions that were loaded before it; the answer says whether all went well. The files of a
  -- directory have different names, so that no version is recorded twice.
  unfoldable pub migrate_loop :
      List Text → Database Schema → List (Text × Text) → Database Schema × Bool
  unfolding migrate_file
  migrate_loop loaded db [] = (db, true)
  migrate_loop loaded db (file ∷ files) = elim (is_applied file.0 loaded) [
    | true ↦ migrate_loop loaded db files
    | false ↦ elim (migrate_file db file) [
      | none ↦ (db, false)
      | some db' ↦ migrate_loop loaded db' files
    ]
  ]

  unfoldable pub migrate : Database Schema → List (Text × Text) → Database Schema × Bool
  unfolding migrate_loop
  migrate db files = migrate_loop db.applied db files
