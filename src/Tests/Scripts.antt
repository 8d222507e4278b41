-- ===== src/Tests/Scripts.antt =====
-- Scripts and migrations.
use fifteen_thirty_one_go.Shared.{List, Option, [], refl, some, true, ◌++◌, ◌∷◌, ◌≡◌}
use fifteen_thirty_one_go.Cards.Text.{Text, trim_space}
use fifteen_thirty_one_go.Database.Migrate.{
  Database, exec_sql_script, exec_statements, is_applied, migrate, migrate_file, migrate_loop,
}
use fifteen_thirty_one_go.Database.Migrated.{AllApplied, migrate_again}
use fifteen_thirty_one_go.Database.Pieces.{split_sql_statements-pieces, terminated}
use fifteen_thirty_one_go.Database.Script.{
  is_escape, is_written, next_quotes, strip_from, strip_line_comments,
}
use fifteen_thirty_one_go.Database.Split.{
  close_token, doubled, end_token, is_word, plain_byte, split_byte, split_from,
  split_sql_statements, to_lower, toggled_quote, tokenize, unquoted_byte, with_rest,
}

-- a;';';b
abbrev script : Text
script = b'a' ∷ b';' ∷ b'\'' ∷ b';' ∷ b'\'' ∷ b';' ∷ b'b' ∷ []

cut_script :
    split_sql_statements script ≡ (b'a' ∷ []) ∷ (b'\'' ∷ b';' ∷ b'\'' ∷ []) ∷ (b'b' ∷ []) ∷ []
unfolding split_sql_statements split_from split_byte toggled_quote plain_byte unquoted_byte tokenize
    is_word end_token close_token to_lower doubled
cut_script = refl

split_sql_statements-pieces_example :
    (ended : List Text) × (rest : Text) × (split_sql_statements script ≡ with_rest ended rest)
    × (terminated ended ++ rest ≡ script)
split_sql_statements-pieces_example = split_sql_statements-pieces script

-- SQLite keeps every statement.
abbrev keep : List Text → Text → Option (List Text)
keep schema stmt = some (schema ++ stmt ∷ [])

abbrev files : List (Text × Text)
files = (b'1' ∷ [], b'a' ∷ b';' ∷ []) ∷ (b'2' ∷ [], b'b' ∷ []) ∷ []

abbrev empty : Database (List Text)
empty = record { schema = []; applied = [] }

abbrev migrated : Database (List Text)
migrated = record {
  schema = (b'a' ∷ []) ∷ (b'b' ∷ []) ∷ [];
  applied = (b'1' ∷ []) ∷ (b'2' ∷ []) ∷ [];
}

migrate_again_example :
    AllApplied migrated.applied files × (migrate keep migrated files ≡ (migrated, true))
unfolding migrate migrate_loop migrate_file exec_sql_script exec_statements is_applied
    split_sql_statements split_from split_byte toggled_quote plain_byte unquoted_byte tokenize
    is_word end_token close_token to_lower doubled strip_line_comments strip_from is_escape
    next_quotes is_written trim_space
migrate_again_example = migrate_again keep empty migrated files refl
