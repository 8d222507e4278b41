-- ===== src/Database/Script.antt =====
-- stripLineCommentsOutsideQuotes and splitSQLStatements of internal/database/db.go. Texts are lists of bytes;
-- the two flags for quotes are never both set, so they are one mode.
use fifteen_thirty_one_go.Shared.{Bool, [], false, if◌then◌else◌, not, true, ℕ, ◌&&◌, ◌==◌, ◌∷◌}
use fifteen_thirty_one_go.Cards.Text.{Text}

-- The inner loop that skips a comment is a mode of its own.
pub data Quotes : Type 0 where
  outside in_single in_double in_comment : Quotes

-- A quote that is doubled inside its own quotes.
unfoldable pub is_escape : Quotes → ℕ → ℕ → Bool
is_escape outside c d = false
is_escape in_single c d = c == b'\'' && d == b'\''
is_escape in_double c d = c == b'"' && d == b'"'
is_escape in_comment c d = false

-- The mode after a byte; `d` is the byte after it, or 0 at the end.
unfoldable pub next_quotes : Quotes → ℕ → ℕ → Quotes
next_quotes outside c d =
    if c == b'\''
    then in_single
    else if c == b'"'
    then in_double
    else if c == b'-' && d == b'-'
    then in_comment
    else outside
next_quotes in_single c d = if c == b'\'' then outside else in_single
next_quotes in_double c d = if c == b'"' then outside else in_double
next_quotes in_comment c d = if c == b'\n' then outside else in_comment

-- Whether the byte is written out.
unfoldable pub is_written : Quotes → ℕ → ℕ → Bool
is_written outside c d = not (c == b'-' && d == b'-')
is_written in_single c d = true
is_written in_double c d = true
is_written in_comment c d = c == b'\n'

abbrev pub write_if : Bool → ℕ → Text → Text
write_if true c rest = c ∷ rest
write_if false c rest = rest

unfoldable pub strip_from : Quotes → Text → Text
unfolding is_escape next_quotes is_written
strip_from q [] = []
strip_from q (c ∷ []) = write_if (is_written q c 0) c []
strip_from q (c ∷ d ∷ cs) = elim (is_escape q c d) [
  | true ↦ c ∷ d ∷ strip_from q cs
  | false ↦ write_if (is_written q c d) c (strip_from (next_quotes q c d) (d ∷ cs))
]

unfoldable pub strip_line_comments : Text → Text
unfolding strip_from
strip_line_comments s = strip_from outside s
