-- ===== src/Database/Split.antt =====
-- splitSQLStatements of internal/database/db.go: a script is cut at its semicolons, but not at those in
-- quotes and not at those in the body of a trigger.
use fifteen_thirty_one_go.Shared.{
  Bool, List, Option, [], false, if◌then◌else◌, leb, none, not, some, true, ℕ, ◌&&◌, ◌++◌, ◌+◌, ◌-◌,
  ◌==◌, ◌||◌, ◌∷◌,
}
use fifteen_thirty_one_go.Cards.Text.{Text, text_eq}

pub data Quoting : Type 0 where
  unquoted single_quoted double_quoted : Quoting

-- The local variables of the loop; `buf` is `b`, and `out` the statements so far.
pub record Splitter : Type 0 where
  pub quoting : Quoting
  pub in_trigger_def : Bool
  pub block_depth : ℕ
  pub tok : Text
  pub prev_tok1 : Text
  pub prev_tok2 : Text
  pub buf : Text
  pub out : List Text

-- A quote that is doubled inside its own quotes.
unfoldable pub doubled : Quoting → ℕ → ℕ → Bool
doubled unquoted c d = false
doubled single_quoted c d = c == b'\'' && d == b'\''
doubled double_quoted c d = c == b'"' && d == b'"'

-- A byte that opens or closes quotes, and what it leads to.
unfoldable pub toggled_quote : Quoting → ℕ → Option Quoting
toggled_quote unquoted c =
    if c == b'\'' then some single_quoted else if c == b'"' then some double_quoted else none
toggled_quote single_quoted c = if c == b'\'' then some unquoted else none
toggled_quote double_quoted c = if c == b'"' then some unquoted else none

unfoldable pub is_word : ℕ → Bool
is_word c = (leb b'A' c && leb c b'Z') || ((leb b'a' c && leb c b'z') || c == b'_')

-- `strings.ToLower` of a word.
unfoldable pub to_lower : Text → Text
to_lower [] = []
to_lower (c ∷ cs) = (if leb b'A' c && leb c b'Z' then c + 32 else c) ∷ to_lower cs

abbrev pub word_trigger : Text
word_trigger = b't' ∷ b'r' ∷ b'i' ∷ b'g' ∷ b'g' ∷ b'e' ∷ b'r' ∷ []

abbrev pub word_create : Text
word_create = b'c' ∷ b'r' ∷ b'e' ∷ b'a' ∷ b't' ∷ b'e' ∷ []

abbrev pub word_begin : Text
word_begin = b'b' ∷ b'e' ∷ b'g' ∷ b'i' ∷ b'n' ∷ []

abbrev pub word_case : Text
word_case = b'c' ∷ b'a' ∷ b's' ∷ b'e' ∷ []

abbrev pub word_end : Text
word_end = b'e' ∷ b'n' ∷ b'd' ∷ []

-- What a finished token does: it may start a trigger, and open or close a block of one.
unfoldable pub close_token : Splitter → Text → Splitter
close_token s t =
    let in_trigger =
      s.in_trigger_def
      || (text_eq t word_trigger
          && (text_eq s.prev_tok1 word_create || text_eq s.prev_tok2 word_create)) in
    let depth =
      if not in_trigger
      then s.block_depth
      else if text_eq t word_begin || text_eq t word_case
      then s.block_depth + 1
      else if text_eq t word_end
      then s.block_depth - 1
      else s.block_depth in
    record s {
      in_trigger_def = in_trigger;
      block_depth = depth;
      tok = [];
      prev_tok2 = s.prev_tok1;
      prev_tok1 = t;
    }

-- A byte that belongs to no word ends the token before it, if there is one.
unfoldable pub end_token : Text → Splitter → Splitter
unfolding close_token to_lower
end_token [] s = s
end_token (t ∷ ts) s = close_token s (to_lower (t ∷ ts))

unfoldable pub tokenize : Splitter → ℕ → Splitter
unfolding is_word end_token
tokenize s c = if is_word c then record s { tok = s.tok ++ c ∷ [] } else end_token s.tok s

abbrev pub write_byte : Splitter → ℕ → Splitter
write_byte s c = record s { buf = s.buf ++ c ∷ [] }

-- A byte that is no quote, outside quotes.
unfoldable pub unquoted_byte : Splitter → ℕ → Splitter
unfolding tokenize
unquoted_byte s c =
    let t = tokenize s c in
    if c == b';' && t.block_depth == 0
    then record t {
      out = t.out ++ t.buf ∷ [];
      buf = [];
      in_trigger_def = false;
      prev_tok1 = [];
      prev_tok2 = [];
    }
    else write_byte t c

unfoldable pub plain_byte : Quoting → Splitter → ℕ → Splitter
unfolding unquoted_byte
plain_byte unquoted s c = unquoted_byte s c
plain_byte single_quoted s c = write_byte s c
plain_byte double_quoted s c = write_byte s c

unfoldable pub split_byte : Splitter → ℕ → Splitter
unfolding toggled_quote plain_byte
split_byte s c = elim (toggled_quote s.quoting c) [
  | some q ↦ record (write_byte s c) { quoting = q }
  | none ↦ plain_byte s.quoting s c
]

unfoldable pub split_from : Splitter → Text → Splitter
unfolding doubled split_byte
split_from s [] = s
split_from s (c ∷ []) = split_byte s c
split_from s (c ∷ d ∷ cs) = elim (doubled s.quoting c d) [
  | true ↦ split_from (write_byte (write_byte s c) d) cs
  | false ↦ split_from (split_byte s c) (d ∷ cs)
]

abbrev pub start : Splitter
start = record {
  quoting = unquoted;
  in_trigger_def = false;
  block_depth = 0;
  tok = [];
  prev_tok1 = [];
  prev_tok2 = [];
  buf = [];
  out = [];
}

-- `if b.Len() > 0 { out = append(out, b.String()) }`.
abbrev pub with_rest : List Text → Text → List Text
with_rest out [] = out
with_rest out (c ∷ cs) = out ++ (c ∷ cs) ∷ []

unfoldable pub split_sql_statements : Text → List Text
unfolding split_from
split_sql_statements script = let s = split_from start script in with_rest s.out s.buf
