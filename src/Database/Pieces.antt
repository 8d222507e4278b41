-- ===== src/Database/Pieces.antt =====
-- The statements of a script are its pieces: nothing is lost, doubled or moved.
use mathlib.Core.List.{append_assoc, append-nil}
use fifteen_thirty_one_go.Shared.{
  Bool-cases, List, Option-cases, [], ap, arith, false, inl, inr, refl, sym, ℕ, ◌&&◌, ◌++◌, ◌==◌,
  ◌∙◌, ◌∷◌, ◌≡◌, ◌≢◌,
}
use fifteen_thirty_one_go.Cards.Text.{Text}
use fifteen_thirty_one_go.Database.Split.{
  Quoting, Splitter, close_token, double_quoted, doubled, end_token, is_word, plain_byte,
  single_quoted, split_byte, split_from, split_sql_statements, start, toggled_quote, tokenize,
  unquoted, unquoted_byte, with_rest, write_byte,
}

-- Statements with the semicolon that ended each of them.
abbrev pub terminated : List Text → Text
terminated [] = []
terminated (t ∷ ts) = t ++ (b';' ∷ terminated ts)

terminated-last :
    (ts : List Text) (t : Text) → terminated (ts ++ t ∷ []) ≡ terminated ts ++ (t ++ b';' ∷ [])
terminated-last [] t = refl
terminated-last (x ∷ xs) t =
    ap (λ r. x ++ (b';' ∷ r)) (terminated-last xs t)
    ∙ sym (append_assoc x (b';' ∷ terminated xs) (t ++ b';' ∷ []))

-- What a state has read.
abbrev read : Splitter → Text
read s = terminated s.out ++ s.buf

write_byte-read : (s : Splitter) (c : ℕ) → read (write_byte s c) ≡ read s ++ c ∷ []
write_byte-read s c = sym (append_assoc (terminated s.out) s.buf (c ∷ []))

-- Tokens are looked at, not taken out.
abbrev SameText : Splitter → Splitter → Type 0
SameText s t = (t.out ≡ s.out) × (t.buf ≡ s.buf)

end_token-SameText : (t : Text) (s : Splitter) → SameText s (end_token t s)
unfolding end_token close_token
end_token-SameText [] s = (refl, refl)
end_token-SameText (c ∷ cs) s = (refl, refl)

tokenize-SameText : (s : Splitter) (c : ℕ) → SameText s (tokenize s c)
unfolding tokenize
tokenize-SameText s c = elim (Bool-cases (is_word c)) [
  | inl e ↦ rw (e, tokenize) (refl, refl)
  | inr e ↦ rw (e, tokenize) (end_token-SameText s.tok s)
]

SameText-read : (s t : Splitter) → SameText s t → read t ≡ read s
SameText-read s t h = rw (h.0, h.1) refl

-- At a semicolon that ends a statement, the text read so far gets that semicolon.
ended-read :
    (s : Splitter) (out : List Text)
    → out ≡ s.out ++ s.buf ∷ []
    → terminated out ++ [] ≡ read s ++ b';' ∷ []
ended-read s out e =
    append-nil (terminated out)
    ∙ ap terminated e
    ∙ terminated-last s.out s.buf
    ∙ sym (append_assoc (terminated s.out) s.buf (b';' ∷ []))

unquoted_byte-read : (s : Splitter) (c : ℕ) → read (unquoted_byte s c) ≡ read s ++ c ∷ []
unfolding unquoted_byte
unquoted_byte-read s c =
    let t = tokenize s c in
    let same = SameText-read s t (tokenize-SameText s c) in
    elim (Bool-cases (c == b';' && t.block_depth == 0)) [
      | inl e ↦
          let semicolon : c ≡ b';' = ground arith in
          rw (e, unquoted_byte)
            (ended-read t (t.out ++ t.buf ∷ []) refl
              ∙ ap (λ r. r ++ b';' ∷ []) same
              ∙ ap (λ d. read s ++ d ∷ []) (sym semicolon))
      | inr e ↦ rw (e, unquoted_byte) (write_byte-read t c ∙ ap (λ r. r ++ c ∷ []) same)
    ]

plain_byte-read : (q : Quoting) (s : Splitter) (c : ℕ) → read (plain_byte q s c) ≡ read s ++ c ∷ []
unfolding plain_byte
plain_byte-read unquoted s c = unquoted_byte-read s c
plain_byte-read single_quoted s c = write_byte-read s c
plain_byte-read double_quoted s c = write_byte-read s c

split_byte-read : (s : Splitter) (c : ℕ) → read (split_byte s c) ≡ read s ++ c ∷ []
unfolding split_byte
split_byte-read s c = elim (Option-cases (toggled_quote s.quoting c)) [
  | inl e ↦ rw (e, split_byte) (plain_byte-read s.quoting s c)
  | inr (q, e) ↦ rw (e, split_byte) (write_byte-read s c)
]

split_from-read : (script : Text) (s : Splitter) → read (split_from s script) ≡ read s ++ script
unfolding split_from
split_from-read [] s = sym (append-nil (read s))
split_from-read (c ∷ []) s = split_byte-read s c
split_from-read (c ∷ d ∷ cs) s = elim (Bool-cases (doubled s.quoting c d)) [
  | inl e ↦
      rw (e, split_from)
        (split_from-read cs (write_byte (write_byte s c) d)
          ∙ ap (λ r. r ++ cs) (write_byte-read (write_byte s c) d)
          ∙ ap (λ r. (r ++ d ∷ []) ++ cs) (write_byte-read s c)
          ∙ append_assoc (read s ++ c ∷ []) (d ∷ []) cs
          ∙ append_assoc (read s) (c ∷ []) (d ∷ cs))
  | inr e ↦
      rw (e, split_from)
        (split_from-read (d ∷ cs) (split_byte s c)
          ∙ ap (λ r. r ++ d ∷ cs) (split_byte-read s c)
          ∙ append_assoc (read s) (c ∷ []) (d ∷ cs))
]

-- The statements of a script, each with the semicolon that ended it, and what follows the last of these
-- semicolons make up the script again, byte for byte; what follows is a last statement if it is
-- not empty.
pub split_sql_statements-pieces :
    (script : Text)
    → (ended : List Text) × (rest : Text) × (split_sql_statements script ≡ with_rest ended rest)
      × (terminated ended ++ rest ≡ script)
unfolding split_sql_statements
split_sql_statements-pieces script =
    let s = split_from start script in (s.out, s.buf, refl, split_from-read script start)

-- A byte does not stand in a text.
abbrev pub Without : ℕ → Text → Type 0
Without c [] = Unit
Without c (d ∷ ds) = (d ≢ c) × Without c ds

-- A text does not begin with a byte.
abbrev pub NotFirst : ℕ → Text → Type 0
NotFirst c [] = Unit
NotFirst c (d ∷ ds) = d ≢ c

abbrev quoted : Splitter → Splitter
quoted s = record s { quoting = single_quoted }

-- A byte inside quotes, and the rest.
quoted_byte :
    (s : Splitter) (c : ℕ) (cs : Text)
    → c ≢ b'\''
    → split_from (quoted s) (c ∷ cs) ≡ split_from (quoted (write_byte s c)) cs
unfolding split_from doubled split_byte toggled_quote plain_byte
quoted_byte s c [] h = ground (arith, h)
quoted_byte s c (d ∷ cs) h =
    let inside : (c == b'\'') ≡ false = ground (arith, h) in
    rw (inside, split_from) (rw (inside, split_byte) refl)

closing_quote :
    (s : Splitter) (rest : Text)
    → NotFirst b'\'' rest
    → split_from (quoted s) (b'\'' ∷ rest)
      ≡ split_from (record s { quoting = unquoted; buf = s.buf ++ b'\'' ∷ [] }) rest
unfolding split_from doubled split_byte toggled_quote plain_byte
closing_quote s [] h = refl
closing_quote s (d ∷ rest) h =
    let other : (d == b'\'') ≡ false = ground (arith, h) in rw (other, split_from) refl

-- Between quotes nothing is cut: a quoted text goes into its statement whole, with its semicolons and
-- comments and the quote that ends it.
pub split_from-quoted :
    (body rest : Text) (s : Splitter)
    → Without b'\'' body
    → NotFirst b'\'' rest
    → split_from (record s { quoting = single_quoted }) (body ++ (b'\'' ∷ rest))
      ≡ split_from (record s { quoting = unquoted; buf = s.buf ++ (body ++ b'\'' ∷ []) }) rest
split_from-quoted [] rest s h h' = closing_quote s rest h'
split_from-quoted (c ∷ body) rest s h h' =
    quoted_byte s c (body ++ (b'\'' ∷ rest)) h.0
    ∙ split_from-quoted body rest (write_byte s c) h.1 h'
    ∙ ap (λ b. split_from (record s { quoting = unquoted; buf = b }) rest)
        (append_assoc s.buf (c ∷ []) (body ++ b'\'' ∷ []))
