-- ===== src/Database/Comments.antt =====
-- What stripping does to comments, to quoted text and to all else.
use fifteen_thirty_one_go.Shared.{[], ap, arith, false, refl, ℕ, ◌++◌, ◌==◌, ◌∙◌, ◌∷◌, ◌≡◌, ◌≢◌}
use fifteen_thirty_one_go.Cards.Text.{Text}
use fifteen_thirty_one_go.Database.Pieces.{NotFirst, Without}
use fifteen_thirty_one_go.Database.Script.{
  in_comment, in_single, is_escape, is_written, next_quotes, outside, strip_from,
  strip_line_comments,
}

-- The end of a comment: its newline stays.
comment-end :
    (body rest : Text)
    → Without b'\n' body
    → strip_from in_comment (body ++ (b'\n' ∷ rest)) ≡ b'\n' ∷ strip_from outside rest
unfolding strip_from is_escape next_quotes is_written
comment-end [] [] h = refl
comment-end [] (d ∷ rest) h = refl
comment-end (c ∷ []) rest h =
    let other : (c == b'\n') ≡ false = ground (arith, h.0) in
    rw (other, strip_from) (comment-end [] rest tt)
comment-end (c ∷ d ∷ body) rest h =
    let other : (c == b'\n') ≡ false = ground (arith, h.0) in
    rw (other, strip_from) (comment-end (d ∷ body) rest h.1)

-- A byte that has no part in quotes and comments.
abbrev pub IsPlain : ℕ → Type 0
IsPlain c = (c ≢ b'\'') × (c ≢ b'"') × (c ≢ b'-')

abbrev pub AllPlain : Text → Type 0
AllPlain [] = Unit
AllPlain (c ∷ cs) = IsPlain c × AllPlain cs

plain_byte_written :
    (c : ℕ) (cs : Text) → IsPlain c → strip_from outside (c ∷ cs) ≡ c ∷ strip_from outside cs
unfolding strip_from is_escape next_quotes is_written
plain_byte_written c [] h = ground (arith, h)
plain_byte_written c (d ∷ cs) h =
    let no_single : (c == b'\'') ≡ false = ground (arith, h) in
    let no_double : (c == b'"') ≡ false = ground (arith, h) in
    let no_dash : (c == b'-') ≡ false = ground (arith, h) in
    rw (no_single, strip_from, no_double, no_dash) refl

plain-written :
    (plain rest : Text)
    → AllPlain plain
    → strip_from outside (plain ++ rest) ≡ plain ++ strip_from outside rest
plain-written [] rest h = refl
plain-written (c ∷ plain) rest h =
    plain_byte_written c (plain ++ rest) h.0 ∙ ap (λ r. c ∷ r) (plain-written plain rest h.1)

-- A byte inside single quotes that does not end them.
quoted_byte_written :
    (c : ℕ) (cs : Text) → c ≢ b'\'' → strip_from in_single (c ∷ cs) ≡ c ∷ strip_from in_single cs
unfolding strip_from is_escape next_quotes is_written
quoted_byte_written c [] h = ground (arith, h)
quoted_byte_written c (d ∷ cs) h =
    let inside : (c == b'\'') ≡ false = ground (arith, h) in
    rw (inside, strip_from, inside, next_quotes) refl

closing_written :
    (rest : Text)
    → NotFirst b'\'' rest
    → strip_from in_single (b'\'' ∷ rest) ≡ b'\'' ∷ strip_from outside rest
unfolding strip_from is_escape next_quotes is_written
closing_written [] h = refl
closing_written (d ∷ rest) h =
    let other : (d == b'\'') ≡ false = ground (arith, h) in rw (other, strip_from) refl

opening_written :
    (rest : Text) → strip_from outside (b'\'' ∷ rest) ≡ b'\'' ∷ strip_from in_single rest
unfolding strip_from is_escape next_quotes is_written
opening_written [] = refl
opening_written (d ∷ rest) = refl

quoted-written :
    (body rest : Text)
    → Without b'\'' body
    → NotFirst b'\'' rest
    → strip_from in_single (body ++ (b'\'' ∷ rest)) ≡ body ++ (b'\'' ∷ strip_from outside rest)
quoted-written [] rest h h' = closing_written rest h'
quoted-written (c ∷ body) rest h h' =
    quoted_byte_written c (body ++ (b'\'' ∷ rest)) h.0
    ∙ ap (λ r. c ∷ r) (quoted-written body rest h.1 h')

dash : ◌≢◌ {A = ℕ} b'-' b'\n'
dash = ground arith

-- A comment outside quotes goes, up to the newline that ends it, which stays; what comes before it is
-- written as it is.
pub strip_line_comments-comment :
    (plain body rest : Text)
    → AllPlain plain
    → Without b'\n' body
    → strip_line_comments (plain ++ (b'-' ∷ b'-' ∷ (body ++ (b'\n' ∷ rest))))
      ≡ plain ++ (b'\n' ∷ strip_line_comments rest)
unfolding strip_line_comments strip_from is_escape next_quotes is_written
strip_line_comments-comment plain body rest h h' =
    plain-written plain (b'-' ∷ b'-' ∷ (body ++ (b'\n' ∷ rest))) h
    ∙ ap (λ r. plain ++ r) (comment-end (b'-' ∷ body) rest (dash, h'))

-- A text in single quotes stays as it is, also where it looks like a comment.
pub strip_line_comments-quoted :
    (plain body rest : Text)
    → AllPlain plain
    → Without b'\'' body
    → NotFirst b'\'' rest
    → strip_line_comments (plain ++ (b'\'' ∷ (body ++ (b'\'' ∷ rest))))
      ≡ plain ++ (b'\'' ∷ (body ++ (b'\'' ∷ strip_line_comments rest)))
unfolding strip_line_comments
strip_line_comments-quoted plain body rest h h' h'' =
    plain-written plain (b'\'' ∷ (body ++ (b'\'' ∷ rest))) h
    ∙ ap (λ r. plain ++ r) (opening_written (body ++ (b'\'' ∷ rest)))
    ∙ ap (λ r. plain ++ (b'\'' ∷ r)) (quoted-written body rest h' h'')
