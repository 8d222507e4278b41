-- ===== src/Cards/Text.antt =====
-- Card.String and ParseCard of internal/game/common/cards.go, over the bytes of ASCII texts.
use mathlib.Core.List.{reverse}
use fifteen_thirty_one_go.Shared.{
  Bool, List, Option, Outcome, [], ap, arith, err, false, if◌then◌else◌, leb, ltb, map, none, ok,
  panic, refl, some, suc, true, zero, ℕ, ◌%◌, ◌&&◌, ◌*◌, ◌++◌, ◌+◌, ◌-◌, ◌/◌, ◌==◌, ◌>>=◌, ◌||◌,
  ◌∷◌, ◌≡◌, ◌≤◌,
}
use fifteen_thirty_one_go.Cards.{
  Card, Suit, ace, card_eq, card_eq_iff, clubs, diamonds, hearts, jack, king, queen, spades,
}

abbrev pub Text : Type 0
Text = List ℕ

pub data CardError : Type 0 where
  invalid_card_text invalid_rank invalid_suit : CardError

abbrev pub text_eq : Text → Text → Bool
text_eq [] [] = true
text_eq [] (d ∷ ds) = false
text_eq (c ∷ cs) [] = false
text_eq (c ∷ cs) (d ∷ ds) = c == d && text_eq cs ds

-- `fmt.Sprintf("%d", n)`: the digits of n, with fuel for their number.
decimal_fuel : ℕ → ℕ → Text
decimal_fuel zero n = []
decimal_fuel (suc f) n =
    let front = decimal_fuel f (n / 10) in
    if ltb n 10 then (b'0' + n) ∷ [] else front ++ (b'0' + n % 10) ∷ []

pub decimal : ℕ → Text
unfolding decimal_fuel
decimal n = decimal_fuel (suc n) n

suit_text : Suit → Text
suit_text spades = b'S' ∷ []
suit_text hearts = b'H' ∷ []
suit_text diamonds = b'D' ∷ []
suit_text clubs = b'C' ∷ []

rank_text : ℕ → Text
unfolding decimal
rank_text r =
    if r == ace
    then b'A' ∷ []
    else if r == jack
    then b'J' ∷ []
    else if r == queen
    then b'Q' ∷ []
    else if r == king
    then b'K' ∷ []
    else decimal r

-- Card.String.
unfoldable pub card_string : Card → Text
unfolding suit_text rank_text
card_string c = rank_text c.rank ++ suit_text c.suit

is_space : ℕ → Bool
is_space c = c == 32 || (leb 9 c && leb c 13)

to_upper : ℕ → ℕ
to_upper c = if leb b'a' c && leb c b'z' then c - 32 else c

trim_left : Text → Text
unfolding is_space
trim_left [] = []
trim_left (c ∷ cs) = if is_space c then trim_left cs else c ∷ cs

-- `strings.TrimSpace`.
unfoldable pub trim_space : Text → Text
unfolding trim_left
trim_space s = reverse (trim_left (reverse (trim_left s)))

is_digit : ℕ → Bool
is_digit c = leb b'0' c && leb c b'9'

-- The digits at the front of a text, read as a number; the rest is left unread.
read_digits : ℕ → Text → ℕ
unfolding is_digit
read_digits n [] = n
read_digits n (c ∷ cs) = if is_digit c then read_digits (n * 10 + (c - b'0')) cs else n

unsigned : Text → Option ℕ
unfolding read_digits
unsigned [] = none
unsigned (c ∷ cs) = if is_digit c then some (read_digits 0 (c ∷ cs)) else none

-- `fmt.Sscanf(s, "%d", &v)`: spaces, a sign and at least one digit. A number below zero is refused
-- by the caller, as a text with no number is.
scan_int : Text → Option ℕ
unfolding unsigned
scan_int [] = none
scan_int (c ∷ cs) = if c == b'+' then unsigned cs else if c == b'-' then none else unsigned (c ∷ cs)

sscanf_int : Text → Option ℕ
unfolding scan_int trim_left
sscanf_int s = scan_int (trim_left s)

parse_rank : Text → Outcome CardError ℕ
unfolding sscanf_int
parse_rank s =
    if text_eq s (b'A' ∷ [])
    then ok ace
    else if text_eq s (b'J' ∷ [])
    then ok jack
    else if text_eq s (b'Q' ∷ [])
    then ok queen
    else if text_eq s (b'K' ∷ [])
    then ok king
    else elim (sscanf_int s) [
      | none ↦ err invalid_rank
      | some v ↦ if ltb v 2 || ltb 10 v then err invalid_rank else ok v
    ]

parse_suit : ℕ → Outcome CardError Suit
parse_suit c =
    if c == b'S'
    then ok spades
    else if c == b'H'
    then ok hearts
    else if c == b'D'
    then ok diamonds
    else if c == b'C'
    then ok clubs
    else err invalid_suit

-- The last byte is the suit and those before it are the rank.
split_last : ℕ → Text → Text × ℕ
split_last c [] = ([], c)
split_last c (d ∷ ds) = let (front, last) = split_last d ds in (c ∷ front, last)

parse_parts : Text × ℕ → Outcome CardError Card
unfolding parse_rank parse_suit
parse_parts (rank_str, suit_byte) = do
  r ← parse_rank rank_str
  s ← parse_suit suit_byte
  ok (record { rank = r; suit = s })

parse_trimmed : Text → Outcome CardError Card
unfolding parse_parts split_last
parse_trimmed [] = err invalid_card_text
parse_trimmed (c ∷ []) = err invalid_card_text
parse_trimmed (c ∷ d ∷ rest) = parse_parts (split_last c (d ∷ rest))

-- ParseCard.
unfoldable pub parse_card : Text → Outcome CardError Card
unfolding parse_trimmed trim_space to_upper
parse_card s = parse_trimmed (trim_space (map to_upper s))

-- The cards with the thirteen ranks, as a test.
all_ranks : ℕ → (ℕ → Bool) → Bool
all_ranks zero p = true
all_ranks (suc n) p = p (suc n) && all_ranks n p

all_ranks_sound : (n : ℕ) (p : ℕ → Bool) (r : ℕ) → all_ranks n p ≡ true → 1 ≤ r → r ≤ n → p r ≡ true
unfolding all_ranks
all_ranks_sound zero p r h lo hi = absurd (omega arith)
all_ranks_sound (suc n) p r h lo hi = ground (arith, all_ranks_sound n p r)

reads_back : Suit → ℕ → Bool
reads_back s r = elim (parse_card (card_string (record { rank = r; suit = s }))) [
  | ok c ↦ card_eq c (record { rank = r; suit = s })
  | err e ↦ false
  | panic ↦ false
]

reads_back_table : (s : Suit) → all_ranks 13 (reads_back s) ≡ true
unfolding reads_back all_ranks parse_card card_string card_eq
reads_back_table spades = refl
reads_back_table hearts = refl
reads_back_table diamonds = refl
reads_back_table clubs = refl

reads_back_ok :
    (c d : Card) (r : Outcome CardError Card)
    → (elim r [ ok e ↦ card_eq e d | err e ↦ false | panic ↦ false ]) ≡ true
    → r ≡ ok d
reads_back_ok c d (ok e) h = ap ok ((card_eq_iff e d).0 h)
reads_back_ok c d (err e) h = cc
reads_back_ok c d panic h = cc

-- ParseCard reads back what Card.String prints, for every card of a rank from 1 to 13.
pub parse_card-card_string :
    (c : Card) → 1 ≤ c.rank → c.rank ≤ 13 → parse_card (card_string c) ≡ ok c
unfolding reads_back
parse_card-card_string c lo hi =
    reads_back_ok c c (parse_card (card_string c))
      (all_ranks_sound 13 (reads_back c.suit) c.rank (reads_back_table c.suit) lo hi)

parse_rank_range : (s : Text) {r : ℕ} → parse_rank s ≡ ok r → (1 ≤ r) × (r ≤ 13)
unfolding parse_rank
parse_rank_range s h = ground arith

with_rank :
    (r : Outcome CardError ℕ) (s : Outcome CardError Suit) {c : Card}
    → (r >>= λ n. s >>= λ t. ok (record { rank = n; suit = t })) ≡ ok c
    → r ≡ ok c.rank
with_rank (ok n) (ok t) h = ground arith
with_rank (ok n) (err e) h = cc
with_rank (ok n) panic h = cc
with_rank (err e) s h = cc
with_rank panic s h = cc

parse_trimmed_range : (t : Text) {c : Card} → parse_trimmed t ≡ ok c → (1 ≤ c.rank) × (c.rank ≤ 13)
unfolding parse_trimmed
parse_trimmed_range [] h = absurd (ground arith)
parse_trimmed_range (a ∷ []) h = absurd (ground arith)
parse_trimmed_range (a ∷ b ∷ rest) h =
    let parts = split_last a (b ∷ rest) in
    parse_rank_range parts.0 (with_rank (parse_rank parts.0) (parse_suit parts.1) h)

-- What ParseCard accepts is a card of a rank from 1 to 13, whatever the text.
pub parse_card_range : (s : Text) {c : Card} → parse_card s ≡ ok c → (1 ≤ c.rank) × (c.rank ≤ 13)
unfolding parse_card
parse_card_range s h = parse_trimmed_range (trim_space (map to_upper s)) h
