-- ===== src/Bot.antt =====
-- internal/game/cribbage/bot.go: the choices of a bot. The numbers of botRand are the draws. Its
-- Shuffle runs the loop of the deck's; where the draws have run out each card is exchanged with
-- itself. The mutex around botRand orders the draws and is left out.
pub mod Discards
pub mod Plays
use fifteen_thirty_one_go.Shared.{
  Bool, List, Option, Outcome, [], err, false, get_elem?, if◌then◌else◌, leb, length, ltb, negsuc,
  none, not, ok, panic, pos, some, suc, take, true, ℕ, ℤ, ◌%◌, ◌&&◌, ◌*◌, ◌+◌, ◌-◌, ◌==◌, ◌∷◌,
}
use fifteen_thirty_one_go.Cards.{Card, Suit, clubs, diamonds, hearts, spades, value15}
use fifteen_thirty_one_go.Deck.{shuffle}
use fifteen_thirty_one_go.Scoring.Pegging.{pegging_score}
use fifteen_thirty_one_go.Store.Games.{BotDifficulty, hard, medium}

pub data BotError : Type 0 where
  bad_discard_count hand_too_small : BotError

-- The order of the strings "C", "D", "H" and "S".
abbrev suit_order : Suit → ℕ
suit_order clubs = 0
suit_order diamonds = 1
suit_order hearts = 2
suit_order spades = 3

-- The comparison that sort.Slice is called with.
unfoldable pub before : Card → Card → Bool
before a b =
    if not (value15 a == value15 b)
    then ltb (value15 a) (value15 b)
    else if not (a.rank == b.rank)
    then ltb a.rank b.rank
    else ltb (suit_order a.suit) (suit_order b.suit)

unfoldable pub insert_card : Card → List Card → List Card
insert_card c [] = c ∷ []
insert_card c (d ∷ cards) =
    let rest = insert_card c cards in if before d c then d ∷ rest else c ∷ d ∷ cards

-- sort.Slice. Cards that the comparison does not tell apart are equal, so that every sorting by it
-- gives the same list.
unfoldable pub sort_cards : List Card → List Card
unfolding insert_card
sort_cards [] = []
sort_cards (c ∷ cards) = insert_card c (sort_cards cards)

-- The cards in the order in which the first ones are discarded.
unfoldable pub ordered : BotDifficulty → List Card → List ℕ → List Card
ordered medium hand draws = sort_cards hand
ordered hard hand draws = sort_cards hand
ordered _ hand draws = (shuffle hand draws).0

unfoldable pub choose_discard_n :
    List Card → ℤ → BotDifficulty → List ℕ → Outcome BotError (List Card)
choose_discard_n hand (negsuc _) difficulty draws = err bad_discard_count
choose_discard_n hand (pos n) difficulty draws =
    if n == 0
    then err bad_discard_count
    else if ltb (length hand) n
    then err hand_too_small
    else ok (take n (ordered difficulty hand draws))

unfoldable pub legal_of : ℕ → List Card → List Card
legal_of total [] = []
legal_of total (c ∷ hand) =
    let rest = legal_of total hand in if leb (total + value15 c) 31 then c ∷ rest else rest

-- `need >= 1 && need <= 10` for `need := target - total`.
abbrev is_setup : ℕ → ℕ → Bool
is_setup target total = ltb total target && leb target (total + 10)

-- The score of a play. It is counted from -999999, the score that the loop starts with.
unfoldable pub play_score : ℕ → List Card → Bool → Card → ℕ
play_score total play_seq risk c =
    let pegged = pegging_score play_seq c total in
    let penalty_15 = if risk && is_setup 15 pegged.new_total then 3 else 0 in
    let penalty_31 = if risk && is_setup 31 pegged.new_total then 3 else 0 in
    999999 + pegged.points * 100 - (value15 c + penalty_15 + penalty_31)

-- The loop, at index i with the best index and score so far.
unfoldable pub best_loop : (Card → ℕ) → List Card → ℕ → ℕ → ℕ → ℕ
best_loop score [] i best_idx best_score = best_idx
best_loop score (c ∷ legal) i best_idx best_score =
    let better = ltb best_score (score c) in
    best_loop score legal (suc i) (if better then i else best_idx)
      (if better then score c else best_score)

abbrev pub picked : Option Card → Outcome BotError (Option Card)
picked none = panic
picked (some c) = ok (some c)

unfoldable pub best_immediate_pegging :
    List Card → ℕ → List Card → Bool → Outcome BotError (Option Card)
unfolding best_loop
best_immediate_pegging legal total play_seq risk =
    picked (get_elem? legal (best_loop (play_score total play_seq risk) legal 0 0 0))

-- The choice among the legal cards.
unfoldable pub choose_legal :
    BotDifficulty → List Card → ℕ → List Card → ℕ → Outcome BotError (Option Card)
choose_legal medium legal total play_seq draw = best_immediate_pegging legal total play_seq false
choose_legal hard legal total play_seq draw = best_immediate_pegging legal total play_seq true
choose_legal _ legal total play_seq draw = picked (get_elem? legal (draw % length legal))

-- `none` is goPlay.
unfoldable pub choose_pegging_play :
    List Card → ℕ → List Card → BotDifficulty → ℕ → Outcome BotError (Option Card)
choose_pegging_play hand total play_seq difficulty draw = elim (legal_of total hand) [
  | [] ↦ ok none
  | c ∷ rest ↦ choose_legal difficulty (c ∷ rest) total play_seq draw
]
