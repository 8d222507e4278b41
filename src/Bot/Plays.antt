-- ===== src/Bot/Plays.antt =====
-- ChoosePeggingPlay and bestImmediatePegging of internal/game/cribbage/bot.go.
use native.Mathlib.Nat.{mod-lt}
use fifteen_thirty_one_go.Shared.{
  Bool, Bool-cases, List, Option, Outcome, [], ap, arith, false, get_elem?, get_elem?_in, inl, inr,
  leb, length, ltb, none, ok, refl, some, suc, true, zero, ℕ, ◌%◌, ◌+◌, ◌<◌, ◌∙◌, ◌∷◌, ◌≡◌, ◌≤◌,
  ◌⊎◌,
}
use fifteen_thirty_one_go.Bot.{
  BotError, best_immediate_pegging, best_loop, choose_legal, choose_pegging_play, legal_of, picked,
  play_score,
}
use fifteen_thirty_one_go.Cards.{Card, card_eq, card_eq_iff, value15, value15-le}
use fifteen_thirty_one_go.Engine.Rounds.{has_legal_card}
use fifteen_thirty_one_go.Engine.State.{find_card}
use fifteen_thirty_one_go.Store.Games.{BotDifficulty, easy, hard, medium, unknown_difficulty}

-- No card of a list scores more than n.
abbrev AtMost : (Card → ℕ) → List Card → ℕ → Type 0
AtMost score cards n = (j : ℕ) (d : Card) → get_elem? cards j ≡ some d → score d ≤ n

-- The card at an index has the highest score of all.
pub record IsBest (score : Card → ℕ) (cards : List Card) (j : ℕ) : Type 0 where
  pub card : Card
  pub at : get_elem? cards j ≡ some card
  pub others : (k : ℕ) (d : Card) → get_elem? cards k ≡ some d → score d ≤ score card

AtMost-cons :
    (score : Card → ℕ) (c : Card) (cards : List Card) (n : ℕ)
    → score c ≤ n
    → AtMost score cards n
    → AtMost score (c ∷ cards) n
AtMost-cons score c cards n h k zero d e = ground arith
AtMost-cons score c cards n h k (suc j) d e = k j d e

-- What the loop finds from index i on.
abbrev Found : (Card → ℕ) → ℕ → ℕ → ℕ → List Card → Type 0
Found score i idx best cards =
    ((best_loop score cards i idx best ≡ idx) × AtMost score cards best)
    ⊎ ((j : ℕ) × (q : IsBest score cards j) × (best_loop score cards i idx best ≡ i + j)
        × (best ≤ score q.card))

-- The loop stays at the best of before, or finds a better one further on.
best_loop_lem :
    (score : Card → ℕ) (cards : List Card) (i idx best : ℕ)
    → ((best_loop score cards i idx best ≡ idx) × AtMost score cards best)
      ⊎ ((j : ℕ) × (q : IsBest score cards j) × (best_loop score cards i idx best ≡ i + j)
          × (best ≤ score q.card))
unfolding best_loop
best_loop_lem score [] i idx best = inl (refl, λ j d e. absurd (ground arith))
best_loop_lem score (c ∷ cards) i idx best = elim (Bool-cases (ltb best (score c))) [
  | inl e ↦ found e (best_loop_lem score cards (suc i) i (score c))
  | inr e ↦ passed e (best_loop_lem score cards (suc i) idx best)
]
  where
    found :
        ltb best (score c) ≡ true
        → Found score (suc i) i (score c) cards
        → Found score i idx best (c ∷ cards)
    found e (inl (same, most)) = inr (
      0,
      record {
        card = c;
        at = refl;
        others = AtMost-cons score c cards (score c) (omega arith) most;
      },
      ground arith,
      ground arith,
    )
    found e (inr (j, q, same, above)) = inr (
      suc j,
      record {
        card = q.card;
        at = q.at;
        others = AtMost-cons score c cards (score q.card) above q.others;
      },
      ground arith,
      ground arith,
    )

    passed :
        ltb best (score c) ≡ false
        → Found score (suc i) idx best cards
        → Found score i idx best (c ∷ cards)
    passed e (inl (same, most)) =
        inl (ground arith, AtMost-cons score c cards best (ground arith) most)
    passed e (inr (j, q, same, above)) = inr (
      suc j,
      record {
        card = q.card;
        at = q.at;
        others = AtMost-cons score c cards (score q.card) (ground arith) q.others;
      },
      ground arith,
      above,
    )

-- A card of the hand that does not take the total over 31.
abbrev Legal : ℕ → List Card → Card → Type 0
Legal total hand c = (total + value15 c ≤ 31) × ((k : ℕ) × (get_elem? hand k ≡ some c))

Legal-cons :
    (total : ℕ) (hand : List Card) (c d : Card) → Legal total hand c → Legal total (d ∷ hand) c
Legal-cons total hand c d (h, (k, e)) = (h, (suc k, e))

legal_of-Legal :
    (total : ℕ) (hand : List Card) (j : ℕ) (c : Card)
    → get_elem? (legal_of total hand) j ≡ some c
    → Legal total hand c
unfolding legal_of
legal_of-Legal total [] j c h = absurd (ground arith)
legal_of-Legal total (d ∷ hand) j c h = elim (Bool-cases (leb (total + value15 d) 31)) [
  | inl e ↦ first (λ i f. legal_of-Legal total hand i c f) e j (rw (e, legal_of) at h)
  | inr e ↦ Legal-cons total hand c d (legal_of-Legal total hand j c (rw (e, legal_of) at h))
]
  where
    first :
        ((i : ℕ) → get_elem? (legal_of total hand) i ≡ some c → Legal total hand c)
        → leb (total + value15 d) 31 ≡ true
        → (i : ℕ) → get_elem? (d ∷ legal_of total hand) i ≡ some c
        → Legal total (d ∷ hand) c
    first ih e zero f = (ground arith, (0, f))
    first ih e (suc i) f = Legal-cons total hand c d (ih i f)

-- There is a legal card where the engine sees one.
legal_of-has_legal_card :
    (total : ℕ) (hand : List Card) → legal_of total hand ≡ [] → has_legal_card total hand ≡ false
unfolding legal_of has_legal_card
legal_of-has_legal_card total [] h = refl
legal_of-has_legal_card total (c ∷ hand) h = elim (Bool-cases (leb (total + value15 c) 31)) [
  | inl e ↦ absurd (ground arith)
  | inr e ↦ rw (e, has_legal_card) (legal_of-has_legal_card total hand (rw (e, legal_of) at h))
]

-- The score of a play is above the score that the loop starts with.
play_score-pos :
    (total : ℕ) (play_seq : List Card) (risk : Bool) (c : Card)
    → 0 < play_score total play_seq risk c
unfolding play_score
play_score-pos total play_seq risk c = ground (arith, value15-le c)

best_immediate_pegging-IsBest :
    (c : Card) (rest : List Card) (total : ℕ) (play_seq : List Card) (risk : Bool)
    → (j : ℕ) × (q : IsBest (play_score total play_seq risk) (c ∷ rest) j) × (best_immediate_pegging
          (c ∷ rest)
          total
          play_seq
          risk
        ≡ ok (some q.card))
unfolding best_immediate_pegging
best_immediate_pegging-IsBest c rest total play_seq risk =
    elim (best_loop_lem (play_score total play_seq risk) (c ∷ rest) 0 0 0) [
      | inl (same, most) ↦
          absurd (omega (arith, most 0 c refl, play_score-pos total play_seq risk c))
      | inr (j, q, same, above) ↦ (j, q, chosen j (omega (arith, same)) q.at)
    ]
  where
    chosen :
        (j : ℕ) {d : Card}
        → best_loop (play_score total play_seq risk) (c ∷ rest) 0 0 0 ≡ j
        → get_elem? (c ∷ rest) j ≡ some d
        → best_immediate_pegging (c ∷ rest) total play_seq risk ≡ ok (some d)
    chosen j same at = ap (λ k. picked (get_elem? (c ∷ rest) k)) same ∙ ap picked at

-- A card that stands in a hand is found there.
find_card_found :
    (c : Card) (hand : List Card) (k : ℕ)
    → get_elem? hand k ≡ some c
    → (i : ℕ) × (find_card c hand ≡ some i)
unfolding find_card
find_card_found c [] k h = absurd (ground arith)
find_card_found c (d ∷ hand) k h = elim (Bool-cases (card_eq d c)) [
  | inl e ↦ (0, rw (e, find_card) refl)
  | inr e ↦ later e k h (λ i f. find_card_found c hand i f)
]
  where
    later :
        card_eq d c ≡ false
        → (i : ℕ) → get_elem? (d ∷ hand) i ≡ some c
        → ((i : ℕ) → get_elem? hand i ≡ some c → (n : ℕ) × (find_card c hand ≡ some n))
        → (n : ℕ) × (find_card c (d ∷ hand) ≡ some n)
    later e zero f ih = absurd (ground (arith, card_eq_iff d c))
    later e (suc i) f ih = let (n, g) = ih i f in (suc n, ground arith)

-- What the bot answers: a card that the engine will find in the hand and that does not exceed 31, or
-- that it has no legal card.
pub data IsLegalChoice (hand : List Card) (total : ℕ)
    : Outcome BotError (Option Card) → Type 0 where
  plays :
      (c : Card) (i : ℕ)
      → find_card c hand ≡ some i
      → total + value15 c ≤ 31
      → IsLegalChoice hand total (ok (some c))
  goes : has_legal_card total hand ≡ false → IsLegalChoice hand total (ok none)

Legal-IsLegalChoice :
    (hand : List Card) (total : ℕ) (c : Card)
    → Legal total hand c
    → IsLegalChoice hand total (ok (some c))
Legal-IsLegalChoice hand total c (h, (k, e)) =
    let (i, f) = find_card_found c hand k e in plays c i f h

picked-IsLegalChoice :
    (hand : List Card) (total : ℕ) (c : Card) (rest : List Card) (j : ℕ)
    → ((i : ℕ) (d : Card) → get_elem? (c ∷ rest) i ≡ some d → Legal total hand d)
    → j < length (c ∷ rest)
    → IsLegalChoice hand total (picked (get_elem? (c ∷ rest) j))
picked-IsLegalChoice hand total c rest j all h =
    let (d, e) = get_elem?_in (c ∷ rest) j h in rw e (Legal-IsLegalChoice hand total d (all j d e))

best_immediate_pegging-IsLegalChoice :
    (hand : List Card) (total : ℕ) (c : Card) (rest : List Card) (play_seq : List Card)
    (risk : Bool)
    → ((i : ℕ) (d : Card) → get_elem? (c ∷ rest) i ≡ some d → Legal total hand d)
    → IsLegalChoice hand total (best_immediate_pegging (c ∷ rest) total play_seq risk)
best_immediate_pegging-IsLegalChoice hand total c rest play_seq risk all =
    let (j, q, e) = best_immediate_pegging-IsBest c rest total play_seq risk in
    rw e (Legal-IsLegalChoice hand total q.card (all j q.card q.at))

choose_legal-IsLegalChoice :
    (difficulty : BotDifficulty) (hand : List Card) (total : ℕ) (c : Card) (rest : List Card)
    (play_seq : List Card) (draw : ℕ)
    → ((i : ℕ) (d : Card) → get_elem? (c ∷ rest) i ≡ some d → Legal total hand d)
    → IsLegalChoice hand total (choose_legal difficulty (c ∷ rest) total play_seq draw)
unfolding choose_legal
choose_legal-IsLegalChoice easy hand total c rest play_seq draw all =
    picked-IsLegalChoice hand total c rest (draw % length (c ∷ rest)) all
      (mod-lt draw (omega arith))
choose_legal-IsLegalChoice medium hand total c rest play_seq draw all =
    best_immediate_pegging-IsLegalChoice hand total c rest play_seq false all
choose_legal-IsLegalChoice hard hand total c rest play_seq draw all =
    best_immediate_pegging-IsLegalChoice hand total c rest play_seq true all
choose_legal-IsLegalChoice unknown_difficulty hand total c rest play_seq draw all =
    picked-IsLegalChoice hand total c rest (draw % length (c ∷ rest)) all
      (mod-lt draw (omega arith))

-- A bot of any difficulty and with any draw answers, with a card of its hand that does not take the
-- total over 31, or with a go exactly where the engine sees no legal card in the hand.
pub choose_pegging_play-IsLegalChoice :
    (hand : List Card) (total : ℕ) (play_seq : List Card) (difficulty : BotDifficulty) (draw : ℕ)
    → IsLegalChoice hand total (choose_pegging_play hand total play_seq difficulty draw)
unfolding choose_pegging_play
choose_pegging_play-IsLegalChoice hand total play_seq difficulty draw =
    from (legal_of total hand) refl
  where
    from :
        (legal : List Card)
        → legal_of total hand ≡ legal
        → IsLegalChoice hand total (choose_pegging_play hand total play_seq difficulty draw)
    from [] e = rw (e, choose_pegging_play) (goes (legal_of-has_legal_card total hand e))
    from (c ∷ rest) e =
        rw (e, choose_pegging_play)
          (choose_legal-IsLegalChoice difficulty hand total c rest play_seq draw
            (λ j d f. legal_of-Legal total hand j d (rw e f)))
