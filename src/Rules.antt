-- ===== src/Rules.antt =====
-- internal/game/cribbage/rules.go: the sizes that depend on the number of players.
use fifteen_thirty_one_go.Shared.{
  arith, if◌then◌else◌, inl, inr, ltb, negsuc, pos, ℕ, ℤ, ◌*◌, ◌+◌, ◌==◌, ◌||◌, ◌≡◌, ◌≤◌, ◌⊎◌,
}

pub record Rules : Type 0 where
  pub max_players : ℕ

-- DefaultRules brings the number of players between 2 and 4.
unfoldable pub default_rules : ℤ → Rules
default_rules (negsuc _) = record { max_players = 2 }
default_rules (pos players) =
    let least = if ltb players 2 then 2 else players in
    record { max_players = if ltb 4 least then 4 else least }

unfoldable pub hand_size : Rules → ℕ
hand_size r =
    if r.max_players == 2 then 6 else if r.max_players == 3 || r.max_players == 4 then 5 else 6

unfoldable pub discard_count : Rules → ℕ
discard_count r =
    if r.max_players == 2 then 2 else if r.max_players == 3 || r.max_players == 4 then 1 else 2

unfoldable pub crib_size : Rules → ℕ
crib_size r = 4

-- The rules that DefaultRules gives and Deal accepts.
pub record IsPlayable (r : Rules) : Type 0 where
  pub at_least_two : 2 ≤ r.max_players
  pub at_most_four : r.max_players ≤ 4

-- DefaultRules gives playable rules for any number that it is asked for.
pub default_rules-IsPlayable : (players : ℤ) → IsPlayable (default_rules players)
unfolding default_rules
default_rules-IsPlayable (negsuc _) = ground arith
default_rules-IsPlayable (pos players) = ground arith

-- Under playable rules every player keeps four cards, the crib gets four of them and a card of the
-- deck where three play, and one deck is enough for the deal, the crib and the cut.
pub hand_size-discard_count :
    (r : Rules)
    → IsPlayable r
    → (hand_size r ≡ discard_count r + 4)
      × (r.max_players * discard_count r + (if r.max_players == 3 then 1 else 0) ≡ crib_size r)
      × (r.max_players * hand_size r + 2 ≤ 52)
unfolding hand_size discard_count crib_size
hand_size-discard_count r h = by_players r.max_players h.at_least_two h.at_most_four
  where
    by_players :
        (n : ℕ)
        → 2 ≤ n
        → n ≤ 4
        → let q : Rules = record { max_players = n } in
          (hand_size q ≡ discard_count q + 4)
          × (n * discard_count q + (if n == 3 then 1 else 0) ≡ crib_size q)
          × (n * hand_size q + 2 ≤ 52)
    by_players n lo hi = elim (which n lo hi) [
      | inl e ↦ rw e (omega arith)
      | inr (inl e) ↦ rw e (omega arith)
      | inr (inr e) ↦ rw e (omega arith)
    ]
      where
        which : (n : ℕ) → 2 ≤ n → n ≤ 4 → (n ≡ 2) ⊎ ((n ≡ 3) ⊎ (n ≡ 4))
        which n lo hi = grind arith
