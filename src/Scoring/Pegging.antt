-- ===== src/Scoring/Pegging.antt =====
-- PeggingScore and isRun: what a card scores while the play goes on.
use mathlib.Core.List.{reverse}
use fifteen_thirty_one_go.Shared.{
  Bool, List, Option, [], drop, false, if◌then◌else◌, length, ltb, negsuc, none, not, pos, refl,
  some, suc, true, zero, ℕ, ℤ, ◌++◌, ◌+◌, ◌-◌, ◌==◌, ◌||◌, ◌∷◌, ◌≡◌,
}
use fifteen_thirty_one_go.Cards.{Card, clubs, value15}

pub data PegReason : Type 0 where
  makes_15 makes_31 pair three_of_a_kind four_of_a_kind run : PegReason

-- isRun's loop variables. `max` starts at -99.
pub record Scan : Type 0 where
  pub seen : List ℕ
  pub lowest : ℕ
  pub highest : ℤ

abbrev pub has : ℕ → List ℕ → Bool
has r [] = false
has r (q ∷ seen) = q == r || has r seen

unfoldable pub raise : ℕ → ℤ → ℤ
raise r (pos m) = if ltb m r then pos r else pos m
raise r (negsuc _) = pos r

-- The loop over the cards; `none` is the early return at a rank that was seen before.
unfoldable pub scan_ranks : Scan → List Card → Option Scan
unfolding raise
scan_ranks s [] = some s
scan_ranks s (c ∷ cards) =
    let next : Scan = record {
      seen = c.rank ∷ s.seen;
      lowest = if ltb c.rank s.lowest then c.rank else s.lowest;
      highest = raise c.rank s.highest;
    } in
    let rest = scan_ranks next cards in if has c.rank s.seen then none else rest

-- `for r := min; r <= max; r++`, for the rounds that are left.
unfoldable pub all_seen : ℕ → ℕ → List ℕ → Bool
all_seen zero r seen = true
all_seen (suc k) r seen = if has r seen then all_seen k (suc r) seen else false

abbrev pub fresh_scan : Scan
fresh_scan = record { seen = []; lowest = 99; highest = negsuc 98 }

-- The tests after the loop. With `max` still at -99 the length does not fit.
unfoldable pub closes : ℕ → List ℕ → ℕ → ℤ → Bool
unfolding all_seen
closes n seen lowest (negsuc _) = false
closes n seen lowest (pos m) =
    if not (m + 1 == n + lowest) then false else all_seen (m + 1 - lowest) lowest seen

unfoldable pub is_run : List Card → Bool
unfolding scan_ranks closes
is_run cards = elim (scan_ranks fresh_scan cards) [
  | none ↦ false
  | some s ↦ closes (length cards) s.seen s.lowest s.highest
]

-- The loop backwards over the cards played; the list is given newest first.
unfoldable pub same_loop : ℕ → List Card → ℕ → ℕ
same_loop r [] same = same
same_loop r (c ∷ older) same = if c.rank == r then same_loop r older (same + 1) else same

-- The last n cards.
abbrev pub window_of : ℕ → List Card → List Card
window_of n last = drop (length last - n) last

-- `for n := maxN; n >= 3; n--`: the length of the run that is found, or 0.
unfoldable pub run_loop : ℕ → List Card → ℕ
run_loop zero last = 0
run_loop (suc n) last =
    let shorter = run_loop n last in
    if ltb (suc n) 3 then 0 else if is_run (window_of (suc n) last) then suc n else shorter

pub record Pegged : Type 0 where
  pub points : ℕ
  pub new_total : ℕ
  pub reasons : List PegReason

abbrev pub add_points : Bool → ℕ → PegReason → Pegged → Pegged
add_points scored n reason p =
    if scored then record p { points = p.points + n; reasons = p.reasons ++ reason ∷ [] } else p

unfoldable pub pegging_score : List Card → Card → ℕ → Pegged
unfolding same_loop run_loop
pegging_score play_seq new_card current_total =
    let total = current_total + value15 new_card in
    let start : Pegged = record { points = 0; new_total = total; reasons = [] } in
    let same = same_loop new_card.rank (reverse play_seq) 1 in
    let last = play_seq ++ new_card ∷ [] in
    let max_n = if ltb (length last) 7 then length last else 7 in
    let n = run_loop max_n last in
    let p15 = add_points (total == 15) 2 makes_15 start in
    let p31 = add_points (total == 31) 2 makes_31 p15 in
    let p2 = add_points (same == 2) 2 pair p31 in
    let p3 = add_points (same == 3) 6 three_of_a_kind p2 in
    let p4 = add_points (same == 4) 12 four_of_a_kind p3 in add_points (ltb 0 n) n run p4

abbrev club : ℕ → Card
club r = record { rank = r; suit = clubs }

-- Four, six, five on a total of ten: fifteen and a run of three.
fifteen_and_run : (pegging_score (club 4 ∷ club 6 ∷ []) (club 5) 10).points ≡ 5
unfolding pegging_score is_run value15
fifteen_and_run = refl
