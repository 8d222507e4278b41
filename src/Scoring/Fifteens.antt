-- ===== src/Scoring/Fifteens.antt =====
-- scoreFifteens: every subset of the cards, as a bit mask, that adds up to fifteen.
use native.Mathlib.Nat.{
  add-zero, mul_comm, pow-suc, two-pow-succ, suc-add, add-suc, zero-div, div-div-eq-div-mul,
}
use native.Mathlib.Numerals.{add-one}
use mathlib.Core.Path.{fun_ext, ap₂, ◌≡⟨◌⟩◌, ◌∎}
use fifteen_thirty_one_go.Shared.{
  Bool, List, [], ap, arith, false, if◌then◌else◌, leb, length, refl, suc, sym, true, zero, ℕ, ◌%◌,
  ◌*◌, ◌+◌, ◌-◌, ◌/◌, ◌<◌, ◌==◌, ◌^◌, ◌∷◌, ◌≡◌,
}
use fifteen_thirty_one_go.Cards.{Card, value15}

-- `mask&(1<<i) != 0`: bit i of the mask.
abbrev pub has_bit : ℕ → ℕ → Bool
has_bit mask i = (mask / 2 ^ i) % 2 == 1

-- The inner loop, from the card at index i.
unfoldable pub mask_sum : ℕ → ℕ → List Card → ℕ
mask_sum mask i [] = 0
mask_sum mask i (c ∷ cards) =
    (if has_bit mask i then value15 c else 0) + mask_sum mask (suc i) cards

-- The outer loop, for the masks that are left.
fifteens_loop : ℕ → ℕ → List Card → ℕ → ℕ
fifteens_loop zero mask cards points = points
fifteens_loop (suc k) mask cards points =
    fifteens_loop k (suc mask) cards (if mask_sum mask 0 cards == 15 then points + 2 else points)

unfoldable pub score_fifteens : List Card → ℕ
unfolding fifteens_loop mask_sum
score_fifteens cards = fifteens_loop (2 ^ length cards - 1) 1 cards 0

-- The description: in how many ways cards can be chosen whose values add up to t. Each card is left
-- out or taken.
unfoldable pub ways : ℕ → List Card → ℕ
ways t [] = if t == 0 then 1 else 0
ways t (c ∷ cards) = ways t cards + (if leb (value15 c) t then ways (t - value15 c) cards else 0)

sum_below : ℕ → (ℕ → ℕ) → ℕ
sum_below zero f = 0
sum_below (suc k) f = sum_below k f + f k

hit : ℕ → List Card → ℕ → ℕ
hit t cards mask = if mask_sum mask 0 cards == t then 1 else 0

sum_below-double :
    (k : ℕ) (f : ℕ → ℕ) → sum_below (k + k) f ≡ sum_below k (λ m. f (m + m) + f (m + m + 1))
unfolding sum_below
sum_below-double zero f = refl
sum_below-double (suc k) f =
    rw (suc-add k (suc k), add-suc k k)
      (omega (arith, sum_below-double k f, ap f (add-one (k + k))))

sum_below-add : (k : ℕ) (f g : ℕ → ℕ) → sum_below k (λ m. f m + g m) ≡ sum_below k f + sum_below k g
unfolding sum_below
sum_below-add zero f g = omega arith
sum_below-add (suc k) f g = omega (arith, sum_below-add k f g)

sum_below-ext : (k : ℕ) (f g : ℕ → ℕ) → ((m : ℕ) → f m ≡ g m) → sum_below k f ≡ sum_below k g
sum_below-ext k f g h = ap (sum_below k) (fun_ext h)

sum_below-zero : (k : ℕ) → sum_below k (λ m. 0) ≡ 0
unfolding sum_below
sum_below-zero zero = refl
sum_below-zero (suc k) = omega (arith, sum_below-zero k)

shifted_bit : (mask i : ℕ) → mask / 2 ^ suc i ≡ mask / 2 / 2 ^ i
shifted_bit mask i = rw (pow-suc 2 i, mul_comm (2 ^ i) 2) (sym (div-div-eq-div-mul mask 2 (2 ^ i)))

-- Bits 1 and up of a mask are the bits of its half.
mask_sum-shift :
    (mask i : ℕ) (cards : List Card) → mask_sum mask (suc i) cards ≡ mask_sum (mask / 2) i cards
unfolding mask_sum
mask_sum-shift mask i [] = refl
mask_sum-shift mask i (c ∷ cards) = rw (shifted_bit mask i, mask_sum-shift mask (suc i) cards) refl

-- An even mask leaves the first card out, an odd one takes it.
hit-even :
    (t : ℕ) (c : Card) (cards : List Card) (m : ℕ) → hit t (c ∷ cards) (m + m) ≡ hit t cards m
unfolding hit mask_sum
hit-even t c cards m =
    let half : (m + m) / 2 ≡ m = omega arith in
    ground (arith, mask_sum-shift (m + m) 0 cards, ap (λ k. mask_sum k 0 cards) half)

hit-odd :
    (t : ℕ) (c : Card) (cards : List Card) (m : ℕ)
    → hit t (c ∷ cards) (m + m + 1) ≡ (if leb (value15 c) t then hit (t - value15 c) cards m else 0)
unfolding hit mask_sum
hit-odd t c cards m =
    let half : (m + m + 1) / 2 ≡ m = omega arith in
    ground (arith, mask_sum-shift (m + m + 1) 0 cards, ap (λ k. mask_sum k 0 cards) half)

guarded_sum :
    (b : Bool) (k : ℕ) (f : ℕ → ℕ)
    → sum_below k (λ m. if b then f m else 0) ≡ (if b then sum_below k f else 0)
guarded_sum true k f = refl
guarded_sum false k f = sum_below-zero k

-- The masks below 2 ^ n that add up to t are as many as the choices of cards that do.
hits-ways : (t : ℕ) (cards : List Card) → sum_below (2 ^ length cards) (hit t cards) ≡ ways t cards
unfolding ways
hits-ways t [] = unfold sum_below hit mask_sum in ground arith
hits-ways t (c ∷ cards) =
    let n = 2 ^ length cards in
    let v = value15 c in
    sum_below (2 ^ suc (length cards)) (hit t (c ∷ cards))
    ≡⟨ ap (λ k. sum_below k (hit t (c ∷ cards))) (two-pow-succ (length cards)) ⟩
      sum_below (n + n) (hit t (c ∷ cards))
    ≡⟨ sum_below-double n (hit t (c ∷ cards)) ⟩
      sum_below n (λ m. hit t (c ∷ cards) (m + m) + hit t (c ∷ cards) (m + m + 1))
    ≡⟨ sum_below-add n (λ m. hit t (c ∷ cards) (m + m)) (λ m. hit t (c ∷ cards) (m + m + 1)) ⟩
      sum_below n (λ m. hit t (c ∷ cards) (m + m))
      + sum_below n (λ m. hit t (c ∷ cards) (m + m + 1))
    ≡⟨ ap₂ ◌+◌ (sum_below-ext n _ _ (hit-even t c cards))
        (sum_below-ext n _ _ (hit-odd t c cards)) ⟩
      sum_below n (hit t cards) + sum_below n (λ m. if leb v t then hit (t - v) cards m else 0)
    ≡⟨ ap (◌+◌ (sum_below n (hit t cards))) (guarded_sum (leb v t) n (hit (t - v) cards)) ⟩
      sum_below n (hit t cards) + (if leb v t then sum_below n (hit (t - v) cards) else 0)
    ≡⟨ ground (arith, hits-ways t cards, hits-ways (t - v) cards) ⟩ ways t (c ∷ cards) ∎

-- The outer loop adds two points for each mask of its range.
fifteens_loop-hits :
    (k : ℕ) (cards : List Card) (m points : ℕ)
    → fifteens_loop k m cards points + 2 * sum_below m (hit 15 cards)
      ≡ points + 2 * sum_below (m + k) (hit 15 cards)
unfolding fifteens_loop sum_below hit
fifteens_loop-hits zero cards m points = rw add-zero
fifteens_loop-hits (suc k) cards m points =
    let next = if mask_sum m 0 cards == 15 then points + 2 else points in
    let ends : m + suc k ≡ suc m + k = omega arith in
    rw ends (ground (arith, fifteens_loop-hits k cards (suc m) next))

pow_pos : (n : ℕ) → 0 < 2 ^ n
pow_pos zero = omega arith
pow_pos (suc n) = rw (two-pow-succ n) (omega (arith, pow_pos n))

no_cards_no_sum : (i : ℕ) (cards : List Card) → mask_sum 0 i cards ≡ 0
unfolding mask_sum
no_cards_no_sum i [] = refl
no_cards_no_sum i (c ∷ cards) = rw zero-div (omega (arith, no_cards_no_sum (suc i) cards))

first_mask : (cards : List Card) → sum_below 1 (hit 15 cards) ≡ 0
unfolding sum_below hit
first_mask cards = ground (arith, no_cards_no_sum 0 cards)

-- scoreFifteens gives two points for each way to choose cards that add up to fifteen, and nothing
-- else.
pub score_fifteens-ways : (cards : List Card) → score_fifteens cards ≡ 2 * ways 15 cards
unfolding score_fifteens
score_fifteens-ways cards =
    let room : 1 + (2 ^ length cards - 1) ≡ 2 ^ length cards =
      omega (arith, pow_pos (length cards)) in
    omega (
      arith,
      fifteens_loop-hits (2 ^ length cards - 1) cards 1 0,
      first_mask cards,
      ap (λ k. sum_below k (hit 15 cards)) room,
      hits-ways 15 cards,
    )
