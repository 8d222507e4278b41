-- ===== src/Scoring/Consecutive.antt =====
-- What isRun of internal/game/cribbage/scoring.go decides: that the ranks of some cards are consecutive.
use mathlib.Core.Option.{some-injective}
use fifteen_thirty_one_go.Shared.{
  ==_iff, Bool, Bool-cases, List, Option-cases, [], ap, arith, false, if◌then◌else◌, inl, inr, leb,
  length, ltb, negsuc, pos, refl, some, subst, suc, sym, true, zero, ℕ, ℤ, ◌&&◌, ◌+◌, ◌-◌, ◌<◌,
  ◌==◌, ◌||◌, ◌↔◌, ◌∙◌, ◌∷◌, ◌≡◌, ◌≤◌, ◌⊎◌,
}
use fifteen_thirty_one_go.Cards.{Card}
use fifteen_thirty_one_go.Scoring.Pegging.{
  Scan, all_seen, closes, fresh_scan, has, is_run, raise, scan_ranks,
}

-- A card of the rank is among them.
unfoldable pub in_ranks : ℕ → List Card → Bool
in_ranks r [] = false
in_ranks r (c ∷ cards) = c.rank == r || in_ranks r cards

-- No rank stands twice.
abbrev pub NoTwice : List Card → Type 0
NoTwice [] = Unit
NoTwice (c ∷ cards) = (in_ranks c.rank cards ≡ false) × NoTwice cards

-- The ranks are so many consecutive ones, each once.
pub record IsRun (cards : List Card) : Type 0 where
  pub low : ℕ
  pub no_twice : NoTwice cards
  pub covers : (r : ℕ) → in_ranks r cards ≡ (leb low r && ltb r (low + length cards))

-- The highest rank so far, which may be none.
abbrev AtLeast : ℕ → ℤ → Type 0
AtLeast r (pos m) = r ≤ m
AtLeast r (negsuc k) = ⊥

-- What the loop over the cards has found.
record Scanned (s s' : Scan) (cards : List Card) : Type 0 where
  no_twice : NoTwice cards
  fresh : (r : ℕ) → has r s.seen ≡ true → in_ranks r cards ≡ false
  marked : (r : ℕ) → has r s'.seen ≡ (has r s.seen || in_ranks r cards)
  lower : s'.lowest ≤ s.lowest
  below : (r : ℕ) → in_ranks r cards ≡ true → s'.lowest ≤ r
  lowest_in : (s'.lowest ≡ s.lowest) ⊎ (in_ranks s'.lowest cards ≡ true)
  higher : (r : ℕ) → AtLeast r s.highest → AtLeast r s'.highest
  above : (r : ℕ) → in_ranks r cards ≡ true → AtLeast r s'.highest
  highest_in :
      (s'.highest ≡ s.highest) ⊎ ((m : ℕ) × (s'.highest ≡ pos m) × (in_ranks m cards ≡ true))

raise-AtLeast : (r : ℕ) (h : ℤ) → AtLeast r (raise r h)
unfolding raise
raise-AtLeast r (pos m) = elim (Bool-cases (ltb m r)) [
  | inl e ↦ rw e (omega arith)
  | inr e ↦ rw e (ground arith)
]
raise-AtLeast r (negsuc k) = omega arith

raise-keeps : (q r : ℕ) (h : ℤ) → AtLeast q h → AtLeast q (raise r h)
unfolding raise
raise-keeps q r (pos m) a = elim (Bool-cases (ltb m r)) [
  | inl e ↦ rw e (ground arith)
  | inr e ↦ rw e a
]
raise-keeps q r (negsuc k) a = absurd a

raise-cases : (r : ℕ) (h : ℤ) → (raise r h ≡ h) ⊎ (raise r h ≡ pos r)
unfolding raise
raise-cases r (pos m) = elim (Bool-cases (ltb m r)) [
  | inl e ↦ rw e (inr refl)
  | inr e ↦ rw e (inl refl)
]
raise-cases r (negsuc k) = inr refl

-- The loop variables after a card.
abbrev next_scan : Scan → Card → Scan
next_scan s c = record {
  seen = c.rank ∷ s.seen;
  lowest = if ltb c.rank s.lowest then c.rank else s.lowest;
  highest = raise c.rank s.highest;
}

Scanned-cons :
    (s s' : Scan) (c : Card) (cards : List Card)
    → has c.rank s.seen ≡ false
    → Scanned (next_scan s c) s' cards
    → Scanned s s' (c ∷ cards)
unfolding in_ranks
Scanned-cons s s' c cards new h = record {
  no_twice = (h.fresh c.rank (ground arith), h.no_twice);
  fresh = λ r there. elim (Bool-cases (c.rank == r)) [
    | inl e ↦ absurd (ground arith)
    | inr e ↦ ground (arith, h.fresh r (ground arith))
  ];
  marked = λ r. h.marked r ∙ ground arith;
  lower = ground (arith, h.lower);
  below = λ r there. elim (Bool-cases (c.rank == r)) [
    | inl e ↦ ground (arith, h.lower)
    | inr e ↦ h.below r (ground arith)
  ];
  lowest_in = elim h.lowest_in [
    | inl same ↦ elim (Bool-cases (ltb c.rank s.lowest)) [
      | inl e ↦ inr (ground arith)
      | inr e ↦ inl (ground arith)
    ]
    | inr there ↦ inr (ground arith)
  ];
  higher = λ r a. h.higher r (raise-keeps r c.rank s.highest a);
  above = λ r there. elim (Bool-cases (c.rank == r)) [
    | inl e ↦
        subst (λ x. AtLeast x s'.highest) ((==_iff c.rank r).0 e)
          (h.higher c.rank (raise-AtLeast c.rank s.highest))
    | inr e ↦ h.above r (ground arith)
  ];
  highest_in = elim h.highest_in [
    | inl same ↦ elim (raise-cases c.rank s.highest) [
      | inl e ↦ inl (same ∙ e)
      | inr e ↦ inr (c.rank, same ∙ e, ground arith)
    ]
    | inr (m, e, there) ↦ inr (m, e, ground arith)
  ];
}

scan_ranks-Scanned :
    (s s' : Scan) (cards : List Card) → scan_ranks s cards ≡ some s' → Scanned s s' cards
unfolding scan_ranks in_ranks
scan_ranks-Scanned s s' [] h =
    subst (λ x. Scanned s x []) (some-injective s s' h)
      (record {
        no_twice = tt;
        fresh = λ r there. refl;
        marked = λ r. ground arith;
        lower = omega arith;
        below = λ r there. absurd (cc);
        lowest_in = inl refl;
        higher = λ r a. a;
        above = λ r there. absurd (cc);
        highest_in = inl refl;
      })
scan_ranks-Scanned s s' (c ∷ cards) h = elim (Bool-cases (has c.rank s.seen)) [
  | inl e ↦ absurd (cc (rw e at h))
  | inr e ↦ Scanned-cons s s' c cards e (scan_ranks-Scanned (next_scan s c) s' cards (rw e at h))
]

-- Cards without a rank twice, or one that was seen before, are scanned to the end.
scan_ranks_total :
    (s : Scan) (cards : List Card)
    → NoTwice cards
    → ((r : ℕ) → has r s.seen ≡ true → in_ranks r cards ≡ false)
    → (s' : Scan) × (scan_ranks s cards ≡ some s')
unfolding scan_ranks in_ranks
scan_ranks_total s [] h new = (s, refl)
scan_ranks_total s (c ∷ cards) h new =
    let (s', e) = scan_ranks_total (next_scan s c) cards h.1 (λ r there.
      elim (Bool-cases (c.rank == r)) [
        | inl same ↦ ground (arith, h.0)
        | inr other ↦ ground (arith, new r (ground arith))
      ]) in
    elim (Bool-cases (has c.rank s.seen)) [
      | inl seen ↦ absurd (ground (arith, new c.rank seen))
      | inr fresh ↦ (s', rw fresh e)
    ]

-- The second loop reads so many consecutive ranks.
all_seen-has :
    (k r : ℕ) (seen : List ℕ) → all_seen k r seen ≡ true → (i : ℕ) → i < k → has (r + i) seen ≡ true
unfolding all_seen
all_seen-has zero r seen h i l = absurd (omega arith)
all_seen-has (suc k) r seen h zero l =
    let same : r + 0 ≡ r = omega arith in subst (λ x. has x seen ≡ true) (sym same) (ground arith)
all_seen-has (suc k) r seen h (suc i) l =
    let same : suc r + i ≡ r + suc i = omega arith in
    subst (λ x. has x seen ≡ true) same (all_seen-has k (suc r) seen (ground arith) i (omega arith))

has-all_seen :
    (k r : ℕ) (seen : List ℕ)
    → ((i : ℕ) → i < k → has (r + i) seen ≡ true)
    → all_seen k r seen ≡ true
unfolding all_seen
has-all_seen zero r seen h = refl
has-all_seen (suc k) r seen h =
    let at_r : r + 0 ≡ r = omega arith in
    let here : has r seen ≡ true = subst (λ x. has x seen ≡ true) at_r (h 0 (omega arith)) in
    let later : all_seen k (suc r) seen ≡ true = has-all_seen k (suc r) seen (λ i l.
      let same : r + suc i ≡ suc r + i = omega arith in
      subst (λ x. has x seen ≡ true) same (h (suc i) (omega arith))) in
    ground arith

closes-IsRun :
    (cards : List Card) (s : Scan)
    → Scanned fresh_scan s cards
    → closes (length cards) s.seen s.lowest s.highest ≡ true
    → IsRun cards
unfolding closes
closes-IsRun cards s h e = by_highest s.highest refl e
  where
    by_highest :
        (top : ℤ) → s.highest ≡ top → closes (length cards) s.seen s.lowest top ≡ true → IsRun cards
    by_highest (negsuc k) top f = absurd (cc)
    by_highest (pos m) top f =
        let n = length cards in
        let size : m + 1 ≡ n + s.lowest = ground arith in
        let all : all_seen (m + 1 - s.lowest) s.lowest s.seen ≡ true = ground arith in
        record {
          low = s.lowest;
          no_twice = h.no_twice;
          covers = λ r. elim (Bool-cases (in_ranks r cards)) [
            | inl there ↦
                let most : r ≤ m = subst (λ x. AtLeast r x) top (h.above r there) in
                ground (arith, h.below r there, there, size, most)
            | inr absent ↦ elim (Bool-cases (leb s.lowest r && ltb r (s.lowest + n))) [
              | inr outside ↦ absent ∙ sym outside
              | inl inside ↦
                  let there : has (s.lowest + (r - s.lowest)) s.seen ≡ true =
                    all_seen-has (m + 1 - s.lowest) s.lowest s.seen all (r - s.lowest)
                      (ground (arith, inside, size)) in
                  let same : s.lowest + (r - s.lowest) ≡ r = ground (arith, inside) in
                  let found : has r s.seen ≡ true = subst (λ x. has x s.seen ≡ true) same there in
                  absurd (ground (arith, found, h.marked r, absent))
            ]
          ];
        }

pub is_run-IsRun : (cards : List Card) → is_run cards ≡ true → IsRun cards
unfolding is_run
is_run-IsRun cards e = elim (Option-cases (scan_ranks fresh_scan cards)) [
  | inl f ↦ absurd (cc (rw (f, is_run) at e))
  | inr (s, f) ↦
      closes-IsRun cards s (scan_ranks-Scanned fresh_scan s cards f) (rw (f, is_run) at e)
]

-- For some cards of ranks up to 99 the highest and lowest ranks are those of the run.
pos_injective : {a b : ℕ} → pos a ≡ pos b → a ≡ b
pos_injective {a} {b} e = ap (λ x. elim x [ pos n ↦ n | negsuc n ↦ 0 ]) e

IsRun-closes :
    (cards : List Card) (s : Scan)
    → Scanned fresh_scan s cards
    → (rep : IsRun cards) → 1 ≤ length cards
    → ((r : ℕ) → in_ranks r cards ≡ true → r ≤ 99)
    → closes (length cards) s.seen s.lowest s.highest ≡ true
unfolding closes
IsRun-closes cards s h rep some_card bound =
    let n = length cards in
    let first : in_ranks rep.low cards ≡ true = rep.covers rep.low ∙ ground arith in
    let last : in_ranks (rep.low + (n - 1)) cards ≡ true =
      rep.covers (rep.low + (n - 1)) ∙ ground arith in
    by_highest first last s.highest refl
  where
    lowest : in_ranks rep.low cards ≡ true → s.lowest ≡ rep.low
    lowest first = elim h.lowest_in [
      | inl same ↦ omega (arith, same, h.below rep.low first, bound rep.low first)
      | inr there ↦
          let inside = sym (rep.covers s.lowest) ∙ there in
          ground (arith, inside, h.below rep.low first)
    ]

    by_highest :
        in_ranks rep.low cards ≡ true
        → in_ranks (rep.low + (length cards - 1)) cards ≡ true
        → (top : ℤ) → s.highest ≡ top
        → closes (length cards) s.seen s.lowest top ≡ true
    by_highest first last (negsuc k) top =
        absurd (subst (λ x. AtLeast rep.low x) top (h.above rep.low first))
    by_highest first last (pos m) top =
        let n = length cards in
        let l = lowest first in
        let most : rep.low + (n - 1) ≤ m =
          subst (λ x. AtLeast (rep.low + (n - 1)) x) top (h.above (rep.low + (n - 1)) last) in
        let least : m < rep.low + n = elim h.highest_in [
          | inl same ↦ absurd (cc (sym top ∙ same))
          | inr (q, e, there) ↦
              let is_m : q ≡ m = pos_injective (sym e ∙ top) in
              let inside = sym (rep.covers q) ∙ there in ground (arith, inside, is_m)
        ] in
        let size : m + 1 ≡ n + s.lowest = omega (arith, l, most, least, some_card) in
        let all : all_seen (m + 1 - s.lowest) s.lowest s.seen ≡ true =
          has-all_seen (m + 1 - s.lowest) s.lowest s.seen (λ i less.
            let inside : in_ranks (s.lowest + i) cards ≡ true =
              rep.covers (s.lowest + i) ∙ ground (arith, l, size, less) in
            h.marked (s.lowest + i) ∙ ground (arith, inside)) in
        ground (arith, size, all)

-- isRun decides for cards of ranks up to 99 whether their ranks are consecutive, each once.
pub is_run_iff :
    (cards : List Card)
    → 1 ≤ length cards
    → ((r : ℕ) → in_ranks r cards ≡ true → r ≤ 99)
    → (is_run cards ≡ true) ↔ IsRun cards
unfolding is_run
is_run_iff cards some_card bound = (
  is_run-IsRun cards,
  λ rep.
      let (s, e) = scan_ranks_total fresh_scan cards rep.no_twice (λ r there. absurd (cc)) in
      rw (e, is_run)
        (IsRun-closes cards s (scan_ranks-Scanned fresh_scan s cards e) rep some_card bound),
)
