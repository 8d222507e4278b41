-- ===== src/Shared/Indexing.antt =====
-- The slice operations that the engine writes out: an indexed read inside its range, an exchange of
-- two places, and the removal of one place by `append(xs[:i], xs[i+1:]...)`.
use Prim.Native.Nat.{ℕ, zero, suc, ◌+◌, ◌<◌}
use mathlib.Core.Path.{◌≡◌, refl, ap, ◌∙◌}
use mathlib.Core.List.{List, [], ◌∷◌, ◌++◌}
use mathlib.Core.Option.{Option, none, some}
use native.Mathlib.Omega.{arith}
use fifteen_thirty_one_go.Shared.Tests.{Option-cases, if◌then◌else◌, ◌==◌}
use mathlib.Core.Logic.{inl, inr, ◌≢◌}
use fifteen_thirty_one_go.Shared.Lists.{
  length, get_or, get_elem?, set, take, drop, replicate, length-set,
}

module _ {ℓ} {A : Type ℓ} where
  -- `append(xs[:i], xs[i+1:]...)`.
  abbrev pub remove_at : ℕ → List A → List A
  remove_at i xs = take i xs ++ drop (suc i) xs

  -- `xs[i], xs[j] = xs[j], xs[i]`; `none` is an index out of range.
  unfoldable pub swap : List A → ℕ → ℕ → Option (List A)
  swap xs i j = elim (get_elem? xs i) [
    | none ↦ none
    | some a ↦ elim (get_elem? xs j) [ none ↦ none | some b ↦ some (set (set xs i b) j a) ]
  ]

module _ {ℓ} {A : Type ℓ} where
  pub get_elem?_in : (xs : List A) (i : ℕ) → i < length xs → (a : A) × (get_elem? xs i ≡ some a)
  get_elem?_in [] i h = elim h [ ]
  get_elem?_in (x ∷ xs) zero h = (x, refl)
  get_elem?_in (x ∷ xs) (suc i) h = get_elem?_in xs i (omega arith)

  pub get_elem?_bound : (xs : List A) (i : ℕ) {a : A} → get_elem? xs i ≡ some a → i < length xs
  get_elem?_bound [] i h = absurd (ground arith)
  get_elem?_bound (x ∷ xs) zero h = omega arith
  get_elem?_bound (x ∷ xs) (suc i) h = omega (arith, get_elem?_bound xs i h)

  pub length-remove_at :
      (xs : List A) (i : ℕ) → i < length xs → length (remove_at i xs) + 1 ≡ length xs
  length-remove_at [] i h = elim h [ ]
  length-remove_at (x ∷ xs) zero h = omega arith
  length-remove_at (x ∷ xs) (suc i) h = omega (arith, length-remove_at xs i (omega arith))

  pub swap_in :
      (xs : List A) (i j : ℕ)
      → i < length xs
      → j < length xs
      → (ys : List A) × (swap xs i j ≡ some ys)
  unfolding swap
  swap_in xs i j hi hj =
      let (a, ea) = get_elem?_in xs i hi in
      let (b, eb) = get_elem?_in xs j hj in (set (set xs i b) j a, ground arith)

  -- A successful exchange, in parts.
  pub swap_parts :
      (xs ys : List A) (i j : ℕ)
      → swap xs i j ≡ some ys
      → (a : A) × (b : A) × (get_elem? xs i ≡ some a)
        × (get_elem? xs j ≡ some b)
        × (ys ≡ set (set xs i b) j a)
  unfolding swap
  swap_parts xs ys i j h = elim (Option-cases (get_elem? xs i)) [
    | inl e ↦ absurd (ground arith)
    | inr (a, ea) ↦ elim (Option-cases (get_elem? xs j)) [
      | inl e ↦ absurd (ground arith)
      | inr (b, eb) ↦ (a, b, ea, eb, ground arith)
    ]
  ]

  pub length-swap : (xs ys : List A) (i j : ℕ) → swap xs i j ≡ some ys → length ys ≡ length xs
  length-swap xs ys i j h =
      let (a, b, ea, eb, e) = swap_parts xs ys i j h in
      ap length e ∙ length-set (set xs i b) j a ∙ length-set xs i b

  pub get_or_of :
      (xs : List A) (i : ℕ) {a : A} (d : A) → get_elem? xs i ≡ some a → get_or xs i d ≡ a
  get_or_of [] i d h = absurd (ground arith)
  get_or_of (x ∷ xs) zero d h = ground arith
  get_or_of (x ∷ xs) (suc i) d h = get_or_of xs i d h

  -- A read after a write.
  pub get_or-set :
      (xs : List A) (i j : ℕ) (v d : A)
      → i < length xs
      → get_or (set xs i v) j d ≡ (if i == j then v else get_or xs j d)
  get_or-set [] i j v d h = elim h [ ]
  get_or-set (x ∷ xs) zero zero v d h = refl
  get_or-set (x ∷ xs) zero (suc j) v d h = ground arith
  get_or-set (x ∷ xs) (suc i) zero v d h = ground arith
  get_or-set (x ∷ xs) (suc i) (suc j) v d h = get_or-set xs i j v d (omega arith) ∙ ground arith

  pub get_or-replicate : (n i : ℕ) (a : A) → get_or (replicate n a) i a ≡ a
  get_or-replicate zero i a = refl
  get_or-replicate (suc n) zero a = refl
  get_or-replicate (suc n) (suc i) a = get_or-replicate n i a

-- A write leaves the other places.
pub get_or-set_other {ℓ} :
    {A : Type ℓ} (xs : List A) (i j : ℕ) (v d : A) → i ≢ j → get_or (set xs i v) j d ≡ get_or xs j d
get_or-set_other [] i j v d h = refl
get_or-set_other (x ∷ xs) zero zero v d h = absurd (h refl)
get_or-set_other (x ∷ xs) zero (suc j) v d h = refl
get_or-set_other (x ∷ xs) (suc i) zero v d h = refl
get_or-set_other (x ∷ xs) (suc i) (suc j) v d h = get_or-set_other xs i j v d (λ e. h (ap suc e))
