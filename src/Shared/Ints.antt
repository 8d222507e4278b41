-- ===== src/Shared/Ints.antt =====
-- The Go values of type int that may be negative: an index that is -1 for "nobody", and a player
-- number that a caller passes in.
use Prim.Native.Nat.{ℕ, ◌<◌}

-- `negsuc n` is -(n + 1).
pub data ℤ : Type 0 where
  pos : ℕ → ℤ
  negsuc : ℕ → ℤ

-- An index that is negative, or below a bound.
abbrev pub Below : ℕ → ℤ → Type 0
Below n (pos i) = i < n
Below n (negsuc _) = Unit
