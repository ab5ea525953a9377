-- ===== src/Base/Int.antt =====
-- Python's `int`: integers over the native numbers, with the tests and the few operations used.
use Prim.Native.Nat.{ℕ, suc, ◌+◌, ◌-◌}
use mathlib.Core.Bool.{Bool, true, false}
use axiam_python_sdk.Base.Tests.{ltb, leb, eqb, if◌then◌else◌}

-- `negsuc n` is -(n + 1).
pub data ℤ : Type 0 where
  pos : ℕ → ℤ
  negsuc : ℕ → ℤ

-- The value where it is at least 0, else 0.
abbrev pub pos_part : ℤ → ℕ
pos_part (pos n) = n
pos_part (negsuc n) = 0

-- a - b, as an integer.
abbrev pub sub_ℕ : ℕ → ℕ → ℤ
sub_ℕ a b = if leb b a then pos (a - b) else negsuc (b - a - 1)

-- The test `a < n` against a literal `n`.
abbrev pub ltb_ℕ : ℤ → ℕ → Bool
ltb_ℕ (pos a) n = ltb a n
ltb_ℕ (negsuc a) n = true

infix 50 ◌==ℤ◌
abbrev pub ◌==ℤ◌ : ℤ → ℤ → Bool
pos a ==ℤ pos b = eqb a b
negsuc a ==ℤ negsuc b = eqb a b
_ ==ℤ _ = false

-- abs(n - a)
abbrev pub dist : ℕ → ℤ → ℕ
dist n (pos a) = if leb a n then n - a else a - n
dist n (negsuc a) = n + suc a

-- abs(a - b) on times of one sign
abbrev pub gap : ℕ → ℕ → ℕ
gap a b = if leb b a then a - b else b - a
