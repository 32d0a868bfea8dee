-- ===== src/Prelude/Int.antt =====
-- Go's signed integers, as far as they are compared and added.
use Prim.Native.Nat.{ℕ, ◌+◌, ◌-◌, ◌^◌}
use mathlib.Core.Bool.{Bool, true, false}
use etos.Prelude.Tests.{ltb, if◌then◌else◌}

-- `negsuc n` is -(n + 1).
pub data ℤ : Type 0 where
  pos : ℕ → ℤ
  negsuc : ℕ → ℤ

-- a < b.
abbrev pub ltb_ℤ : ℤ → ℤ → Bool
ltb_ℤ (pos a) (pos b) = ltb a b
ltb_ℤ (pos a) (negsuc b) = false
ltb_ℤ (negsuc a) (pos b) = true
ltb_ℤ (negsuc a) (negsuc b) = ltb b a

-- Go's `min`.
abbrev pub min_ℤ : ℤ → ℤ → ℤ
min_ℤ a b = if ltb_ℤ b a then b else a

-- a - b, on natural numbers.
abbrev difference : ℕ → ℕ → ℤ
difference a b = if ltb a b then negsuc (b - a - 1) else pos (a - b)

infixl 60 ◌+ℤ◌
abbrev pub ◌+ℤ◌ : ℤ → ℤ → ℤ
pos a +ℤ pos b = pos (a + b)
pos a +ℤ negsuc b = difference a (b + 1)
negsuc a +ℤ pos b = difference b (a + 1)
negsuc a +ℤ negsuc b = negsuc (a + b + 1)

-- The sum of two values of type int64, which wraps around.
abbrev pub add_int64 : ℤ → ℤ → ℤ
add_int64 a b =
    let sum = a +ℤ b in
    if ltb_ℤ sum (negsuc (2 ^ 63 - 1))
    then sum +ℤ pos (2 ^ 64)
    else if ltb_ℤ (pos (2 ^ 63 - 1)) sum
    then sum +ℤ negsuc (2 ^ 64 - 1)
    else sum
