-- ===== src/Common/Int.antt =====
-- Signed integers, and `int64` of a `uint64`.
use Prim.Native.Nat.{ℕ, ◌-◌, ◌≤◌, ◌<◌, ◌^◌}
use mathlib.Core.Path.{◌≡◌}
use mathlib.Core.Bool.{Bool, true, false}
use native.Mathlib.Omega.{arith}
use jtrpc.Common.Tests.{ltb, if◌then◌else◌}

-- `negsuc n` is -(n + 1).
pub data ℤ : Type 0 where
  pos : ℕ → ℤ
  negsuc : ℕ → ℤ

-- `int64(u)`: the number that the 64 bits of `u` stand for in two's complement.
abbrev pub int64 : ℕ → ℤ
int64 u = if ltb u (2 ^ 63) then pos u else negsuc (2 ^ 64 - 1 - u)

-- `a > b`
abbrev pub gtz : ℤ → ℤ → Bool
gtz (pos a) (pos b) = ltb b a
gtz (pos a) (negsuc b) = true
gtz (negsuc a) (pos b) = false
gtz (negsuc a) (negsuc b) = ltb a b

-- How many bytes a count asks for: none, if it is negative.
abbrev pub count_of : ℤ → ℕ
count_of (pos n) = n
count_of (negsuc n) = 0

-- A number of bytes as a Go `int`; it is never negative.
abbrev pub int_of : ℕ → ℤ
int_of n = pos n

pub int64_small : (u : ℕ) → u < 2 ^ 63 → int64 u ≡ pos u
int64_small u h = ground arith

pub int64_large : (u : ℕ) → 2 ^ 63 ≤ u → int64 u ≡ negsuc (2 ^ 64 - 1 - u)
int64_large u h = ground arith
