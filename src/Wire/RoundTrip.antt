-- ===== src/Wire/RoundTrip.antt =====
-- Reading back what was written.
use jtrpc.Common.{ℕ, ◌^◌, ◌<◌, ◌≡◌, refl, [], ◌++◌, Bytes, length, arith}
use jtrpc.Wire.{u16, u64, append2, get2, append8, get8}

-- The two bytes that `append2` adds.
abbrev pub le2 : ℕ → Bytes
le2 u = append2 [] u

unfoldable pub le8 : ℕ → Bytes
unfolding append8
le8 u = append8 [] u

pub get2-le2 : (u : ℕ) (rest : Bytes) → u < 65536 → get2 (le2 u ++ rest) ≡ u
unfolding get2
get2-le2 u rest h = omega arith

pub get8-le8 : (u : ℕ) (rest : Bytes) → u < 2 ^ 64 → get8 (le8 u ++ rest) ≡ u
unfolding get8 le8
get8-le8 u rest h = omega arith

pub length-le8 : (u : ℕ) → length (le8 u) ≡ 8
unfolding le8
length-le8 u = refl

pub u16_small : (n : ℕ) → n < 65536 → u16 n ≡ n
u16_small n h = omega arith

pub u64_small : (n : ℕ) → n < 2 ^ 64 → u64 n ≡ n
u64_small n h = omega arith
