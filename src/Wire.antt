-- ===== src/Wire.antt =====
-- go/other.go: little-endian numbers in byte slices, with encoding/binary's functions written out.
-- `uint16` is a number below 2 ^ 16 and `uint64` one below 2 ^ 64; a conversion is `%`.
pub mod RoundTrip
use jtrpc.Common.{ℕ, zero, suc, ◌+◌, ◌*◌, ◌/◌, ◌%◌, ◌^◌, List, [], ◌∷◌, ◌++◌, Bytes, set, drop}

-- The conversions `uint16(n)` and `uint64(n)`.
abbrev pub u16 : ℕ → ℕ
u16 n = n % 0x1_0000

abbrev pub u64 : ℕ → ℕ
u64 n = n % 0x1_0000_0000_0000_0000

-- `byte(u >> (8 * i))`
abbrev pub byte_of : ℕ → ℕ → ℕ
byte_of u i = u / 256 ^ i % 256

-- `binary.LittleEndian.AppendUint16`
abbrev pub append2 : Bytes → ℕ → Bytes
append2 buf u = buf ++ (byte_of u 0 ∷ byte_of u 1 ∷ [])

-- `PutUint16(buf[at:], u)`
abbrev pub place2 : Bytes → ℕ → ℕ → Bytes
place2 buf at u = set (set buf at (byte_of u 0)) (at + 1) (byte_of u 1)

-- `Uint16(buf)`; a caller has checked that two bytes are there, and Go panics where they are not.
unfoldable pub get2 : Bytes → ℕ
get2 (a ∷ b ∷ rest) = a + b * 256
get2 _ = 0

unfoldable pub append8 : Bytes → ℕ → Bytes
append8 buf u =
    buf
    ++ (byte_of u 0
        ∷ byte_of u 1
        ∷ byte_of u 2
        ∷ byte_of u 3
        ∷ byte_of u 4
        ∷ byte_of u 5
        ∷ byte_of u 6
        ∷ byte_of u 7
        ∷ [])

-- `PutUint64(buf[at:], u)`
unfoldable pub place8 : Bytes → ℕ → ℕ → Bytes
place8 buf at u =
    let b1 = set (set buf at (byte_of u 0)) (at + 1) (byte_of u 1) in
    let b3 = set (set b1 (at + 2) (byte_of u 2)) (at + 3) (byte_of u 3) in
    let b5 = set (set b3 (at + 4) (byte_of u 4)) (at + 5) (byte_of u 5) in
    set (set b5 (at + 6) (byte_of u 6)) (at + 7) (byte_of u 7)

-- `Uint64(buf)`, under the same condition.
unfoldable pub get8 : Bytes → ℕ
get8 (a ∷ b ∷ c ∷ d ∷ e ∷ f ∷ g ∷ h ∷ rest) =
    a + 256 * (b + 256 * (c + 256 * (d + 256 * (e + 256 * (f + 256 * (g + 256 * h))))))
get8 _ = 0
