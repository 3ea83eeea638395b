-- ===== src/Headers/Pairs.antt =====
-- The wire form of a list of headers, and one round of each loop that reads it.
use jtrpc.Common.{
  ℕ, suc, ◌+◌, ◌-◌, ◌%◌, ◌<◌, ◌≡◌, refl, ap, true, some, [], ◌∷◌, ◌++◌, append_assoc, Bytes,
  bytes_eq, bytes_eq_iff, length, length-append, take-append_at, drop-append_at, if◌then◌else◌,
  done, slice, slice_front, slice_rest, arith,
}
use jtrpc.Common.Maps.{insert, bytes_key}
use jtrpc.Wire.{u16, byte_of, get2}
use jtrpc.Headers.{Pairs, append_pair, parse_loop, pairs_len}
use jtrpc.Headers.Access.{key_matches, get_loop, remove_loop}

-- <2-byte key length> <2-byte value length> <key> <value>
abbrev pub pair_bytes : Bytes → Bytes → Bytes
pair_bytes k v =
    byte_of (u16 (length k)) 0
    ∷ byte_of (u16 (length k)) 1
    ∷ byte_of (u16 (length v)) 0
    ∷ byte_of (u16 (length v)) 1
    ∷ (k ++ v)

abbrev pub raw : Pairs → Bytes
raw [] = []
raw ((k, v) ∷ kvs) = pair_bytes k v ++ raw kvs

-- The two lengths fit into their fields, and so does their sum.
abbrev pub Fits : Bytes × Bytes → Type 0
Fits (k, v) = length k + length v < 65536

pub append_pair_lem : (b k v : Bytes) → append_pair b k v ≡ b ++ pair_bytes k v
append_pair_lem b k v = simp append_assoc

pub length-raw : (kvs : Pairs) → length (raw kvs) ≡ pairs_len kvs
unfolding pairs_len
length-raw [] = refl
length-raw ((k, v) ∷ kvs) =
    omega (arith, length-append (k ++ v) (raw kvs), length-append k v, length-raw kvs)

module _ (k v rest : Bytes) where
  pub slice_key : slice ((k ++ v) ++ rest) 0 (length k) ≡ done k
  slice_key = rw append_assoc (slice_front (length k) k (v ++ rest) refl)

  pub slice_value : slice ((k ++ v) ++ rest) (length k) (length k + length v) ≡ done v
  unfolding slice
  slice_value = rw append_assoc (
      ground (
        arith,
        length-append k (v ++ rest),
        length-append v rest,
        drop-append_at (length k) k (v ++ rest) refl,
        take-append_at (length k + length v - length k) v rest (omega arith),
      ))

  pub slice_next :
      slice ((k ++ v) ++ rest) (length k + length v) (length ((k ++ v) ++ rest)) ≡ done rest
  slice_next =
      slice_rest (length k + length v) _ (k ++ v) rest (omega (arith, length-append k v)) refl

  pub length-pair : length (pair_bytes k v ++ rest) ≡ 4 + (length k + length v) + length rest
  length-pair = omega (arith, length-append (k ++ v) rest, length-append k v)

pub get2_lens :
    (n : ℕ) (rest : Bytes) → n < 65536 → get2 (byte_of (u16 n) 0 ∷ byte_of (u16 n) 1 ∷ rest) ≡ n
unfolding get2
get2_lens n rest h = omega arith

-- What is left of `l` after one pair.
pub left_over : (n r : ℕ) → 4 + n + r - 4 - n ≡ r
left_over n r = omega arith

module _ (fuel : ℕ) (k v rest : Bytes) (fits : Fits (k, v)) where
  small : (length k + length v) % 65536 ≡ length k + length v
  small = omega arith

  pub parse_loop-pair :
      (m : Pairs)
      → parse_loop (suc fuel) (pair_bytes k v ++ rest) (length (pair_bytes k v ++ rest)) m
        ≡ parse_loop fuel rest (length rest) (insert k v m)
  unfolding parse_loop
  parse_loop-pair m =
      rw
        (
          get2_lens (length k) _ (omega arith),
          get2_lens (length v) _ (omega arith),
          length-pair k v rest,
          small,
          left_over,
        )
        (ground (arith, slice_key k v rest, slice_value k v rest, slice_next k v rest))

-- A key of another length is another key.
bytes_eq-length : (a b : Bytes) → bytes_eq a b ≡ true → length a ≡ length b
bytes_eq-length a b e = ap length ((bytes_eq_iff a b).0 e)

pub key_matches_lem :
    (k v rest key : Bytes) → key_matches ((k ++ v) ++ rest) (length k) key ≡ done (bytes_eq k key)
unfolding key_matches
key_matches_lem k v rest key = ground (arith, slice_key k v rest, bytes_eq-length k key)

module _ (fuel : ℕ) (k v rest key : Bytes) (fits : Fits (k, v)) where
  pub get_loop-pair :
      get_loop (suc fuel) (pair_bytes k v ++ rest) (length (pair_bytes k v ++ rest)) key
      ≡ (if bytes_eq k key then done (some v) else get_loop fuel rest (length rest) key)
  unfolding get_loop
  get_loop-pair =
      rw
        (
          get2_lens (length k) _ (omega arith),
          get2_lens (length v) _ (omega arith),
          length-pair k v rest,
          left_over,
        )
        (ground (
          arith,
          key_matches_lem k v rest key,
          slice_value k v rest,
          slice_next k v rest,
          length-append (k ++ v) rest,
          length-append k v,
        ))

  pub remove_loop-pair :
      (front : Bytes) (i : ℕ)
      → i ≡ length front
      → remove_loop
          (front ++ (pair_bytes k v ++ rest))
          (suc fuel)
          (pair_bytes k v ++ rest)
          (length (pair_bytes k v ++ rest))
          i
          key
        ≡ (if bytes_eq k key
            then done (front ++ rest, some v)
            else remove_loop
                (front ++ (pair_bytes k v ++ rest))
                fuel
                rest
                (length rest)
                (i + 4 + (length k + length v))
                key)
  unfolding remove_loop
  remove_loop-pair front i e =
      rw
        (
          get2_lens (length k) _ (omega arith),
          get2_lens (length v) _ (omega arith),
          length-pair k v rest,
          left_over,
        )
        (ground (
          arith,
          key_matches_lem k v rest key,
          slice_value k v rest,
          slice_next k v rest,
          slice_front i front (pair_bytes k v ++ rest) e,
          cut_behind,
        ))
    where
      whole : Bytes
      whole = front ++ (pair_bytes k v ++ rest)

      cut_behind : slice whole (i + 4 + (length k + length v)) (length whole) ≡ done rest
      cut_behind = rw (← append_assoc) (
          slice_rest _ _ (front ++ pair_bytes k v) rest
            (omega (arith, length-append front (pair_bytes k v), length-append k v)) refl)
