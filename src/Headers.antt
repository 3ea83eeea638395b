-- ===== src/Headers.antt =====
-- go/req_resp.go, the type Headers: creation, Parse, Encode, EncodeP and EncodedLen. The methods
-- that read or change single headers are in Headers/Access, those that take an http.Header in
-- Headers/Http.
--
-- A Go map is an association list (Common/Maps), and `none` is the nil map. `int` is a number: the
-- lengths that are added here stay far below 2 ^ 63.
pub mod Access
pub mod Pairs
pub mod ParseEncode
pub mod Limits
pub mod Refinement
pub mod Partial
pub mod Ranging
pub mod Http
use jtrpc.Common.{
  ℕ, zero, suc, ◌+◌, ◌-◌, ◌%◌, Bool, true, false, Option, none, some, List, [], ◌∷◌, ◌++◌, Bytes,
  length, drop, ltb, if◌then◌else◌, Outcome, done, panics, stuck, ◌>>=◌, slice,
}
use jtrpc.Common.Maps.{insert, delete, bytes_key}
use jtrpc.Wire.{u16, append2, get2}

-- `map[string]string`
abbrev pub Pairs : Type 0
Pairs = List (Bytes × Bytes)

pub record Headers : Type 0 where
  pub bytes : Bytes
  pub m : Option Pairs
  pub parsed : Bool

-- MaxHeadersLen of go/server.go.
abbrev pub max_headers_len : ℕ
max_headers_len = 0xffff

-- What `range h.m` visits.
abbrev pub entries : Option Pairs → Pairs
entries none = []
entries (some m) = m

unfoldable pub new_headers : Bool → Headers
new_headers true = record { bytes = []; m = some []; parsed = true }
new_headers false = record { bytes = []; m = none; parsed = false }

-- `newHeaders`
abbrev pub raw_headers : Bytes → Headers
raw_headers b = record { bytes = b; m = none; parsed = false }

abbrev pub parsed_headers : Pairs → Headers
parsed_headers m = record { bytes = []; m = some m; parsed = true }

-- The four `append` calls that add one header to `b`.
abbrev pub append_pair : Bytes → Bytes → Bytes → Bytes
append_pair b k v = append2 (append2 b (u16 (length k))) (u16 (length v)) ++ k ++ v

-- The loop that copies a map: `m[k] = v` for each entry.
unfoldable pub copy_into : Pairs → Pairs → Pairs
copy_into m [] = m
copy_into m ((k, v) ∷ kvs) = copy_into (insert k v m) kvs

-- The loop of `Parse`. `kl + vl` is a sum of two `uint16`, which wraps.
unfoldable pub parse_loop : ℕ → Bytes → ℕ → Pairs → Outcome Pairs
parse_loop zero b l m = if ltb l 4 then done m else stuck
parse_loop (suc fuel) b l m =
    let kl = get2 b in
    let vl = get2 (drop 2 b) in
    let kvl = u16 (kl + vl) in
    let rest = drop 4 b in
    let pair = (do
      k ← slice rest 0 kl
      v ← slice rest kl kvl
      next ← slice rest kvl (length rest)
      parse_loop fuel next (l - 4 - kvl) (insert k v m)) in
    if ltb l 4 then done m else if ltb (l - 4) kvl then done m else pair

-- `Parse`: the new state; the map that it returns is the one that it stores.
unfoldable pub parse : Headers → Outcome Headers
parse h =
    if h.parsed
    then done h
    else do m ← parse_loop (length h.bytes) h.bytes (length h.bytes) []; done (parsed_headers m)

-- The loop of `Encode`; `none` is the return of ErrHeadersTooLarge.
unfoldable pub encode_loop : Pairs → Bytes → ℕ → Option Bytes
encode_loop [] b n = some b
encode_loop ((k, v) ∷ kvs) b n =
    let n' = n + (length k + length v) in
    if ltb max_headers_len n' then none else encode_loop kvs (append_pair b k v) n'

abbrev encoded_as : Headers → Option Bytes → Headers × Option Bytes
encoded_as h none = (h, none)
encoded_as h (some b) = (raw_headers b, some b)

-- `Encode`: the new state, and the bytes or the error.
unfoldable pub encode : Headers → Headers × Option Bytes
encode h = if h.parsed then encoded_as h (encode_loop (entries h.m) [] 0) else (h, some h.bytes)

-- The loop of `EncodeP` over the entries; `left` is the map, from which it deletes.
unfoldable pub encode_p_loop : Pairs → Pairs → Bytes → ℕ → Bytes × Pairs
encode_p_loop [] left b n = (b, left)
encode_p_loop ((k, v) ∷ kvs) left b n =
    let n' = n + (length k + length v) in
    if ltb max_headers_len n'
    then encode_p_loop kvs left b n
    else encode_p_loop kvs (delete k left) (append_pair b k v) n'

-- `EncodeP`: the new state, the bytes, and the map of what is left (`none` where it is nil).
unfoldable pub encode_p : Headers → Headers × Bytes × Option Pairs
encode_p h =
    let (b, left) = encode_p_loop (entries h.m) (entries h.m) [] 0 in
    if h.parsed then (raw_headers b, b, Option_of h.m left) else (h, h.bytes, none)
  where
    Option_of : Option Pairs → Pairs → Option Pairs
    Option_of none left = none
    Option_of (some _) left = some left

unfoldable pub pairs_len : Pairs → ℕ
pairs_len [] = 0
pairs_len ((k, v) ∷ kvs) = 4 + length k + length v + pairs_len kvs

-- `EncodedLen`
unfoldable pub encoded_len : Headers → ℕ
unfolding pairs_len
encoded_len h = if h.parsed then pairs_len (entries h.m) else length h.bytes
