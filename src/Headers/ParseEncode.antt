-- ===== src/Headers/ParseEncode.antt =====
-- Parse and Encode against the wire form.
use jtrpc.Common.{
  ℕ, zero, suc, ◌+◌, ◌≤◌, ◌≡◌, refl, sym, ap, ◌∙◌, Option, none, some, [], ◌∷◌, ◌++◌, append-nil,
  append_assoc, inl, inr, All, Bytes, Bool-cases, length, length-append, ltb, ltb→le, if◌then◌else◌,
  done, arith,
}
use jtrpc.Common.Maps.{insert, insert_new, IsMap, IsMap-append_new, bytes_key}
use jtrpc.Headers.{
  Headers, Pairs, raw_headers, parsed_headers, max_headers_len, append_pair, copy_into, parse_loop,
  parse, encode_loop, encode,
}
use jtrpc.Headers.Pairs.{Fits, raw, pair_bytes, append_pair_lem, parse_loop-pair}

pub parse_loop-raw :
    (kvs : Pairs) (fuel : ℕ) (m : Pairs)
    → All Fits kvs
    → length (raw kvs) ≤ fuel
    → parse_loop fuel (raw kvs) (length (raw kvs)) m ≡ done (copy_into m kvs)
unfolding copy_into
parse_loop-raw [] zero m h f = unfold parse_loop in refl
parse_loop-raw [] (suc fuel) m h f = unfold parse_loop in refl
parse_loop-raw ((k, v) ∷ kvs) zero m h f = absurd (omega arith)
parse_loop-raw ((k, v) ∷ kvs) (suc fuel) m h f =
    parse_loop-pair fuel k v (raw kvs) h.0 m
    ∙ parse_loop-raw kvs fuel (insert k v m) h.1 (omega (arith, length-append (k ++ v) (raw kvs)))

-- A copied map is the map, entry by entry.
copy_into_append : (m kvs : Pairs) → IsMap (m ++ kvs) → copy_into m kvs ≡ m ++ kvs
unfolding copy_into
copy_into_append m [] h = sym (append-nil m)
copy_into_append m ((k, v) ∷ kvs) h =
    rw (insert_new k v m (IsMap-append_new k v m kvs h)) (
      copy_into_append (m ++ (k, v) ∷ []) kvs (rw append_assoc h)
      ∙ append_assoc m ((k, v) ∷ []) kvs)

pub copy_into_map : (kvs : Pairs) → IsMap kvs → copy_into [] kvs ≡ kvs
copy_into_map kvs h = copy_into_append [] kvs h

-- The bytes that `Encode` counts: keys and values, without the lengths before them.
unfoldable pub counted_len : Pairs → ℕ
counted_len [] = 0
counted_len ((k, v) ∷ kvs) = length k + length v + counted_len kvs

pub encode_loop-raw :
    (kvs : Pairs) (b : Bytes) (n : ℕ)
    → n ≤ max_headers_len
    → encode_loop kvs b n
      ≡ (if ltb max_headers_len (n + counted_len kvs) then none else some (b ++ raw kvs))
unfolding encode_loop counted_len
encode_loop-raw [] b n h = rw append-nil (ground arith)
encode_loop-raw ((k, v) ∷ kvs) b n h = ground (
  arith,
  encode_loop-raw kvs (append_pair b k v) (n + (length k + length v)),
  append_pair_lem b k v,
  append_assoc b (pair_bytes k v) (raw kvs),
)

-- `Encode` of a parsed map succeeds exactly if the keys and values together have at most
-- MaxHeadersLen bytes; it then stores and returns the wire form, and otherwise changes nothing.
pub encode_parsed :
    (m : Pairs)
    → encode (parsed_headers m) ≡ (
        if ltb max_headers_len (counted_len m)
        then (parsed_headers m, none)
        else (raw_headers (raw m), some (raw m)))
unfolding encode
encode_parsed m = ground (arith, encode_loop-raw m [] 0)

pub All-Fits : (m : Pairs) → counted_len m ≤ max_headers_len → All Fits m
unfolding counted_len
All-Fits [] h = tt
All-Fits ((k, v) ∷ m) h = (omega arith, All-Fits m (omega arith))

pub parse-raw :
    (m : Pairs) → All Fits m → parse (raw_headers (raw m)) ≡ done (parsed_headers (copy_into [] m))
unfolding parse
parse-raw m h = rw (parse_loop-raw m (length (raw m)) [] h (omega arith)) refl

-- Parsing what `Encode` made of a parsed map gives that map back.
pub parse-encode :
    (m : Pairs) (h : Headers) (b : Bytes)
    → IsMap m
    → encode (parsed_headers m) ≡ (h, some b)
    → parse h ≡ done (parsed_headers m)
parse-encode m h b d e = elim (Bool-cases (ltb max_headers_len (counted_len m))) [
  | inl over ↦ cc (e, rw over at (encode_parsed m))
  | inr fits ↦
      rw (ap (λ (r : Headers × Option Bytes). r.0) (sym e ∙ rw fits at (encode_parsed m)))
        (parse-raw m (All-Fits m (ltb→le _ _ fits)) ∙ rw (copy_into_map m d) refl)
]
