-- ===== src/Headers/Partial.antt =====
-- EncodeP: what it encodes and what it leaves.
use jtrpc.Common.{
  ℕ, ◌+◌, ◌<◌, ◌≤◌, ◌≡◌, refl, sym, ◌∙◌, ◌⊎◌, none, some, [], ◌∷◌, ◌++◌, append-nil, append_assoc,
  inl, inr, Bytes, bytes_eq_iff, Bool-cases, Option, Option-cases, length, ltb, if◌then◌else◌,
  arith,
}
use jtrpc.Common.Maps.{lookup, delete, lookup-delete, IsMap, bytes_key}
use jtrpc.Headers.{
  Pairs, raw_headers, parsed_headers, max_headers_len, append_pair, encode_p_loop, encode_p,
}
use jtrpc.Headers.Pairs.{raw, append_pair_lem}
use jtrpc.Headers.ParseEncode.{counted_len}

-- The headers that fit in turn, after `n` bytes of keys and values.
fitting : ℕ → Pairs → Pairs
fitting n [] = []
fitting n ((k, v) ∷ kvs) =
    if ltb max_headers_len (n + (length k + length v))
    then fitting n kvs
    else (k, v) ∷ fitting (n + (length k + length v)) kvs

delete_keys : Pairs → Pairs → Pairs
delete_keys [] m = m
delete_keys ((k, v) ∷ kvs) m = delete_keys kvs (delete k m)

encode_p_loop-fitting :
    (kvs left : Pairs) (b : Bytes) (n : ℕ)
    → encode_p_loop kvs left b n ≡ (b ++ raw (fitting n kvs), delete_keys (fitting n kvs) left)
unfolding encode_p_loop fitting delete_keys
encode_p_loop-fitting [] left b n = rw append-nil refl
encode_p_loop-fitting ((k, v) ∷ kvs) left b n =
    let n' = n + (length k + length v) in
    elim (Bool-cases (ltb max_headers_len n')) [
      | inl over ↦ rw over (encode_p_loop-fitting kvs left b n)
      | inr fits ↦ rw fits (
          encode_p_loop-fitting kvs (delete k left) (append_pair b k v) n'
          ∙ rw (append_pair_lem, append_assoc) refl)
    ]

counted_len-fitting :
    (n : ℕ) (kvs : Pairs) → n ≤ max_headers_len → n + counted_len (fitting n kvs) ≤ max_headers_len
unfolding fitting counted_len
counted_len-fitting n [] h = omega arith
counted_len-fitting n ((k, v) ∷ kvs) h =
    ground (arith, counted_len-fitting n kvs, counted_len-fitting (n + (length k + length v)) kvs)

lookup-fitting :
    (j : Bytes) (n : ℕ) (kvs : Pairs) {w : Bytes}
    → IsMap kvs
    → lookup j (fitting n kvs) ≡ some w
    → lookup j kvs ≡ some w
unfolding fitting lookup
lookup-fitting j n [] d e = e
lookup-fitting j n ((k, v) ∷ kvs) {w} d e = ground (
  arith,
  lookup-fitting j n kvs {w = w} d.1,
  lookup-fitting j (n + (length k + length v)) kvs {w = w} d.1,
  bytes_eq_iff k j,
)

-- A header that was passed over would not fit behind what was encoded.
passed_over :
    (j : Bytes) (n : ℕ) (kvs : Pairs) {w : Bytes}
    → lookup j kvs ≡ some w
    → lookup j (fitting n kvs) ≡ none
    → max_headers_len < n + counted_len (fitting n kvs) + (length j + length w)
unfolding fitting lookup counted_len
passed_over j n [] e miss = cc
passed_over j n ((k, v) ∷ kvs) {w} e miss = ground (
  arith,
  passed_over j n kvs {w = w},
  passed_over j (n + (length k + length v)) kvs {w = w},
  bytes_eq_iff k j,
)

lookup-delete_keys :
    (j : Bytes) (kvs m : Pairs)
    → lookup j (delete_keys kvs m) ≡ elim (lookup j kvs) [ none ↦ lookup j m | some _ ↦ none ]
unfolding delete_keys lookup
lookup-delete_keys j [] m = refl
lookup-delete_keys j ((k, v) ∷ kvs) m =
    ground (arith, lookup-delete_keys j kvs (delete k m), lookup-delete k j m)

-- Behind `n` bytes of keys and values the header with key `j`, if there is one, does not fit.
abbrev pub Beyond : ℕ → Bytes → Option Bytes → Type 0
Beyond n j none = Unit
Beyond n j (some w) = max_headers_len < n + (length j + length w)

-- `EncodeP` of a parsed map splits it. What it encodes has at most MaxHeadersLen bytes of keys and
-- values; every header of the map is either encoded or left in the returned map with its value; and
-- none of those that are left would have fitted behind the encoded ones.
pub encode_p-splits :
    (m : Pairs)
    → IsMap m
    → (kept left : Pairs) × (encode_p (parsed_headers m)
        ≡ (raw_headers (raw kept), raw kept, some left))
      × (counted_len kept ≤ max_headers_len)
      × ((j : Bytes)
          → ((lookup j left ≡ none) × (lookup j kept ≡ lookup j m))
            ⊎ ((lookup j kept ≡ none) × (lookup j left ≡ lookup j m)))
      × ((j : Bytes) → Beyond (counted_len kept) j (lookup j left))
unfolding encode_p
encode_p-splits m d = (
  fitting 0 m,
  left,
  rw (encode_p_loop-fitting m m [] 0) refl,
  omega (arith, counted_len-fitting 0 m),
  splits,
  beyond,
)
  where
    left : Pairs
    left = delete_keys (fitting 0 m) m

    splits :
        (j : Bytes)
        → ((lookup j left ≡ none) × (lookup j (fitting 0 m) ≡ lookup j m))
          ⊎ ((lookup j (fitting 0 m) ≡ none) × (lookup j left ≡ lookup j m))
    splits j = elim (Option-cases (lookup j (fitting 0 m))) [
      | inl e ↦ inr (e, lookup-delete_keys j (fitting 0 m) m ∙ rw e refl)
      | inr (w, e) ↦
          inl (lookup-delete_keys j (fitting 0 m) m ∙ rw e refl, e ∙ sym (lookup-fitting j 0 m d e))
    ]

    beyond : (j : Bytes) → Beyond (counted_len (fitting 0 m)) j (lookup j left)
    beyond j = elim (splits j) [
      | inl (gone, _) ↦ rw gone tt
      | inr (miss, kept) ↦ elim (Option-cases (lookup j m)) [
        | inl none_there ↦ rw (kept, none_there) tt
        | inr (w, there) ↦ rw (kept, there) (omega (arith, passed_over j 0 m there miss))
      ]
    ]
