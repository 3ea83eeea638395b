-- ===== src/Headers/Limits.antt =====
-- What the methods do at the edges: every loop ends, EncodeP splits the map, Encode and Parse meet
-- lengths that do not fit.
use jtrpc.Common.{
  ℕ, zero, suc, ◌+◌, ◌-◌, ◌<◌, ◌≤◌, ◌≡◌, refl, false, none, some, [], ◌++◌, Bytes, bytes_eq, length,
  length-drop, drop, ltb, nat_eq, ltb→le, le→ltb, done, panics, slice, Ends, Returns, done-Ends,
  slice-Ends, bind-Ends, if-Ends, bind-Returns, slice_over, slice_inverted, bind-panics, if-panics,
  if-Returns, slice-Returns, length-slice, arith,
}
use jtrpc.Common.Maps.{bytes_key}
use jtrpc.Wire.{get2, append2}
use jtrpc.Headers.{
  Headers, Pairs, raw_headers, parsed_headers, max_headers_len, parse_loop, parse, encode,
  encoded_len,
}
use jtrpc.Headers.Access.{key_matches, get_loop, get_checked, remove_loop, remove_checked}
use jtrpc.Headers.Pairs.{raw, length-raw}
use jtrpc.Headers.ParseEncode.{counted_len, encode_parsed}

parse_loop-Ends :
    (fuel : ℕ) (b : Bytes) (l : ℕ) (m : Pairs) → l ≤ fuel → Ends (parse_loop fuel b l m)
unfolding parse_loop
parse_loop-Ends zero b l m h = ground arith
parse_loop-Ends (suc fuel) b l m h = if-Ends (ltb l 4) _ _ (done-Ends m) (
    if-Ends (ltb (l - 4) _) _ _ (done-Ends m) (
      bind-Ends (slice _ _ _) _ (slice-Ends _ _ _) λ k.
        bind-Ends (slice _ _ _) _ (slice-Ends _ _ _) λ v.
          bind-Ends (slice _ _ _) _ (slice-Ends _ _ _)
            λ next. parse_loop-Ends fuel next _ _ (omega arith)))

-- The loop of `Parse` ends on every byte string.
pub parse-Ends : (h : Headers) → Ends (parse h)
unfolding parse
parse-Ends h =
    if-Ends h.parsed _ _ (done-Ends h)
      (bind-Ends _ _ (parse_loop-Ends (length h.bytes) h.bytes _ [] (omega arith)) λ m. done-Ends _)

-- Two lengths whose sum wraps make `Parse` panic, if as many bytes follow as the wrapped sum says.
pub parse_panics :
    (kl vl : ℕ) (rest : Bytes)
    → kl < 65536
    → vl < 65536
    → 65536 ≤ kl + vl
    → kl + vl - 65536 ≤ length rest
    → parse (raw_headers (append2 (append2 [] kl) vl ++ rest)) ≡ panics
unfolding parse parse_loop slice get2
parse_panics kl vl rest hk hv over room = ground arith

-- The wire form of what `Encode` accepts is longer than MaxHeadersLen as soon as the four length
-- bytes of each header count.
pub encode_oversize :
    (m : Pairs)
    → counted_len m ≤ max_headers_len
    → max_headers_len < encoded_len (parsed_headers m)
    → (encode (parsed_headers m) ≡ (raw_headers (raw m), some (raw m)))
      × (max_headers_len < length (raw m))
unfolding encoded_len
encode_oversize m fits over =
    (rw (encode_parsed m, le→ltb _ _ fits) refl, omega (arith, length-raw m))

key_matches-Ends : (b : Bytes) (kl : ℕ) (key : Bytes) → Ends (key_matches b kl key)
unfolding key_matches
key_matches-Ends b kl key =
    if-Ends (nat_eq kl (length key)) _ _
      (bind-Ends (slice b 0 kl) _ (slice-Ends b 0 kl) λ s. done-Ends _) (done-Ends false)

key_matches-Returns :
    (b : Bytes) (kl : ℕ) (key : Bytes) → kl ≤ length b → Returns (key_matches b kl key)
unfolding key_matches
key_matches-Returns b kl key h =
    if-Returns (nat_eq kl (length key)) _ _
      (λ _.
        bind-Returns (slice b 0 kl) _ (slice-Returns b 0 kl (omega arith) h)
          λ s _. (bytes_eq s key, refl))
      (λ _. (false, refl))

get_loop-Returns :
    (fuel : ℕ) (b : Bytes) (l : ℕ) (key : Bytes)
    → l ≡ length b
    → l ≤ fuel
    → Returns (get_loop fuel b l key)
unfolding get_loop
get_loop-Returns zero b l key e h = (none, ground arith)
get_loop-Returns (suc fuel) b l key e h =
    if-Returns (ltb l 4) _ _ (λ _. (none, refl))
      λ long.
        if-Returns (ltb (length (drop 4 b)) _) _ _ (λ _. (none, refl))
          λ room.
            bind-Returns (key_matches _ _ key) _
              (key_matches-Returns _ _ key (omega (arith, ltb→le _ _ room)))
              λ found _.
                if-Returns found _ _
                  (λ _.
                    bind-Returns (slice _ _ _) _
                      (slice-Returns _ _ _ (omega arith) (ltb→le _ _ room)) λ v _. (some v, refl))
                  (λ _.
                    bind-Returns (slice _ _ _) _
                      (slice-Returns _ _ _ (ltb→le _ _ room) (omega arith))
                      λ next s.
                        get_loop-Returns fuel next _ key
                          (omega (arith, length-slice _ _ _ next s, length-drop 4 b)) (omega arith))

-- `GetChecked` returns on every Headers value, however its raw bytes are malformed: it neither
-- panics nor loops.
pub get_checked-Returns : (h : Headers) (key : Bytes) → Returns (get_checked h key)
unfolding get_checked
get_checked-Returns h key =
    if-Returns h.parsed _ _ (λ _. (_, refl))
      λ _. get_loop-Returns (length h.bytes) h.bytes _ key refl (omega arith)

remove_loop-Ends :
    (whole : Bytes) (fuel : ℕ) (b : Bytes) (l i : ℕ) (key : Bytes)
    → l ≤ fuel
    → Ends (remove_loop whole fuel b l i key)
unfolding remove_loop
remove_loop-Ends whole zero b l i key h = ground arith
remove_loop-Ends whole (suc fuel) b l i key h = if-Ends (ltb l 4) _ _ (done-Ends _) (
    if-Ends (ltb l _) _ _ (done-Ends _) (
      bind-Ends (key_matches _ _ key) _ (key_matches-Ends _ _ key) λ found.
        if-Ends found _ _
          (bind-Ends (slice _ _ _) _ (slice-Ends _ _ _) λ v.
            bind-Ends (slice _ _ _) _ (slice-Ends _ _ _)
              λ front. bind-Ends (slice _ _ _) _ (slice-Ends _ _ _) λ back. done-Ends _)
          (bind-Ends (slice _ _ _) _ (slice-Ends _ _ _)
            λ next. remove_loop-Ends whole fuel next _ _ key (omega arith))))

-- The loop of `RemoveChecked` ends on every byte string.
pub remove_checked-Ends : (h : Headers) (key : Bytes) → Ends (remove_checked h key)
unfolding remove_checked
remove_checked-Ends h key = if-Ends h.parsed _ _ (done-Ends _) (
    bind-Ends _ _
      (remove_loop-Ends h.bytes (length h.bytes) h.bytes (length h.bytes) 0 key (omega arith))
      λ r. done-Ends _)

module _ (kl vl : ℕ) (rest key : Bytes) (hk : kl < 65536) (hv : vl < 65536) where
  two_lens : Bytes
  two_lens = append2 (append2 [] kl) vl ++ rest

  get2_key : get2 two_lens ≡ kl
  unfolding two_lens get2
  get2_key = omega arith

  get2_value : get2 (drop 2 two_lens) ≡ vl
  unfolding two_lens get2
  get2_value = omega arith

  length-two_lens : length two_lens ≡ 4 + length rest
  unfolding two_lens
  length-two_lens = omega arith

  get_loop_short :
      (fuel : ℕ)
      → length rest < kl + vl
      → get_loop (suc fuel) two_lens (length two_lens) key ≡ done none
  unfolding get_loop
  get_loop_short fuel short = rw (get2_key, get2_value) (unfold two_lens in ground arith)

  remove_loop_short :
      (whole : Bytes) (fuel i : ℕ)
      → length rest < kl + vl
      → kl + vl ≤ 4 + length rest
      → remove_loop whole (suc fuel) two_lens (length two_lens) i key ≡ panics
  unfolding remove_loop
  remove_loop_short whole fuel i short near =
      rw
        (
          get2_key,
          get2_value,
          le→ltb (length two_lens) 4 (omega (arith, length-two_lens)),
          le→ltb (length two_lens) (kl + vl) (omega (arith, length-two_lens)),
        )
        (unfold two_lens in
          bind-panics (key_matches rest kl key) _ (key_matches-Ends rest kl key) λ found.
            if-panics found _ _ (rw (slice_over rest kl (kl + vl) short) refl)
              (rw (slice_inverted rest (kl + vl) (length rest) short) refl))

  -- One header whose value is cut short by up to four bytes makes `RemoveChecked` panic, where
  -- `GetChecked` answers that there is no header with the key.
  pub remove_checked_panics :
      length rest < kl + vl
      → kl + vl ≤ 4 + length rest
      → (remove_checked (raw_headers (append2 (append2 [] kl) vl ++ rest)) key ≡ panics)
        × (get_checked (raw_headers (append2 (append2 [] kl) vl ++ rest)) key ≡ done none)
  unfolding remove_checked get_checked two_lens
  remove_checked_panics short near = (
    rw (remove_loop_short two_lens (suc (suc (suc (length rest)))) 0 short near) refl,
    get_loop_short (suc (suc (suc (length rest)))) short,
  )
