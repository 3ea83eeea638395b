-- ===== src/Headers/Ranging.antt =====
-- Range: it visits every header of a parsed map, and of raw bytes the first header only.
use jtrpc.Common.{
  ℕ, zero, suc, ◌+◌, ◌≤◌, ◌≡◌, refl, sym, ◌∙◌, Bool, true, [], ◌∷◌, ◌++◌, append-nil, append_assoc,
  All, Bytes, bytes_eq, length, ltb, le→ltb, lt→ltb, if◌then◌else◌, arith, done, slice, Ends,
  done-Ends, slice-Ends, bind-Ends, if-Ends,
}
use jtrpc.Common.Maps.{IsMap, lookup, bytes_key}
use jtrpc.Wire.{get2}
use jtrpc.Headers.{Headers, Pairs, raw_headers, parsed_headers}
use jtrpc.Headers.Access.{range_map, range_loop, range}
use jtrpc.Headers.Pairs.{
  Fits, raw, pair_bytes, get2_lens, length-pair, slice_key, slice_value, left_over,
}

abbrev two_pairs : Pairs
two_pairs = (b'a' ∷ [], b'1' ∷ []) ∷ (b'b' ∷ [], b'2' ∷ []) ∷ []

-- The callback that notes what it is called with, and always asks for more.
abbrev pub note : Pairs → Bytes → Bytes → Pairs × Bool
note seen k v = (seen ++ (k, v) ∷ [], true)

range_map-note : (kvs seen : Pairs) → range_map note kvs seen ≡ seen ++ kvs
unfolding range_map
range_map-note [] seen = sym (append-nil seen)
range_map-note ((k, v) ∷ kvs) seen =
    range_map-note kvs (seen ++ (k, v) ∷ []) ∙ append_assoc seen ((k, v) ∷ []) kvs

-- On a parsed map `Range` visits every header once, in the map's order.
pub range_parsed : (m : Pairs) → range note (parsed_headers m) [] ≡ done m
unfolding range
range_parsed m = rw (range_map-note m []) refl

module _ {S : Type 0} (f : S → Bytes → Bytes → S × Bool) where
  range_loop-Ends :
      (fuel : ℕ) (b : Bytes) (l : ℕ) (s : S) → l ≤ fuel → Ends (range_loop f fuel b l s)
  unfolding range_loop
  range_loop-Ends zero b l s h = rw (lt→ltb l 4 (omega arith)) (done-Ends s)
  range_loop-Ends (suc fuel) b l s h = if-Ends (ltb l 4) _ _ (done-Ends s) (
      if-Ends (ltb l _) _ _ (done-Ends s) (
        bind-Ends (slice _ _ _) _ (slice-Ends _ _ _) λ k.
          bind-Ends (slice _ _ _) _ (slice-Ends _ _ _)
            λ v. if-Ends (f s k v).1 _ _ (range_loop-Ends fuel _ _ _ (omega arith)) (done-Ends _)))

  -- `Range` ends, whatever the raw bytes and the callback are.
  pub range-Ends : (h : Headers) (s : S) → Ends (range f h s)
  unfolding range
  range-Ends h s =
      if-Ends h.parsed _ _ (done-Ends _)
        (range_loop-Ends (length h.bytes) h.bytes _ s (omega arith))

-- After the first raw header the loop of `Range` goes on right behind that header's four length
-- bytes, where the key stands: it takes the first bytes of the key for the next lengths.
pub range_loop-pair :
    {S : Type 0} (f : S → Bytes → Bytes → S × Bool) (fuel : ℕ) (k v rest : Bytes) (s : S)
    → Fits (k, v)
    → range_loop f (suc fuel) (pair_bytes k v ++ rest) (length (pair_bytes k v ++ rest)) s ≡ (
        if (f s k v).1
        then range_loop f fuel ((k ++ v) ++ rest) (length rest) (f s k v).0
        else done (f s k v).0)
unfolding range_loop
range_loop-pair f fuel k v rest s fits =
    rw
      (
        get2_lens (length k) _ (omega arith),
        get2_lens (length v) _ (omega arith),
        length-pair k v rest,
        slice_key k v rest,
        slice_value k v rest,
        le→ltb (4 + (length k + length v) + length rest) 4 (omega arith),
        le→ltb (4 + (length k + length v) + length rest) (length k + length v) (omega arith),
        left_over,
      )
      refl

-- So `Range` does not visit the headers that the raw bytes hold.
pub range-raw_fails :
    ¬ ((m : Pairs) → IsMap m → All Fits m → range note (raw_headers (raw m)) [] ≡ done m)
unfolding range range_loop get2 slice lookup bytes_eq
range-raw_fails all = cc (all two_pairs (refl, (refl, tt)) (omega arith))
