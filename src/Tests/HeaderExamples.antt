-- ===== src/Tests/HeaderExamples.antt =====
-- Headers on small inputs.
use jtrpc.Common.{
  ℕ, suc, ◌<◌, ◌≤◌, ◌≡◌, refl, true, false, none, some, [], ◌∷◌, ◌++◌, ◌⊎◌, inl, inr, Bytes,
  bytes_eq, length, done, panics, arith, if◌then◌else◌, replicate, Returns, Ends,
}
use jtrpc.Common.Maps.{lookup, insert, delete, IsMap, bytes_key}
use jtrpc.Wire.{append2}
use jtrpc.Headers.{
  Headers, Pairs, raw_headers, parsed_headers, max_headers_len, parse, encode, encode_loop,
  encode_p, encoded_len, pairs_len,
}
use jtrpc.Headers.Access.{get_checked, set, remove_checked, range_loop, range}
use jtrpc.Headers.Pairs.{raw, pair_bytes}
use jtrpc.Headers.ParseEncode.{counted_len, parse-encode}
use jtrpc.Headers.Refinement.{
  Represents, get_checked-Represents, parse-Represents, remove_checked-Represents, takes,
  set_new-Represents, encode-Represents,
}
use jtrpc.Headers.Limits.{
  parse-Ends, parse_panics, encode_oversize, get_checked-Returns, remove_checked-Ends,
  remove_checked_panics,
}
use jtrpc.Headers.Partial.{Beyond, encode_p-splits}
use jtrpc.Headers.Ranging.{note, range_parsed, range_loop-pair}
use jtrpc.Tests.{two, key_a, key_b, key_c}

two-IsMap : IsMap two
unfolding lookup bytes_eq
two-IsMap = (refl, (refl, tt))

raw-two-Represents : Represents (raw_headers (raw two)) two
raw-two-Represents = record {
  form = inr (refl, (omega arith, (omega arith, tt)));
  distinct = two-IsMap;
}

parsed_two-Represents : Represents (parsed_headers two) two
parsed_two-Represents = record { form = inl refl; distinct = two-IsMap }

no_key_c : lookup key_c two ≡ none
unfolding lookup bytes_eq
no_key_c = refl

abbrev encoded_two : Headers
encoded_two = raw_headers (raw two)

encode-two : encode (parsed_headers two) ≡ (encoded_two, some (raw two))
unfolding encode encode_loop
encode-two = refl

get_checked-Represents_example : get_checked (raw_headers (raw two)) key_b ≡ done (lookup key_b two)
get_checked-Represents_example =
    get_checked-Represents (raw_headers (raw two)) two key_b raw-two-Represents

set_new-Represents_example :
    ((h' : Headers) × (takes encoded_two key_c key_a ≡ true)
      × (set encoded_two key_c key_a ≡ done (h', true))
      × Represents h' (insert key_c key_a two))
    ⊎ ((takes encoded_two key_c key_a ≡ false)
        × (set encoded_two key_c key_a ≡ done (encoded_two, false)))
set_new-Represents_example =
    set_new-Represents encoded_two two key_c key_a raw-two-Represents no_key_c

remove_checked-Represents_example :
    (h' : Headers) × (remove_checked encoded_two key_a ≡ done (h', lookup key_a two))
    × Represents h' (delete key_a two)
remove_checked-Represents_example =
    remove_checked-Represents encoded_two two key_a raw-two-Represents

parse-Represents_test :
    (parse encoded_two ≡ done (parsed_headers two)) × Represents (parsed_headers two) two
parse-Represents_test = parse-Represents encoded_two two raw-two-Represents

encode-Represents_example :
    ((b : Bytes) × (encode (parsed_headers two) ≡ (raw_headers b, some b))
      × Represents (raw_headers b) two)
    ⊎ ((encode (parsed_headers two) ≡ (parsed_headers two, none))
        × (max_headers_len < counted_len two))
encode-Represents_example = encode-Represents (parsed_headers two) two parsed_two-Represents

parse-encode_example : parse encoded_two ≡ done (parsed_headers two)
parse-encode_example = parse-encode two encoded_two (raw two) two-IsMap encode-two

get_checked-Returns_example : Returns (get_checked (raw_headers (5 ∷ 0 ∷ 9 ∷ 0 ∷ 1 ∷ [])) key_a)
get_checked-Returns_example = get_checked-Returns (raw_headers (5 ∷ 0 ∷ 9 ∷ 0 ∷ 1 ∷ [])) key_a

parse-Ends_example : Ends (parse (raw_headers (0 ∷ 0 ∷ 0 ∷ 0 ∷ [])))
parse-Ends_example = parse-Ends (raw_headers (0 ∷ 0 ∷ 0 ∷ 0 ∷ []))

remove_checked-Ends_test : Ends (remove_checked (raw_headers (0 ∷ 0 ∷ 0 ∷ 0 ∷ [])) key_a)
remove_checked-Ends_test = remove_checked-Ends (raw_headers (0 ∷ 0 ∷ 0 ∷ 0 ∷ [])) key_a

-- 65535 + 1 is 0 in two bytes.
parse_panics_test : parse (raw_headers (append2 (append2 [] 65535) 1 ++ [])) ≡ panics
parse_panics_test = parse_panics 65535 1 [] (omega arith) (omega arith) (omega arith) (omega arith)

-- One byte of the value is missing.
remove_checked_panics_test :
    (remove_checked (raw_headers (append2 (append2 [] 1) 2 ++ b'a' ∷ b'1' ∷ [])) key_a ≡ panics)
    × (get_checked (raw_headers (append2 (append2 [] 1) 2 ++ b'a' ∷ b'1' ∷ [])) key_a ≡ done none)
remove_checked_panics_test =
    remove_checked_panics 1 2 (b'a' ∷ b'1' ∷ []) key_a (omega arith) (omega arith) (omega arith)
      (omega arith)

encode_p-splits_test :
    (kept left : Pairs) × (encode_p (parsed_headers two)
      ≡ (raw_headers (raw kept), raw kept, some left))
    × (counted_len kept ≤ max_headers_len)
    × ((j : Bytes)
        → ((lookup j left ≡ none) × (lookup j kept ≡ lookup j two))
          ⊎ ((lookup j kept ≡ none) × (lookup j left ≡ lookup j two)))
    × ((j : Bytes) → Beyond (counted_len kept) j (lookup j left))
encode_p-splits_test = encode_p-splits two two-IsMap

range_parsed_test : range note (parsed_headers two) [] ≡ done two
range_parsed_test = range_parsed two

range_loop-pair_test :
    range_loop note 2 (pair_bytes key_a key_b ++ []) (length (pair_bytes key_a key_b ++ [])) [] ≡ (
      if (note [] key_a key_b).1
      then range_loop note 1 ((key_a ++ key_b) ++ []) 0 (note [] key_a key_b).0
      else done (note [] key_a key_b).0)
range_loop-pair_test = range_loop-pair note 1 key_a key_b [] [] (omega arith)

length-replicate : (n x : ℕ) → length (replicate n x) ≡ n
length-replicate ℕ.zero x = refl
length-replicate (suc n) x = omega (arith, length-replicate n x)

-- One header of 65,535 bytes.
big : ℕ → Pairs
big n = (replicate n 0, []) ∷ []

big_counted : counted_len (big 65535) ≤ max_headers_len
unfolding big counted_len
big_counted = omega (arith, length-replicate 65535 0)

big_encoded : max_headers_len < encoded_len (parsed_headers (big 65535))
unfolding big encoded_len pairs_len
big_encoded = omega (arith, length-replicate 65535 0)

encode_oversize_test :
    (encode (parsed_headers (big 65535)) ≡ (raw_headers (raw (big 65535)), some (raw (big 65535))))
    × (max_headers_len < length (raw (big 65535)))
encode_oversize_test = encode_oversize (big 65535) big_counted big_encoded
