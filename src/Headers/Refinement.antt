-- ===== src/Headers/Refinement.antt =====
-- A Headers value as a map from keys to values, in either of its two forms.
use jtrpc.Common.{
  ℕ, zero, suc, ◌+◌, ◌<◌, ◌≤◌, ◌≡◌, refl, sym, ◌∙◌, Bool, true, false, ◌||◌, ◌⊎◌, none, some, [],
  ◌∷◌, ◌++◌, append-nil, append_assoc, inl, inr, All, Bytes, bytes_eq, bytes_eq_iff, Bool-cases,
  length, length-append, leb, ltb, ltb→le, ltb→lt, done, arith,
}
use jtrpc.Common.Maps.{
  lookup, insert, insert_new, insert-IsMap, delete, delete_absent, delete-IsMap, IsMap, bytes_key,
}
use jtrpc.Headers.{Headers, Pairs, raw_headers, parsed_headers, max_headers_len, parse, encode}
use jtrpc.Headers.Access.{
  get_loop, get_checked, set, set_parsed, pair_buf, remove_loop, remove_checked,
}
use jtrpc.Headers.Pairs.{Fits, raw, pair_bytes, get_loop-pair, remove_loop-pair}
use jtrpc.Headers.ParseEncode.{copy_into_map, parse-raw, counted_len, All-Fits, encode_parsed}

-- `h` holds the headers of `m`: as the parsed map, or as raw bytes in the order of `m`.
pub record Represents (h : Headers) (m : Pairs) : Type 0 where
  pub form : (h ≡ parsed_headers m) ⊎ ((h ≡ raw_headers (raw m)) × All Fits m)
  pub distinct : IsMap m

pub get_loop-raw :
    (kvs : Pairs) (fuel : ℕ) (key : Bytes)
    → All Fits kvs
    → length (raw kvs) ≤ fuel
    → get_loop fuel (raw kvs) (length (raw kvs)) key ≡ done (lookup key kvs)
unfolding lookup
get_loop-raw [] zero key h f = unfold get_loop in refl
get_loop-raw [] (suc fuel) key h f = unfold get_loop in refl
get_loop-raw ((k, v) ∷ kvs) zero key h f = absurd (omega arith)
get_loop-raw ((k, v) ∷ kvs) (suc fuel) key h f =
    get_loop-pair fuel k v (raw kvs) key h.0
    ∙ ground (arith, get_loop-raw kvs fuel key h.1, length-append (k ++ v) (raw kvs))

remove_loop-raw :
    (kvs : Pairs) (front : Bytes) (fuel i : ℕ) (key : Bytes)
    → All Fits kvs
    → IsMap kvs
    → length (raw kvs) ≤ fuel
    → i ≡ length front
    → remove_loop (front ++ raw kvs) fuel (raw kvs) (length (raw kvs)) i key
      ≡ done (front ++ raw (delete key kvs), lookup key kvs)
unfolding lookup delete
remove_loop-raw [] front zero i key h d f e = unfold remove_loop in refl
remove_loop-raw [] front (suc fuel) i key h d f e = unfold remove_loop in refl
remove_loop-raw ((k, v) ∷ kvs) front zero i key h d f e = absurd (omega arith)
remove_loop-raw ((k, v) ∷ kvs) front (suc fuel) i key h d f e =
    let later =
      remove_loop-raw kvs (front ++ pair_bytes k v) fuel (i + 4 + (length k + length v)) key h.1 d.1
        (omega (arith, length-append (k ++ v) (raw kvs)))
        (omega (arith, length-append front (pair_bytes k v), length-append k v)) in
    remove_loop-pair fuel k v (raw kvs) key h.0 front i e ∙ elim (Bool-cases (bytes_eq k key)) [
      | inl same ↦ ground (arith, delete_absent key kvs, bytes_eq_iff k key)
      | inr other ↦ ground (
        arith,
        later,
        append_assoc front (pair_bytes k v) (raw kvs),
        append_assoc front (pair_bytes k v) (raw (delete key kvs)),
      )
    ]

delete-Fits : (key : Bytes) (m : Pairs) → All Fits m → All Fits (delete key m)
unfolding delete
delete-Fits key [] h = tt
delete-Fits key ((k, v) ∷ m) h = ground (arith, delete-Fits key m h.1)

raw-append : (m n : Pairs) → raw (m ++ n) ≡ raw m ++ raw n
raw-append [] n = refl
raw-append ((k, v) ∷ m) n =
    rw (raw-append m n) (sym (append_assoc (pair_bytes k v) (raw m) (raw n)))

append-Fits : (m n : Pairs) → All Fits m → All Fits n → All Fits (m ++ n)
append-Fits [] n h k = k
append-Fits (p ∷ m) n h k = (h.0, append-Fits m n h.1 k)

-- `GetChecked` looks the key up in the map that the headers represent.
pub get_checked-Represents :
    (h : Headers) (m : Pairs) (key : Bytes)
    → Represents h m
    → get_checked h key ≡ done (lookup key m)
unfolding get_checked
get_checked-Represents h m key r = elim r.form [
  | inl e ↦ rw e refl
  | inr (e, fits) ↦ rw e (get_loop-raw m (length (raw m)) key fits (omega arith))
]

-- `Parse` changes the form, not the map.
pub parse-Represents :
    (h : Headers) (m : Pairs)
    → Represents h m
    → (parse h ≡ done (parsed_headers m)) × Represents (parsed_headers m) m
parse-Represents h m r = elim r.form [
  | inl e ↦ (rw e (unfold parse in refl), record { form = inl refl; distinct = r.distinct })
  | inr (e, fits) ↦ (
    rw e (parse-raw m fits ∙ rw (copy_into_map m r.distinct) refl),
    record { form = inl refl; distinct = r.distinct },
  )
]

-- `RemoveChecked` deletes the key from the map and returns the value that it had.
pub remove_checked-Represents :
    (h : Headers) (m : Pairs) (key : Bytes)
    → Represents h m
    → (h' : Headers) × (remove_checked h key ≡ done (h', lookup key m))
      × Represents h' (delete key m)
unfolding remove_checked
remove_checked-Represents h m key r = elim r.form [
  | inl e ↦ (
    parsed_headers (delete key m),
    rw e refl,
    record { form = inl refl; distinct = delete-IsMap key m r.distinct },
  )
  | inr (e, fits) ↦ (
    raw_headers (raw (delete key m)),
    rw e (rw (remove_loop-raw m [] (length (raw m)) 0 key fits r.distinct (omega arith) refl) refl),
    record { form = inr (refl, delete-Fits key m fits); distinct = delete-IsMap key m r.distinct },
  )
]

pair_buf-raw : (k v : Bytes) → pair_buf k v ≡ raw ((k, v) ∷ [])
unfolding pair_buf
pair_buf-raw k v = rw append-nil refl

-- The headers take a pair of this size: they are parsed, or the raw bytes would not grow beyond
-- MaxHeadersLen.
abbrev pub takes : Headers → Bytes → Bytes → Bool
takes h key value = h.parsed || leb (4 + length key + length value + length h.bytes) max_headers_len

-- `Set` of a key that is not there adds the pair where the headers take it, and otherwise answers
-- false and changes nothing: it refuses exactly where the headers are raw bytes that would grow
-- beyond MaxHeadersLen.
pub set_new-Represents :
    (h : Headers) (m : Pairs) (key value : Bytes)
    → Represents h m
    → lookup key m ≡ none
    → ((h' : Headers) × (takes h key value ≡ true)
        × (set h key value ≡ done (h', true))
        × Represents h' (insert key value m))
      ⊎ ((takes h key value ≡ false) × (set h key value ≡ done (h, false)))
unfolding set set_parsed
set_new-Represents h m key value r new = elim r.form [
  | inl e ↦ inl (
    parsed_headers (insert key value m),
    rw e refl,
    rw e refl,
    record { form = inl refl; distinct = insert-IsMap key value m r.distinct },
  )
  | inr (e, fits) ↦
      let grown = 4 + length key + length value + length (raw m) in
      elim (Bool-cases (ltb max_headers_len grown)) [
        | inl over ↦ inr (rw e (ground arith), rw e (rw over refl))
        | inr room ↦ inl (
          raw_headers (raw (insert key value m)),
          rw e (ground arith),
          rw e (
              rw room (
                rw
                  (
                    insert_new key value m new,
                    raw-append m ((key, value) ∷ []),
                    pair_buf-raw key value,
                  )
                  refl)),
          record {
            form = inr (
              refl,
              rw (insert_new key value m new)
                  (append-Fits m ((key, value) ∷ []) fits (omega (arith, ltb→le _ _ room), tt)),
            );
            distinct = insert-IsMap key value m r.distinct;
          },
        )
      ]
]

-- `Encode` changes the form, not the map, or reports that the headers are too large and changes
-- nothing.
pub encode-Represents :
    (h : Headers) (m : Pairs)
    → Represents h m
    → ((b : Bytes) × (encode h ≡ (raw_headers b, some b)) × Represents (raw_headers b) m)
      ⊎ ((encode h ≡ (h, none)) × (max_headers_len < counted_len m))
encode-Represents h m r = elim r.form [
  | inl e ↦ elim (Bool-cases (ltb max_headers_len (counted_len m))) [
    | inl over ↦ inr (rw (e, encode_parsed m, over) refl, ltb→lt _ _ over)
    | inr fits ↦ inl (
      raw m,
      rw (e, encode_parsed m, fits) refl,
      record { form = inr (refl, All-Fits m (ltb→le _ _ fits)); distinct = r.distinct },
    )
  ]
  | inr (e, fits) ↦ inl (
    raw m,
    rw e (unfold encode in refl),
    record { form = inr (refl, fits); distinct = r.distinct },
  )
]
