-- ===== src/Headers/Access.antt =====
-- go/req_resp.go, the methods of Headers that read or change single headers: GetChecked, Get, Set,
-- SetAll, SetAllP, RemoveChecked, Remove, Range.
use jtrpc.Common.{
  ℕ, zero, suc, ◌+◌, ◌-◌, Bool, true, false, Option, none, some, [], ◌∷◌, ◌++◌, Bytes, bytes_eq,
  length, drop, ltb, nat_eq, if◌then◌else◌, Outcome, done, panics, stuck, ◌>>=◌, slice,
}
use jtrpc.Common.Maps.{lookup, insert, delete, bytes_key}
use jtrpc.Wire.{u16, place2, get2}
use jtrpc.Headers.{Headers, Pairs, max_headers_len, entries, encode, encode_p}

-- `kl == wkl && string(b[:kl]) == key`, which reads the slice only if the lengths agree.
unfoldable pub key_matches : Bytes → ℕ → Bytes → Outcome Bool
key_matches b kl key =
    if nat_eq kl (length key) then (do s ← slice b 0 kl; done (bytes_eq s key)) else done false

-- The loop of `GetChecked` over the raw bytes.
unfoldable pub get_loop : ℕ → Bytes → ℕ → Bytes → Outcome (Option Bytes)
unfolding key_matches
get_loop zero b l key = if ltb l 4 then done none else stuck
get_loop (suc fuel) b l key =
    let kl = get2 b in
    let kvl = kl + get2 (drop 2 b) in
    let rest = drop 4 b in
    let looked = (do
      found ← key_matches rest kl key
      if found
          then (do v ← slice rest kl kvl; done (some v))
          else (do next ← slice rest kvl (length rest); get_loop fuel next (l - 4 - kvl) key)) in
    if ltb l 4 then done none else if ltb (length rest) kvl then done none else looked

-- `GetChecked`; `none` is `"", false`.
unfoldable pub get_checked : Headers → Bytes → Outcome (Option Bytes)
get_checked h key =
    if h.parsed
    then done (lookup key (entries h.m))
    else get_loop (length h.bytes) h.bytes (length h.bytes) key

abbrev or_empty : Option Bytes → Bytes
or_empty none = []
or_empty (some v) = v

-- `Get`
unfoldable pub get : Headers → Bytes → Outcome Bytes
get h key = do v ← get_checked h key; done (or_empty v)

-- `buf` in `Set`.
unfoldable pub pair_buf : Bytes → Bytes → Bytes
pair_buf k v = place2 (place2 (0 ∷ 0 ∷ 0 ∷ 0 ∷ []) 0 (u16 (length k))) 2 (u16 (length v)) ++ k ++ v

-- A write to the nil map panics.
unfoldable pub set_parsed : Headers → Option Pairs → Bytes → Bytes → Outcome (Headers × Bool)
set_parsed h none key value = panics
set_parsed h (some m) key value = done (record h { m = some (insert key value m) }, true)

unfoldable pub set : Headers → Bytes → Bytes → Outcome (Headers × Bool)
unfolding pair_buf set_parsed
set h key value =
    if h.parsed
    then set_parsed h h.m key value
    else if ltb max_headers_len (4 + length key + length value + length h.bytes)
    then done (h, false)
    else done (record h { bytes = h.bytes ++ pair_buf key value }, true)

abbrev ok_of {ℓ} : {A : Type ℓ} → Option A → Bool
ok_of none = false
ok_of (some _) = true

-- `SetAll`: `h.m, h.parsed = nil, false` comes after the call of `Encode`.
unfoldable pub set_all : Headers → Option Pairs → Headers × Bool
set_all h m =
    let (h', r) = encode (record h { m = m; parsed = true }) in
    if h.parsed
    then (record h { m = m }, true)
    else (record h' { m = none; parsed = false }, ok_of r)

-- `SetAllP`
unfoldable pub set_all_p : Headers → Option Pairs → Headers × Option Pairs
set_all_p h m =
    let (h', b, left) = encode_p (record h { m = m; parsed = true }) in
    if h.parsed then (record h { m = m }, none) else (h', left)

-- The loop of `RemoveChecked`; `whole` is `h.bytes`. It compares `kvl` with `l` before it has
-- subtracted the four length bytes from `l`.
unfoldable pub remove_loop : Bytes → ℕ → Bytes → ℕ → ℕ → Bytes → Outcome (Bytes × Option Bytes)
unfolding key_matches
remove_loop whole zero b l i key = if ltb l 4 then done (whole, none) else stuck
remove_loop whole (suc fuel) b l i key =
    let kl = get2 b in
    let kvl = kl + get2 (drop 2 b) in
    let rest = drop 4 b in
    let looked = (do
      found ← key_matches rest kl key
      if found
          then (do
            v ← slice rest kl kvl
            front ← slice whole 0 i
            back ← slice whole (i + 4 + kvl) (length whole)
            done (front ++ back, some v))
          else (do
            next ← slice rest kvl (length rest)
            remove_loop whole fuel next (l - 4 - kvl) (i + 4 + kvl) key)) in
    if ltb l 4 then done (whole, none) else if ltb l kvl then done (whole, none) else looked

-- `RemoveChecked`; deleting from the nil map does nothing.
unfoldable pub remove_checked : Headers → Bytes → Outcome (Headers × Option Bytes)
remove_checked h key =
    if h.parsed then done (record h { m = delete_in h.m }, lookup key (entries h.m)) else do
      r ← remove_loop h.bytes (length h.bytes) h.bytes (length h.bytes) 0 key
      done (record h { bytes = r.0 }, r.1)
  where
    delete_in : Option Pairs → Option Pairs
    delete_in none = none
    delete_in (some m) = some (delete key m)

-- `Remove`
unfoldable pub remove : Headers → Bytes → Outcome (Headers × Bytes)
remove h key = do r ← remove_checked h key; done (r.0, or_empty r.1)

-- `Range`, where the callback's effects are a state that it is handed and gives back.
module _ {S : Type 0} (f : S → Bytes → Bytes → S × Bool) where
  unfoldable pub range_map : Pairs → S → S
  range_map [] s = s
  range_map ((k, v) ∷ kvs) s =
      let (s', more) = f s k v in let rest = range_map kvs s' in if more then rest else s'

  -- The loop over the raw bytes: `b` moves past the four length bytes only.
  unfoldable pub range_loop : ℕ → Bytes → ℕ → S → Outcome S
  range_loop zero b l s = if ltb l 4 then done s else stuck
  range_loop (suc fuel) b l s =
      let kl = get2 b in
      let kvl = kl + get2 (drop 2 b) in
      let rest = drop 4 b in
      let visited = (do
        k ← slice rest 0 kl
        v ← slice rest kl kvl
        let r = f s k v
        let later = range_loop fuel rest (l - 4 - kvl) r.0
        if r.1 then later else done r.0) in
      if ltb l 4 then done s else if ltb l kvl then done s else visited

  unfoldable pub range : Headers → S → Outcome S
  range h s =
      if h.parsed
      then done (range_map (entries h.m) s)
      else range_loop (length h.bytes) h.bytes (length h.bytes) s
