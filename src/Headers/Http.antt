-- ===== src/Headers/Http.antt =====
-- go/req_resp.go: GetFirstValue, GetLastValue, JoinValues, FromHTTPHeader, FromHTTPHeaderP and
-- Clone. An http.Header, a `map[string][]string`, is an association list too.
use jtrpc.Common.{
  ◌+◌, Bool, true, false, Option, none, some, List, [], ◌∷◌, ◌++◌, Bytes, length, ltb,
  if◌then◌else◌,
}
use jtrpc.Common.Maps.{insert, delete, bytes_key}
use jtrpc.Headers.{
  Headers, Pairs, max_headers_len, entries, raw_headers, parsed_headers, append_pair, copy_into,
}

abbrev pub HttpHeader : Type 0
HttpHeader = List (Bytes × List Bytes)

-- `GetFirstValue`; the other parameter is not read.
unfoldable pub get_first_value : List Bytes → Bytes
get_first_value [] = []
get_first_value (v ∷ vs) = v

-- `GetLastValue`
unfoldable pub get_last_value : List Bytes → Bytes
get_last_value [] = []
get_last_value (v ∷ []) = v
get_last_value (v ∷ w ∷ vs) = get_last_value (w ∷ vs)

-- `JoinValues`, which is `strings.Join(vs, ",")`.
unfoldable pub join_values : List Bytes → Bytes
join_values [] = []
join_values (v ∷ []) = v
join_values (v ∷ w ∷ vs) = v ++ b',' ∷ join_values (w ∷ vs)

module _ (f : Bytes → List Bytes → Bytes) where
  -- `m[k] = f(k, vs)` for each entry.
  unfoldable pub collect : HttpHeader → Pairs → Pairs
  collect [] m = m
  collect ((k, vs) ∷ hm) m = collect hm (insert k (f k vs) m)

  -- The loop of `FromHTTPHeader`; `none` is the return of ErrHeadersTooLarge.
  unfoldable pub encode_http : HttpHeader → Bytes → Option Bytes
  encode_http [] b = some b
  encode_http ((k, vs) ∷ hm) b =
      if ltb max_headers_len (4 + length k + length (f k vs) + length b)
      then none
      else encode_http hm (append_pair b k (f k vs))

  abbrev raw_option : Option Bytes → Option Headers
  raw_option none = none
  raw_option (some b) = some (raw_headers b)

  unfoldable pub from_http_header : HttpHeader → Bool → Option Headers
  from_http_header hm true = some (parsed_headers (collect hm []))
  from_http_header hm false = raw_option (encode_http hm [])

  -- The loop of `FromHTTPHeaderP`; it deletes what it encodes from `left`.
  unfoldable pub encode_http_p : HttpHeader → HttpHeader → Bytes → Bytes × HttpHeader
  encode_http_p [] left b = (b, left)
  encode_http_p ((k, vs) ∷ hm) left b =
      if ltb max_headers_len (4 + length k + length (f k vs) + length b)
      then encode_http_p hm left b
      else encode_http_p hm (delete k left) (append_pair b k (f k vs))

  -- The second component is `none` for the nil http.Header.
  unfoldable pub from_http_header_p : HttpHeader → Bool → Headers × Option HttpHeader
  from_http_header_p hm true = (parsed_headers (collect hm []), none)
  from_http_header_p hm false = let (b, left) = encode_http_p hm hm [] in (raw_headers b, some left)

-- `Clone`, with utils.CloneSlice as a parameter.
unfoldable pub clone : (Bytes → Bytes) → Headers → Headers
clone clone_slice h =
    if h.parsed
    then parsed_headers (copy_into [] (entries h.m))
    else raw_headers (clone_slice h.bytes)
