-- ===== src/Response.antt =====
-- go/req_resp.go, the types Response, ReadCloseCounter and ErrorResp: newResponse, the body's
-- setters and readers, WriteTo, ReadFrom, ShallowCopyFrom, writeResp and writeRespMsg.
--
-- A body reader is the bytes that it still gives and whether it was closed: readers of Go's
-- standard library (strings.Reader, bytes.Reader, bytes.Buffer) behind CloserWrapper.
pub mod RoundTrip
pub mod BodyReader
pub mod ReadAll
use jtrpc.Common.{
  ℕ, zero, suc, ◌+◌, ◌-◌, Bool, true, false, Option, none, some, List, [], ◌∷◌, ◌++◌, Bytes, length,
  take, drop, set, replicate, ltb, nat_eq, if◌then◌else◌,
}
use jtrpc.Common.Int.{ℤ, int64, int_of}
use jtrpc.Wire.{u16, u64, place2, get2, place8, get8}
use jtrpc.Headers.{Headers, raw_headers, encode}
use jtrpc.Io.{Error, eof, Reading, read_full, copy_n, Sink, Written, WriteAll, copy_after}
use jtrpc.Request.{Request, byte_at, encoded_headers}

-- ReadCloseCounter
pub record Counter : Type 0 where
  pub src : Bytes
  pub len : ℕ
  pub closed : Bool

-- `FromReader(r, n)`; a reader that cannot be closed is wrapped, which changes nothing here.
unfoldable pub from_reader : Bytes → ℕ → Counter
from_reader src n = record { src = src; len = n; closed = false }

-- What can be read: at most `len` bytes.
abbrev pub counter_bytes : Counter → Bytes
counter_bytes c = take c.len c.src

-- The counter after `k` bytes were read.
abbrev pub advance : Counter → ℕ → Counter
advance c k = record c { src = drop k c.src; len = c.len - k }

-- `Read(p)` with a buffer of `p_len` bytes; the inner reader gives as much as it can.
unfoldable pub read_counter : Counter → ℕ → Counter × Bytes × Option Error
read_counter c p_len =
    let p = if ltb c.len p_len then c.len else p_len in
    let got = take p c.src in
    if nat_eq c.len 0
    then (c, [], some eof)
    else if nat_eq (length c.src) 0
    then (c, [], some eof)
    else (advance c (length got), got, none)

unfoldable pub close_counter : Counter → Counter
close_counter c = record c { closed = true }

-- `stream` names the stream by the id of its request.
pub record Response (C : Type 0) : Type 0 where
  pub req_id : ℕ
  pub flags : ℕ
  pub status : ℕ
  pub headers : Option Headers
  pub body : Option Counter
  pub body_len : ℕ
  pub stream : Option ℕ
  pub request : Option (Request C)

-- The result of `ReadFrom`: the response, the rest of the stream, the number of bytes read, and
-- the error.
pub record Received (C : Type 0) : Type 0 where
  pub resp : Response C
  pub rest : Bytes
  pub n : ℕ
  pub failure : Option Error

-- The headers are read only where there are some; io.ReadFull of no bytes reads none.
unfoldable pub read_headers : ℕ → Bytes → Reading
read_headers hl rest =
    if nat_eq hl 0 then record { got = []; rest = rest; failure = none } else read_full hl rest

module _ {C : Type 0} where
  -- `Response{}`
  abbrev pub empty_response : Response C
  empty_response = record {
    req_id = 0;
    flags = 0;
    status = 0;
    headers = none;
    body = none;
    body_len = 0;
    stream = none;
    request = none;
  }

  -- `newResponse`
  unfoldable pub new_response : ℕ → ℕ → Option (Request C) → Response C
  new_response req_id flags req = record empty_response {
    req_id = req_id;
    flags = flags;
    headers = some (raw_headers []);
    request = req;
  }

  -- `SetBodyReader` and `SetBodyReadCloser`; `l` is `uint64(l)`.
  unfoldable pub set_body_reader : Response C → Bytes → ℕ → Response C
  set_body_reader r src l = record r { body = some (from_reader src l); body_len = l }

  -- `SetBodyString` and `SetBodyBytes`
  unfoldable pub set_body : Response C → Bytes → Response C
  set_body r b = set_body_reader r b (length b)

  -- `SetStatusBodyBytes` and `SetStatusBodyString`
  unfoldable pub set_status_body : Response C → ℕ → Bytes → Response C
  set_status_body r status b = set_body (record r { status = status }) b

  -- `buf` of `WriteTo`: the headers are appended before the lengths are placed.
  unfoldable pub response_head : Response C → Bytes
  response_head r =
      let header_bytes = (encoded_headers r.headers).0 in
      let b0 = set (set (place8 (replicate 20 0) 0 r.req_id) 8 r.flags) 9 r.status in
      place8 (place2 (b0 ++ header_bytes) 10 (u16 (length header_bytes))) 12 r.body_len

  write_response_body : Response C → Option Counter → Written → Response C × Written
  write_response_body r none w = (r, w)
  write_response_body r (some c) w =
      let copied = copy_after w (counter_bytes c) (int64 r.body_len) in
      let k = length (counter_bytes c) - length copied.left in
      (record r { body = some (close_counter (advance c k)) }, copied.written)

  -- `WriteTo`; the deferred call closes the body on every return.
  unfoldable pub write_response : WriteAll → Response C → Sink → Response C × Written
  unfolding write_response_body
  write_response write_all r s =
      write_response_body (record r { headers = (encoded_headers r.headers).1 }) r.body
        (write_all s (response_head r))

  -- A read in `ReadFrom`: the number of bytes is added to `n` on every return, and on an error the
  -- response stays as it is.
  abbrev pub then_read : Response C → ℕ → Reading → (Bytes → Bytes → ℕ → Received C) → Received C
  then_read r n reading k = elim reading.failure [
    | some e ↦ record {
      resp = r;
      rest = reading.rest;
      n = n + length reading.got;
      failure = some e;
    }
    | none ↦ k reading.got reading.rest (n + length reading.got)
  ]

  -- `if bl != 0 { ... }`
  unfoldable pub read_body : Response C → ℕ → Bytes → ℕ → Received C
  read_body r bl rest n =
      if nat_eq bl 0
      then record { resp = r; rest = rest; n = n; failure = none }
      else then_read r n (copy_n (int64 bl) rest) λ body rest' n'. record {
        resp = set_body_reader r body bl;
        rest = rest';
        n = n';
        failure = none;
      }

  unfoldable pub read_response : Response C → Bytes → Received C
  read_response r input = then_read r 0 (read_full 20 input) λ buf rest n.
      let r1 = record r { req_id = get8 buf; flags = byte_at buf 8; status = byte_at buf 9 } in
      then_read r1 n (read_headers (get2 (drop 10 buf)) rest) λ header_bytes rest' n'.
        read_body (record r1 { headers = some (raw_headers header_bytes) }) (get8 (drop 12 buf))
          rest' n'

  -- `ShallowCopyFrom`
  unfoldable pub shallow_copy_from : Response C → Response C → Response C
  shallow_copy_from r resp = record r {
    flags = resp.flags;
    status = resp.status;
    headers = resp.headers;
    body = resp.body;
    body_len = resp.body_len;
    stream = resp.stream;
  }

-- The 20 bytes of `writeResp` and `writeRespW`.
unfoldable pub status_bytes : ℕ → ℕ → Bytes
status_bytes req_id status = set (place8 (replicate 20 0) 0 req_id) 9 status

unfoldable pub write_status : WriteAll → ℕ → ℕ → Sink → Written
write_status write_all req_id status s = write_all s (status_bytes req_id status)

-- `writeRespMsg`
unfoldable pub write_status_msg : WriteAll → ℕ → ℕ → Bytes → Sink → Written
write_status_msg write_all req_id status msg s =
    (write_response write_all
      (set_body (record (empty_response {C = Unit {0}}) { req_id = req_id; status = status }) msg)
      s).1
