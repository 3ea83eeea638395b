-- ===== src/Request.antt =====
-- go/req_resp.go, the type Request: creation, RequestFromReader, Clone, WithContext, SetContext,
-- WriteTo, SetStream and WantsStream.
--
-- `C` is the type of contexts, which belong to Go's standard library. A body is what its buffer
-- still holds.
pub mod RoundTrip
pub mod Heads
use jtrpc.Common.{
  ℕ, zero, suc, ◌+◌, Bool, true, false, Option, none, some, List, [], ◌∷◌, ◌++◌, Bytes, length,
  take, drop, set, replicate, if◌then◌else◌,
}
use jtrpc.Common.Int.{ℤ, int64, gtz, int_of}
use jtrpc.Wire.{u16, u64, place2, get2, place8, get8}
use jtrpc.Headers.{Headers, raw_headers, new_headers, encode}
use jtrpc.Headers.Http.{clone}
use jtrpc.Flags.{has_stream_flag, set_stream_flag}
use jtrpc.Io.{
  Error, body_too_large, Reading, read_full, copy_n, Sink, Written, WriteAll, copy_after,
}

pub record Request (C : Type 0) : Type 0 where
  pub id : ℕ
  pub ctx : C
  pub remote_addr : Bytes
  pub flags : ℕ
  pub path : Bytes
  pub headers : Option Headers
  pub body : Option Bytes

-- A parsed value with the rest of the stream, or an error.
pub data Parsed (A : Type 0) : Type 0 where
  got : A → Bytes → Parsed A
  fails : Error → Parsed A

-- Go on after a read that gave no error.
abbrev pub after_read : {A : Type 0} → Reading → (Bytes → Bytes → Parsed A) → Parsed A
after_read r k = elim r.failure [ none ↦ k r.got r.rest | some e ↦ fails e ]

-- The byte `buf[i]`.
abbrev pub byte_at : Bytes → ℕ → ℕ
byte_at [] i = 0
byte_at (b ∷ bs) zero = b
byte_at (b ∷ bs) (suc i) = byte_at bs i

abbrev pub body_bytes : Option Bytes → Bytes
body_bytes none = []
body_bytes (some b) = b

abbrev clone_headers : (Bytes → Bytes) → Option Headers → Option Headers
clone_headers clone_slice none = none
clone_headers clone_slice (some h) = some (clone clone_slice h)

-- The header bytes that `WriteTo` sends, and the headers' state after its call of `Encode`.
abbrev pub encoded_headers : Option Headers → Bytes × Option Headers
encoded_headers none = ([], none)
encoded_headers (some h) = let (h', r) = encode h in (elim r [ none ↦ [] | some b ↦ b ], some h')

module _ {C : Type 0} where
  -- `NewRequest`
  unfoldable pub new_request : C → Bytes → Request C
  new_request ctx path = record {
    id = 0;
    ctx = ctx;
    remote_addr = [];
    flags = 0;
    path = path;
    headers = some (new_headers false);
    body = none;
  }

  -- `newRequest`; `background` is `context.Background()`.
  unfoldable pub make_request : C → ℕ → Bytes → ℕ → Bytes → Bytes → Request C
  make_request background id addr flags path header_bytes = record {
    id = id;
    ctx = background;
    remote_addr = addr;
    flags = flags;
    path = path;
    headers = some (raw_headers header_bytes);
    body = none;
  }

  unfoldable pub request_from_reader : (Bytes → Bytes) → C → Bytes → ℤ → Parsed (Request C)
  request_from_reader clone_slice background r max_body_len = after_read (read_full 21 r) λ buf r1.
      let path_len = get2 (drop 9 buf) in
      let headers_len = get2 (drop 11 buf) in
      let body_len = int64 (get8 (drop 13 buf)) in
      if gtz body_len max_body_len
      then fails body_too_large
      else after_read (read_full (path_len + headers_len) r1) λ b r2.
        after_read (copy_n body_len r2) λ body r3.
          got
            (record {
              id = get8 buf;
              ctx = background;
              remote_addr = [];
              flags = byte_at buf 8;
              path = take path_len b;
              headers = some (raw_headers (clone_slice (drop path_len b)));
              body = some body;
            })
            r3

  unfoldable pub set_stream : Request C → Bool → Request C
  set_stream r b = record r { flags = set_stream_flag b r.flags }

  unfoldable pub wants_stream : Request C → Bool
  wants_stream r = has_stream_flag r.flags

  -- `Clone`: the buffer that it fills is a variable of the inner block, so the body stays nil.
  unfoldable pub clone_request : (Bytes → Bytes) → Request C → C → Request C
  clone_request clone_slice r ctx = record r {
    id = 0;
    ctx = ctx;
    headers = clone_headers clone_slice r.headers;
    body = none;
  }

  unfoldable pub with_context : Request C → C → Request C
  with_context r ctx = record r { ctx = ctx }

  -- `buf` of `WriteTo`, with the path and the headers behind it.
  unfoldable pub request_head : Request C → Bytes
  request_head r =
      let header_bytes = (encoded_headers r.headers).0 in
      let b0 = set (place8 (replicate 21 0) 0 r.id) 8 r.flags in
      let b1 = place2 (place2 b0 9 (u16 (length r.path))) 11 (u16 (length header_bytes)) in
      let b2 = place8 b1 13 (u64 (length (body_bytes r.body))) in b2 ++ r.path ++ header_bytes

  write_body : Request C → Option Bytes → Written → Request C × Written
  write_body r none w = (r, w)
  write_body r (some b) w =
      let c = copy_after w b (int_of (length b)) in (record r { body = some c.left }, c.written)

  -- `WriteTo`: the request afterwards, and what was written.
  unfoldable pub write_request : WriteAll → Request C → Sink → Request C × Written
  unfolding write_body
  write_request write_all r s =
      write_body (record r { headers = (encoded_headers r.headers).1 }) r.body
        (write_all s (request_head r))
