-- ===== src/Response/RoundTrip.antt =====
-- WriteTo and ReadFrom of a response against the wire format of SPEC.v2.md.
use jtrpc.Common.{
  ℕ, suc, ◌+◌, ◌≤◌, ◌<◌, ◌^◌, ◌≡◌, refl, sym, ◌∙◌, false, Option, none, some, [], ◌∷◌, ◌++◌,
  append-nil, append_assoc, Bytes, length, length-append, drop, take_all, nat_eq, if◌then◌else◌,
  arith,
}
use native.Mathlib.Nat.{add-zero, zero-add}
use jtrpc.Common.Int.{pos, int64_small}
use jtrpc.Wire.{u16, get2, place8, get8}
use jtrpc.Wire.RoundTrip.{le2, le8, get2-le2, get8-le8, u16_small}
use jtrpc.Headers.{raw_headers}
use jtrpc.Io.{Sink, Written, WriteAll, WritesAll, write}
use jtrpc.Io.Laws.{
  read_full-append, copy_n-append, WritesPrefix, Delivers, WritesPrefix-Delivers,
  write-WritesPrefix, copy_after-WritesPrefix,
}
use jtrpc.Request.{byte_at, encoded_headers}
use jtrpc.Response.{
  Counter, counter_bytes, Response, response_head, write_response_body, write_response,
  set_body_reader, read_headers, read_body, read_response,
}

-- <8-byte id> <flags> <status> <2-byte headers length> <8-byte body length>
abbrev pub fixed_bytes : ℕ → ℕ → ℕ → ℕ → ℕ → Bytes
fixed_bytes id flags status hl bl = le8 id ++ flags ∷ status ∷ (le2 hl ++ le8 bl)

abbrev pub response_body : Option Counter → Bytes
response_body none = []
response_body (some c) = counter_bytes c

module _ (id flags status hl bl : ℕ) where
  length-fixed_bytes : length (fixed_bytes id flags status hl bl) ≡ 20
  unfolding le8
  length-fixed_bytes = refl

  get8-id : id < 2 ^ 64 → get8 (fixed_bytes id flags status hl bl) ≡ id
  get8-id h = get8-le8 id _ h

  byte_at-flags : byte_at (fixed_bytes id flags status hl bl) 8 ≡ flags
  unfolding le8
  byte_at-flags = refl

  byte_at-status : byte_at (fixed_bytes id flags status hl bl) 9 ≡ status
  unfolding le8
  byte_at-status = refl

  get2-headers_len : hl < 65536 → get2 (drop 10 (fixed_bytes id flags status hl bl)) ≡ hl
  unfolding le8
  get2-headers_len h = get2-le2 hl _ h

  get8-body_len : bl < 2 ^ 64 → get8 (drop 12 (fixed_bytes id flags status hl bl)) ≡ bl
  unfolding le8
  get8-body_len h = get8-le8 bl [] h

pub read_headers_lem :
    (headers rest : Bytes)
    → read_headers (length headers) (headers ++ rest)
      ≡ record { got = headers; rest = rest; failure = none }
unfolding read_headers
read_headers_lem [] rest = refl
read_headers_lem (x ∷ headers) rest =
    ground (arith, read_full-append (length (x ∷ headers)) (x ∷ headers) rest refl)

pub suc_ne_zero : (n : ℕ) → nat_eq (suc n) 0 ≡ false
suc_ne_zero n = ground arith

module _ {C : Type 0} where
  pub response_head_lem :
      (r : Response C)
      → response_head r
        ≡ fixed_bytes r.req_id r.flags r.status
            (u16 (length (encoded_headers r.headers).0))
            r.body_len
          ++ (encoded_headers r.headers).0
  unfolding response_head place8 le8
  response_head_lem r = refl

  -- The stated body length is what the body reader gives.
  abbrev pub IsSized : Response C → Type 0
  IsSized r = (r.body_len ≡ length (response_body r.body)) × (r.body_len < 2 ^ 63)

  pub write_response-WritesPrefix :
      (write_all : WriteAll) (r : Response C) (s : Sink)
      → WritesAll write_all
      → IsSized r
      → WritesPrefix s (response_head r ++ response_body r.body) (write_response write_all r s).1
  unfolding write_response
  write_response-WritesPrefix write_all r s total sized =
      rw (total s (response_head r)) (behind (response_head r) r.body sized.0)
    where
      sent : Response C
      sent = record r { headers = (encoded_headers r.headers).1 }

      behind :
          (head : Bytes) (body : Option Counter)
          → r.body_len ≡ length (response_body body)
          → WritesPrefix s
              (head ++ response_body body)
              (write_response_body sent body (write s head)).1
      behind head none e = rw append-nil (write-WritesPrefix s head)
      behind head (some c) e =
          rw (int64_small r.body_len sized.1, e)
            (copy_after-WritesPrefix s head (counter_bytes c) _ (write-WritesPrefix s head))

  -- `WriteTo` of a response whose body reader gives as many bytes as stated (fewer than 2 ^ 63)
  -- writes the head and the body, and returns no error and their length; or it returns an error, the
  -- writer has no room for them, and it took the first bytes, as many as are returned and not all.
  pub write_response-Delivers :
      (write_all : WriteAll) (r : Response C) (s : Sink)
      → WritesAll write_all
      → IsSized r
      → Delivers s (response_head r ++ response_body r.body) (write_response write_all r s).1
  write_response-Delivers write_all r s total sized =
      WritesPrefix-Delivers (write_response-WritesPrefix write_all r s total sized)

  -- The response that `ReadFrom` leaves: a body of length 0 is no body.
  abbrev pub received_body : Response C → Bytes → Response C
  received_body r body = if nat_eq (length body) 0 then r else set_body_reader r body (length body)

  read_body_lem :
      (r : Response C) (body rest : Bytes) (n : ℕ)
      → length body < 2 ^ 63
      → read_body r (length body) (body ++ rest) n
        ≡ record { resp = received_body r body; rest = rest; n = n + length body; failure = none }
  unfolding read_body
  read_body_lem r [] rest n h = rw add-zero refl
  read_body_lem r (x ∷ body) rest n h =
      rw
        (
          int64_small (length (x ∷ body)) h,
          copy_n-append (pos (length (x ∷ body))) (x ∷ body) rest refl,
          suc_ne_zero (length body),
        )
        refl

  -- `ReadFrom` on the wire format of a response fills in its fields and counts its bytes, if the id
  -- and the headers' length fit into their fields and the body is shorter than 2 ^ 63 bytes.
  pub read_response-bytes :
      (r : Response C) (id flags status : ℕ) (headers body rest : Bytes)
      → id < 2 ^ 64
      → length headers < 65536
      → length body < 2 ^ 63
      → read_response r (
          (fixed_bytes id flags status (length headers) (length body) ++ headers) ++ (body ++ rest))
        ≡ record {
          resp =
              received_body
                (record r {
                  req_id = id;
                  flags = flags;
                  status = status;
                  headers = some (raw_headers headers);
                })
                body;
          rest = rest;
          n = 20 + length headers + length body;
          failure = none;
        }
  unfolding read_response
  read_response-bytes r id flags status headers body rest hi hh hb =
      let hl = length headers in
      let bl = length body in
      rw
        (
          append_assoc (fixed_bytes id flags status hl bl),
          read_full-append 20 (fixed_bytes id flags status hl bl) (headers ++ (body ++ rest))
              (sym (length-fixed_bytes id flags status hl bl)),
          get8-id id flags status hl bl hi,
          byte_at-flags id flags status hl bl,
          byte_at-status id flags status hl bl,
          get2-headers_len id flags status hl bl hh,
          get8-body_len id flags status hl bl (omega arith),
          length-fixed_bytes id flags status hl bl,
          read_headers_lem headers (body ++ rest),
          read_body_lem _ body rest _ hb,
          zero-add,
        )
        refl

  -- `ReadFrom` reads back the response that `WriteTo` wrote to a writer with room for it, and leaves
  -- what follows: id, flags, status, header bytes and body are those that were written. The body
  -- reader must give as many bytes as stated, fewer than 2 ^ 63, and the id and the header bytes
  -- must fit into their fields.
  pub read_response-write_response :
      (write_all : WriteAll) (r into : Response C) (room : ℕ) (rest : Bytes)
      → WritesAll write_all
      → IsSized r
      → r.req_id < 2 ^ 64
      → length (encoded_headers r.headers).0 < 65536
      → length (response_head r ++ response_body r.body) ≤ room
      → read_response into
          ((write_response write_all r (record { out = []; room = room })).1.sink.out ++ rest)
        ≡ record {
          resp =
              received_body
                (record into {
                  req_id = r.req_id;
                  flags = r.flags;
                  status = r.status;
                  headers = some (raw_headers (encoded_headers r.headers).0);
                })
                (response_body r.body);
          rest = rest;
          n = length (response_head r ++ response_body r.body);
          failure = none;
        }
  read_response-write_response write_all r into room rest wa sized hi hh fits =
      rw (written, head, append_assoc _ body rest, sizes)
        (read_response-bytes into r.req_id r.flags r.status headers body rest hi hh
          (omega (arith, sized.0, sized.1)))
    where
      s : Sink
      s = record { out = []; room = room }

      w : Written
      w = (write_response write_all r s).1

      prefix : WritesPrefix s (response_head r ++ response_body r.body) w
      prefix = write_response-WritesPrefix write_all r s wa sized

      headers : Bytes
      headers = (encoded_headers r.headers).0

      body : Bytes
      body = response_body r.body

      head :
          response_head r
          ≡ fixed_bytes r.req_id r.flags r.status (length headers) (length body) ++ headers
      head = response_head_lem r ∙ rw (sized.0, u16_small (length headers) hh) refl

      sizes :
          length (
            (fixed_bytes r.req_id r.flags r.status (length headers) (length body) ++ headers)
            ++ body)
          ≡ 20 + length headers + length body
      sizes = omega (
        arith,
        length-fixed_bytes r.req_id r.flags r.status (length headers) (length body),
        length-append
            (fixed_bytes r.req_id r.flags r.status (length headers) (length body) ++ headers) body,
        length-append (fixed_bytes r.req_id r.flags r.status (length headers) (length body))
            headers,
      )

      written : w.sink.out ≡ response_head r ++ body
      written = prefix.prefix ∙ take_all w.n _ (omega (arith, prefix.whole (prefix.fits fits)))
