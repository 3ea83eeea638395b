-- ===== src/Request/RoundTrip.antt =====
-- WriteTo against the wire format of SPEC.v2.md, and RequestFromReader against WriteTo.
use jtrpc.Common.{
  Option-cases, inl, inr, ℕ, ◌+◌, ◌-◌, ◌≤◌, ◌<◌, ◌^◌, ◌≡◌, refl, sym, ◌∙◌, false, Option, none,
  some, [], ◌∷◌, ◌++◌, append-nil, append_assoc, Bytes, length, length-append, take-append,
  drop-append, take_all, drop, if◌then◌else◌, arith,
}
use jtrpc.Common.Int.{ℤ, pos, negsuc, int64, int64_small, int64_large, gtz}
use jtrpc.Wire.{u16, u64, get2, place8, get8}
use jtrpc.Wire.RoundTrip.{le2, le8, get2-le2, get8-le8, u16_small, u64_small}
use jtrpc.Headers.{raw_headers}
use jtrpc.Io.{body_too_large, Sink, Written, WriteAll, WritesAll, Clones, write, copy_n}
use jtrpc.Io.Laws.{
  read_full-append, copy_n-append, WritesPrefix, Delivers, WritesPrefix-Delivers,
  write-WritesPrefix, copy_after-WritesPrefix,
}
use jtrpc.Request.{
  Request, got, fails, after_read, body_bytes, byte_at, encoded_headers, request_head, write_body,
  write_request, request_from_reader,
}

-- <8-byte id> <flags> <2-byte path length> <2-byte headers length> <8-byte body length>
abbrev pub fixed_bytes : ℕ → ℕ → ℕ → ℕ → ℕ → Bytes
fixed_bytes id flags pl hl bl = le8 id ++ flags ∷ (le2 pl ++ (le2 hl ++ le8 bl))

module _ (id flags pl hl bl : ℕ) where
  length-fixed_bytes : length (fixed_bytes id flags pl hl bl) ≡ 21
  unfolding le8
  length-fixed_bytes = refl

  get8-fixed_bytes : id < 2 ^ 64 → get8 (fixed_bytes id flags pl hl bl) ≡ id
  get8-fixed_bytes h = get8-le8 id _ h

  byte_at-fixed_bytes : byte_at (fixed_bytes id flags pl hl bl) 8 ≡ flags
  unfolding le8
  byte_at-fixed_bytes = refl

  get2-path_len : pl < 65536 → get2 (drop 9 (fixed_bytes id flags pl hl bl)) ≡ pl
  unfolding le8
  get2-path_len h = get2-le2 pl _ h

  get2-headers_len : hl < 65536 → get2 (drop 11 (fixed_bytes id flags pl hl bl)) ≡ hl
  unfolding le8
  get2-headers_len h = get2-le2 hl _ h

  get8-body_len : bl < 2 ^ 64 → get8 (drop 13 (fixed_bytes id flags pl hl bl)) ≡ bl
  unfolding le8
  get8-body_len h = get8-le8 bl [] h

-- The fixed part, the path and the headers.
abbrev pub head_bytes : ℕ → ℕ → Bytes → Bytes → ℕ → Bytes
head_bytes id flags path headers body_len =
    fixed_bytes id flags (u16 (length path)) (u16 (length headers)) (u64 body_len)
    ++ (path ++ headers)

module _ {C : Type 0} where
  pub request_head_lem :
      (r : Request C)
      → request_head r
        ≡ head_bytes r.id r.flags r.path (encoded_headers r.headers).0 (length (body_bytes r.body))
  unfolding request_head place8 le8
  request_head_lem r = refl

  -- The request that `RequestFromReader` builds.
  abbrev pub received : C → ℕ → ℕ → Bytes → Bytes → Bytes → Request C
  received background id flags path headers body = record {
    id = id;
    ctx = background;
    remote_addr = [];
    flags = flags;
    path = path;
    headers = some (raw_headers headers);
    body = some body;
  }

  -- `RequestFromReader` on a whole head: it refuses a body length above the limit before it reads
  -- further, and otherwise takes the body from what follows. The id, the lengths of the path and the
  -- headers and the body length must fit into their fields.
  pub request_from_reader-head_bytes :
      (clone_slice : Bytes → Bytes) (background : C) (max : ℤ) (id flags bl : ℕ)
      (path headers tail : Bytes)
      → Clones clone_slice
      → id < 2 ^ 64
      → length path < 65536
      → length headers < 65536
      → bl < 2 ^ 64
      → request_from_reader clone_slice background (head_bytes id flags path headers bl ++ tail) max
        ≡ (if gtz (int64 bl) max
            then fails body_too_large
            else after_read
                (copy_n (int64 bl) tail)
                (λ body r. got (received background id flags path headers body) r))
  unfolding request_from_reader
  request_from_reader-head_bytes clone_slice background max id flags bl path headers tail cl hi hp
        hh hb =
      let pl = length path in
      let hl = length headers in
      rw
        (
          u16_small pl hp,
          u16_small hl hh,
          u64_small bl hb,
          append_assoc (fixed_bytes id flags pl hl bl),
          read_full-append 21 (fixed_bytes id flags pl hl bl) ((path ++ headers) ++ tail)
              (sym (length-fixed_bytes id flags pl hl bl)),
          get8-body_len id flags pl hl bl hb,
          get2-path_len id flags pl hl bl hp,
          get2-headers_len id flags pl hl bl hh,
          read_full-append (pl + hl) (path ++ headers) tail (sym (length-append path headers)),
          get8-fixed_bytes id flags pl hl bl hi,
          byte_at-fixed_bytes id flags pl hl bl,
          take-append path headers,
          drop-append path headers,
          cl headers,
        )
        refl

  pub write_request-WritesPrefix :
      (write_all : WriteAll) (r : Request C) (s : Sink)
      → WritesAll write_all
      → WritesPrefix s (request_head r ++ body_bytes r.body) (write_request write_all r s).1
  unfolding write_request
  write_request-WritesPrefix write_all r s total = rw (total s (request_head r)) (behind r.body)
    where
      behind :
          (body : Option Bytes)
          → WritesPrefix s
              (request_head r ++ body_bytes body)
              (write_body
                (record r { headers = (encoded_headers r.headers).1 })
                body
                (write s (request_head r))).1
      behind none = rw append-nil (write-WritesPrefix s (request_head r))
      behind (some b) =
          copy_after-WritesPrefix s (request_head r) b _ (write-WritesPrefix s (request_head r))

  pub id-write_request :
      (write_all : WriteAll) (req : Request C) (s : Sink)
      → (write_request write_all req s).0.id ≡ req.id
  unfolding write_request
  id-write_request write_all req s = elim (Option-cases req.body) [
    | inl e ↦ simp (write_request, e)
    | inr (b, e) ↦ simp (write_request, e)
  ]

  -- `WriteTo` writes the head and the body, and returns no error and their length; or it returns an
  -- error, the writer has no room for them, and it took the first bytes, as many as are returned and
  -- not all.
  pub write_request-Delivers :
      (write_all : WriteAll) (r : Request C) (s : Sink)
      → WritesAll write_all
      → Delivers s (request_head r ++ body_bytes r.body) (write_request write_all r s).1
  write_request-Delivers write_all r s total =
      WritesPrefix-Delivers (write_request-WritesPrefix write_all r s total)

  -- `RequestFromReader` reads back what `WriteTo` wrote, from a writer with room for it, and leaves
  -- what follows on the connection. The id, the path and the header bytes must fit into their
  -- fields, which `Encode` does not make sure of for the headers, the body must be shorter than
  -- 2 ^ 63 bytes, and the reader must admit its length.
  pub request_from_reader-write_request :
      (write_all : WriteAll) (clone_slice : Bytes → Bytes) (background : C) (r : Request C)
      (max : ℤ) (room : ℕ) (rest : Bytes)
      → WritesAll write_all
      → Clones clone_slice
      → r.id < 2 ^ 64
      → length r.path < 65536
      → length (encoded_headers r.headers).0 < 65536
      → length (body_bytes r.body) < 2 ^ 63
      → gtz (pos (length (body_bytes r.body))) max ≡ false
      → length (request_head r ++ body_bytes r.body) ≤ room
      → request_from_reader clone_slice background
          ((write_request write_all r (record { out = []; room = room })).1.sink.out ++ rest)
          max
        ≡ got
            (received background r.id r.flags r.path
              (encoded_headers r.headers).0
              (body_bytes r.body))
            rest
  request_from_reader-write_request write_all clone_slice background r max room rest wa cl hi hp hh
        hb small fits =
      let body = body_bytes r.body in
      rw (written, append_assoc, request_head_lem r)
        (request_from_reader-head_bytes clone_slice background max r.id r.flags (length body) r.path
            (encoded_headers r.headers).0 (body ++ rest) cl hi hp hh (omega arith)
          ∙ rw
              (
                int64_small (length body) hb,
                small,
                copy_n-append (pos (length body)) body rest refl,
              )
              refl)
    where
      s : Sink
      s = record { out = []; room = room }

      w : Written
      w = (write_request write_all r s).1

      prefix : WritesPrefix s (request_head r ++ body_bytes r.body) w
      prefix = write_request-WritesPrefix write_all r s wa

      written : w.sink.out ≡ request_head r ++ body_bytes r.body
      written = prefix.prefix ∙ take_all w.n _ (omega (arith, prefix.whole (prefix.fits fits)))

  -- A body length of 2 ^ 63 or more is negative as an `int64`: it passes the check against
  -- `maxBodyLen` for every limit that is not negative, and the request is returned with an empty
  -- body. The other fields must fit, as before.
  pub read_negative_length :
      (clone_slice : Bytes → Bytes) (background : C) (max : ℕ) (id flags bl : ℕ)
      (path headers rest : Bytes)
      → Clones clone_slice
      → id < 2 ^ 64
      → length path < 65536
      → length headers < 65536
      → 2 ^ 63 ≤ bl
      → bl < 2 ^ 64
      → request_from_reader clone_slice background
          (head_bytes id flags path headers bl ++ rest)
          (pos max)
        ≡ got (received background id flags path headers []) rest
  read_negative_length clone_slice background max id flags bl path headers rest cl hi hp hh lo hb =
      request_from_reader-head_bytes clone_slice background (pos max) id flags bl path headers rest
        cl hi hp hh hb
      ∙ rw (int64_large bl lo, copy_n-append (negsuc (2 ^ 64 - 1 - bl)) [] rest refl) refl
