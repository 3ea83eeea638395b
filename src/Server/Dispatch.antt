-- ===== src/Server/Dispatch.antt =====
-- A whole request on a connection: what one round of the server's loop makes of it.
use jtrpc.Common.{
  ℕ, ◌+◌, ◌<◌, ◌^◌, ◌≡◌, refl, sym, ap, ◌∙◌, true, false, none, some, [], ◌∷◌, ◌++◌, append_assoc,
  Bytes, Bool-cases, inl, inr, length-append, length, drop, arith,
}
use jtrpc.Common.Int.{ℤ, pos, int64_small, gtz}
use jtrpc.Common.Maps.{insert, lookup, nat_key}
use jtrpc.Wire.{u64, get2, get8}
use jtrpc.Wire.RoundTrip.{le8, get2-le2, get8-le8, u64_small}
use jtrpc.Flags.{has_stream_flag, has_stream_msg_flag, status_ok, status_not_found}
use jtrpc.Io.{WriteAll, Clones, copy_n}
use jtrpc.Io.Laws.{copy_n-append}
use jtrpc.Request.{Request, make_request, byte_at}
use jtrpc.Request.RoundTrip.{head_bytes}
use jtrpc.Response.{Response, new_response, write_status}
use jtrpc.Headers.{raw_headers}
use jtrpc.Mux.Chain.{inside, inside_stream, regular_chain_lem, stream_chain_lem}
use jtrpc.Server.{Limits, Handler, MuxOps, Job, runs, opens, Conn, goes_on}
use jtrpc.Server.Requests.{answer_not_stream, route, handle_req, frame}
use jtrpc.Request.Heads.{
  front, lens, length-front, byte_at-front, length-lens, body_len-lens, headers_len-lens,
  head_bytes-front,
}

module _ {C : Type 0} where
  -- The request as it is entered, and the response that its handler gets.
  abbrev pub entry : C → Bytes → ℕ → ℕ → Bytes → Bytes → Bytes → Request C
  entry background addr id flags path headers body = record {
    id = id;
    ctx = background;
    remote_addr = addr;
    flags = flags;
    path = path;
    headers = some (raw_headers headers);
    body = some body;
  }

  abbrev pub fresh : ℕ → ℕ → Request C → Response C
  fresh id flags req = record {
    req_id = id;
    flags = flags;
    status = status_ok;
    headers = some (raw_headers []);
    body = none;
    body_len = 0;
    stream = none;
    request = some req;
  }

  -- The connection with the request and its goroutine, where this is still to come.
  abbrev pub starting : {S : Type 0} → Conn C S → Bytes → Request C → Job C S → Conn C S
  starting c rest req job = record c {
    input = rest;
    reqs = insert req.id req c.reqs;
    jobs = c.jobs ++ job ∷ [];
  }

module _ {C S : Type 0} (write_all : WriteAll) (limits : Limits) (clone_slice : Bytes → Bytes)
    (sprint : ℤ → Bytes) (background : C) (addr : Bytes) (mux : MuxOps (Handler C) S) where
  -- One round on a connection whose input starts with the head of a request.
  frame-head_bytes :
      (c : Conn C S) (id flags bl : ℕ) (path headers tail : Bytes)
      → id < 2 ^ 64
      → length path < 65536
      → length headers < 65536
      → bl < 2 ^ 63
      → has_stream_msg_flag flags ≡ false
      → gtz (pos bl) limits.max_body_len ≡ false
      → frame write_all limits clone_slice sprint background addr mux
          (record c { input = head_bytes id flags path headers bl ++ tail })
        ≡ route write_all limits clone_slice sprint background addr mux
            (record c { input = headers ++ tail })
            id
            flags
            path
            (length headers)
            bl
  unfolding frame handle_req le8
  frame-head_bytes c id flags bl path headers tail hi hp hh hb regular_ small =
      rw
        (
          head_bytes-front id flags bl path headers tail hp hh (omega arith),
          copy_n-append (pos 9) (front id flags)
              (lens (length path) (length headers) bl ++ (path ++ (headers ++ tail)))
              (sym (length-front id flags 0 0 0)),
          byte_at-front id flags 0 0 0,
          regular_,
          copy_n-append (pos 12) (lens (length path) (length headers) bl)
              (path ++ (headers ++ tail)) (sym (length-lens 0 0 (length path) (length headers) bl)),
          body_len-lens 0 0 (length path) (length headers) bl (omega arith),
          get2-le2 (length path) _ hp,
          int64_small bl hb,
          small,
          copy_n-append (pos (length path)) path (headers ++ tail) refl,
        )
        read_fields
    where
      ls : Bytes
      ls = lens (length path) (length headers) bl

      -- The fields are the parts of the two heads.
      read_fields :
          route write_all limits clone_slice sprint background addr mux
            (record c { input = headers ++ tail })
            (get8 (front id flags))
            (byte_at (front id flags) 8)
            path
            (get2 (drop 2 ls))
            (get8 (drop 4 ls))
          ≡ route write_all limits clone_slice sprint background addr mux
              (record c { input = headers ++ tail })
              id
              flags
              path
              (length headers)
              bl
      read_fields =
          ap
            (λ n.
              route write_all limits clone_slice sprint background addr mux
                (record c { input = headers ++ tail }) n (byte_at (front id flags) 8) path
                (get2 (drop 2 ls)) (get8 (drop 4 ls)))
            (get8-le8 id (flags ∷ []) hi)
          ∙ ap
              (λ n.
                route write_all limits clone_slice sprint background addr mux
                  (record c { input = headers ++ tail }) id (byte_at (front id flags) 8) path n
                  (get8 (drop 4 ls)))
              (headers_len-lens 0 0 (length path) (length headers) bl hh)
          ∙ ap
              (λ n.
                route write_all limits clone_slice sprint background addr mux
                  (record c { input = headers ++ tail }) id flags path (length headers) n)
              (body_len-lens 0 0 (length path) (length headers) bl (omega arith))

  -- A whole request in the wire format, without the stream flag, with the path of a regular
  -- handler and a body within the limit and shorter than 2 ^ 63 bytes, each field of which fits:
  -- the round takes exactly its bytes off the connection, enters the request with its id, flags,
  -- path, headers and body in `reqs`, and starts the handler inside the path's, the regular and
  -- the global middleware with a new response of the same id.
  pub frame-starts :
      (c : Conn C S) (id flags : ℕ) (path headers body rest : Bytes) (h : Handler C)
      → Clones clone_slice
      → id < 2 ^ 64
      → length path < 65536
      → length headers < 65536
      → length body < 2 ^ 63
      → has_stream_msg_flag flags ≡ false
      → has_stream_flag flags ≡ false
      → gtz (pos (length body)) limits.max_body_len ≡ false
      → mux.handler_at path ≡ some h
      → let req = entry background addr id flags path headers body in
        frame write_all limits clone_slice sprint background addr mux
          (record c { input = head_bytes id flags path headers (length body) ++ (body ++ rest) })
        ≡ goes_on (starting c rest req (runs (inside mux path h) req (fresh id 0 req)))
  unfolding make_request new_response
  frame-starts c id flags path headers body rest h cl hi hp hh hb regular_ one small there =
      frame-head_bytes c id flags (length body) path headers (body ++ rest) hi hp hh hb regular_
        small
      ∙ rw
          (
            one,
            there,
            copy_n-append (pos (length headers)) headers (body ++ rest) refl,
            int64_small (length body) hb,
            copy_n-append (pos (length body)) body rest refl,
            cl headers,
          )
          refl
      ∙ ap
          (λ k. goes_on (
            starting c rest (entry background addr id flags path headers body) (
              runs k (entry background addr id flags path headers body)
                (fresh id 0 (entry background addr id flags path headers body)))))
          (regular_chain_lem mux path h)

  -- The same with the stream flag and the path of a stream handler: the goroutine runs the
  -- middlewares for streams around a handler that does nothing, and the response has the flags of
  -- the request.
  pub frame-opens :
      (c : Conn C S) (id flags : ℕ) (path headers body rest : Bytes) (s : S)
      → Clones clone_slice
      → id < 2 ^ 64
      → length path < 65536
      → length headers < 65536
      → length body < 2 ^ 63
      → has_stream_msg_flag flags ≡ false
      → has_stream_flag flags ≡ true
      → gtz (pos (length body)) limits.max_body_len ≡ false
      → mux.stream_handler_at path ≡ some s
      → let req = entry background addr id flags path headers body in
        frame write_all limits clone_slice sprint background addr mux
          (record c { input = head_bytes id flags path headers (length body) ++ (body ++ rest) })
        ≡ goes_on (
            starting c rest req
              (opens s (inside_stream mux path (λ q r. (q, r))) req (fresh id flags req)))
  unfolding make_request new_response
  frame-opens c id flags path headers body rest s cl hi hp hh hb regular_ one small there =
      frame-head_bytes c id flags (length body) path headers (body ++ rest) hi hp hh hb regular_
        small
      ∙ rw
          (
            one,
            there,
            copy_n-append (pos (length headers)) headers (body ++ rest) refl,
            int64_small (length body) hb,
            copy_n-append (pos (length body)) body rest refl,
            cl headers,
          )
          refl
      ∙ ap
          (λ k. goes_on (
            starting c rest (entry background addr id flags path headers body) (
              opens s k (entry background addr id flags path headers body)
                (fresh id flags (entry background addr id flags path headers body)))))
          (stream_chain_lem mux path (λ q r. (q, r)))

  -- A whole request in the wire format, with a path that has neither kind of handler, a body
  -- within the limit, headers and body together shorter than 2 ^ 63 bytes, and fields that fit:
  -- the round takes exactly its bytes off the connection, answers with the status NotFound and
  -- the request's id, and starts nothing.
  pub frame-not_found :
      (c : Conn C S) (id flags : ℕ) (path headers body rest : Bytes)
      → id < 2 ^ 64
      → length path < 65536
      → length headers < 65536
      → length headers + length body < 2 ^ 63
      → has_stream_msg_flag flags ≡ false
      → gtz (pos (length body)) limits.max_body_len ≡ false
      → mux.handler_at path ≡ none
      → mux.stream_handler_at path ≡ none
      → frame write_all limits clone_slice sprint background addr mux
          (record c { input = head_bytes id flags path headers (length body) ++ (body ++ rest) })
        ≡ goes_on (record c {
          input = rest;
          sink = (write_status write_all id status_not_found c.sink).sink;
        })
  frame-not_found c id flags path headers body rest hi hp hh hb regular_ small none_there
        no_stream =
      frame-head_bytes c id flags (length body) path headers (body ++ rest) hi hp hh (omega arith)
        regular_ small
      ∙ elim (Bool-cases (has_stream_flag flags)) [
        | inl e ↦ rw (e, no_stream, none_there, whole, int64_small _ hb, skipped) refl
        | inr e ↦ rw (e, none_there, whole, int64_small _ hb, skipped) refl
      ]
    where
      whole : u64 (length headers + length body) ≡ length headers + length body
      whole = u64_small _ (omega arith)

      skipped :
          copy_n (pos (length headers + length body)) (headers ++ (body ++ rest))
          ≡ record { got = headers ++ body; rest = rest; failure = none }
      skipped = rw (sym (append_assoc headers body rest)) (
          copy_n-append (pos (length headers + length body)) (headers ++ body) rest
            (sym (length-append headers body)))

  -- A message for a stream that is not there: the round reads its id and flags, and leaves its
  -- length and its body (`length_and_body`) on the connection, where the next round takes them for
  -- the head of a request or a message.
  pub frame-not_stream :
      (c : Conn C S) (id flags : ℕ) (length_and_body : Bytes)
      → id < 2 ^ 64
      → has_stream_msg_flag flags ≡ true
      → lookup id c.streams ≡ none
      → frame write_all limits clone_slice sprint background addr mux
          (record c { input = front id flags ++ length_and_body })
        ≡ answer_not_stream write_all limits clone_slice sprint background addr mux
            (record c { input = length_and_body })
            id
  unfolding frame le8
  frame-not_stream c id flags length_and_body hi msg_ absent =
      rw
        (
          copy_n-append (pos 9) (front id flags) length_and_body
              (sym (length-front id flags 0 0 0)),
          byte_at-front id flags 0 0 0,
          msg_,
          get8-le8 id (flags ∷ []) hi,
          absent,
        )
        (ap
          (answer_not_stream write_all limits clone_slice sprint background addr mux
            (record c { input = length_and_body }))
          (get8-le8 id (flags ∷ []) hi))
