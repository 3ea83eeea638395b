-- ===== src/Client/Dispatch.antt =====
-- A whole response on the client's connection: what one round of its loop makes of it.
use jtrpc.Common.{
  ℕ, ◌<◌, ◌^◌, ◌≡◌, refl, sym, ap, ◌∙◌, true, false, none, some, [], ◌∷◌, ◌++◌, Bytes, length, drop,
  Bool-cases, inl, inr, nat_eq, arith,
}
use jtrpc.Common.Int.{pos, int64_small}
use jtrpc.Common.Maps.{lookup, insert, nat_key}
use jtrpc.Wire.{get2, get8}
use jtrpc.Wire.RoundTrip.{le2, le8, get2-le2, get8-le8}
use jtrpc.Flags.{has_stream_flag, has_stream_msg_flag, status_ok}
use jtrpc.Io.{WriteAll}
use jtrpc.Io.Laws.{read_full-append, copy_n-append}
use jtrpc.Headers.{raw_headers}
use jtrpc.Response.{Response, new_response, set_body_reader}
use jtrpc.Response.RoundTrip.{fixed_bytes, read_headers_lem, received_body, suc_ne_zero}
use jtrpc.Request.Heads.{front, length-front, byte_at-front}
use jtrpc.Request.{Request}
use jtrpc.Client.{
  Client, continues, RespChan, new_resp_chan, send_resp, write_next, enter, send_request,
}
use jtrpc.Client.Receive.{deliver, delivered, read_resp_body, handle_resp, round}

-- The status and the two lengths.
abbrev tail_of : ℕ → ℕ → ℕ → Bytes
tail_of status hl bl = status ∷ (le2 hl ++ le8 bl)

module _ (status hl bl : ℕ) where
  length-tail_of : length (tail_of status hl bl) ≡ 11
  unfolding le8
  length-tail_of = refl

  headers_len-tail_of : hl < 65536 → get2 (drop 1 (tail_of status hl bl)) ≡ hl
  headers_len-tail_of h = get2-le2 hl _ h

  body_len-tail_of : bl < 2 ^ 64 → get8 (drop 3 (tail_of status hl bl)) ≡ bl
  unfolding le8
  body_len-tail_of h = get8-le8 bl [] h

fixed_bytes-front :
    (id flags status hl bl : ℕ) (rest : Bytes)
    → fixed_bytes id flags status hl bl ++ rest ≡ front id flags ++ (tail_of status hl bl ++ rest)
unfolding le8
fixed_bytes-front id flags status hl bl rest = refl

module _ {C : Type 0} where
  -- The response of a request, as the client builds it.
  abbrev pub response_to : RespChan C → ℕ → ℕ → Bytes → Bytes → Response C
  response_to rc flags status headers body =
      received_body
        (record (new_response rc.req.id flags (some rc.req)) {
          status = status;
          headers = some (raw_headers headers);
        })
        body

  read_resp_body_lem :
      (c : Client C) (id : ℕ) (rc : RespChan C) (resp : Response C) (body rest : Bytes)
      → length body < 2 ^ 63
      → read_resp_body (record c { input = body ++ rest }) id rc resp (length body)
        ≡ deliver (record c { input = rest }) id rc (received_body resp body)
  unfolding read_resp_body
  read_resp_body_lem c id rc resp [] rest h = refl
  read_resp_body_lem c id rc resp (x ∷ body) rest h =
      rw
        (
          suc_ne_zero (length body),
          int64_small (length (x ∷ body)) h,
          copy_n-append (pos (length (x ∷ body))) (x ∷ body) rest refl,
        )
        refl

  handle_resp_lem :
      (c : Client C) (id : ℕ) (rc : RespChan C) (flags status : ℕ) (headers body rest : Bytes)
      → length headers < 65536
      → length body < 2 ^ 63
      → handle_resp
          (record c {
            input = tail_of status (length headers) (length body) ++ (headers ++ (body ++ rest));
          })
          id
          rc
          flags
        ≡ deliver (record c { input = rest }) id rc (response_to rc flags status headers body)
  unfolding handle_resp
  handle_resp_lem c id rc flags status headers body rest hh hb =
      rw
        (
          read_full-append 11 (tail_of status (length headers) (length body))
              (headers ++ (body ++ rest))
              (sym (length-tail_of status (length headers) (length body))),
          headers_len-tail_of status (length headers) (length body) hh,
          read_headers_lem headers (body ++ rest),
          body_len-tail_of status (length headers) (length body) (omega arith),
        )
        (read_resp_body_lem c id rc _ body rest hb)

  -- A whole response in the wire format, with the id of a channel of `reqs`, a body shorter than
  -- 2 ^ 63 bytes and fields that fit: the round takes exactly
  -- its bytes off the connection and delivers to that channel a response with its status, flags,
  -- headers and body, for the channel's request.
  pub round-delivers :
      (write_all : WriteAll) (c : Client C) (rc : RespChan C) (id flags status : ℕ)
      (headers body rest : Bytes)
      → id < 2 ^ 64
      → length headers < 65536
      → length body < 2 ^ 63
      → has_stream_msg_flag flags ≡ false
      → lookup id c.reqs ≡ some rc
      → round write_all (record c {
        input =
            fixed_bytes id flags status (length headers) (length body)
            ++ (headers ++ (body ++ rest));
      })
        ≡ deliver (record c { input = rest }) id rc (response_to rc flags status headers body)
  unfolding round le8
  round-delivers write_all c rc id flags status headers body rest hi hh hb resp_ there =
      let more = tail_of status (length headers) (length body) ++ (headers ++ (body ++ rest)) in
      rw
        (
          fixed_bytes-front id flags status (length headers) (length body)
              (headers ++ (body ++ rest)),
          read_full-append 9 (front id flags) more (sym (length-front id flags 0 0 0)),
          byte_at-front id flags 0 0 0,
          resp_,
          get8-le8 id (flags ∷ []) hi,
          there,
        )
        (ap (λ n. handle_resp (record c { input = more }) n rc flags) (get8-le8 id (flags ∷ []) hi)
          ∙ handle_resp_lem c id rc flags status headers body rest hh hb)

  -- The end of `handleResp` without a stream, to a channel that has nothing yet.
  deliver_first :
      (c : Client C) (id : ℕ) (rc : RespChan C) (resp : Response C)
      → has_stream_flag resp.flags ≡ false
      → rc.marked ≡ false
      → rc.ch_closed ≡ false
      → rc.ch ≡ none
      → deliver c id rc resp
        ≡ continues (record c { reqs = insert id (record rc { ch = some resp }) c.reqs })
  unfolding deliver delivered send_resp
  deliver_first c id rc resp one m o e = elim (Bool-cases (nat_eq resp.status status_ok)) [
    | inl ok ↦ simp (deliver, delivered, send_resp, ok, one, m, o, e)
    | inr other ↦ simp (deliver, delivered, send_resp, other, m, o, e)
  ]

  flags-received_body :
      (resp : Response C) (body : Bytes) → (received_body resp body).flags ≡ resp.flags
  unfolding set_body_reader
  flags-received_body resp [] = refl
  flags-received_body resp (x ∷ body) = rw (suc_ne_zero (length body)) refl

  -- The same to a channel that has no response and was not closed: afterwards it has that one. The
  -- response must not have the flag of a stream.
  pub round-answers :
      (write_all : WriteAll) (c : Client C) (rc : RespChan C) (id flags status : ℕ)
      (headers body rest : Bytes)
      → id < 2 ^ 64
      → length headers < 65536
      → length body < 2 ^ 63
      → has_stream_msg_flag flags ≡ false
      → has_stream_flag flags ≡ false
      → rc.marked ≡ false
      → rc.ch_closed ≡ false
      → rc.ch ≡ none
      → lookup id c.reqs ≡ some rc
      → round write_all (record c {
        input =
            fixed_bytes id flags status (length headers) (length body)
            ++ (headers ++ (body ++ rest));
      })
        ≡ continues (record c {
          input = rest;
          reqs =
              insert id (record rc { ch = some (response_to rc flags status headers body) }) c.reqs;
        })
  unfolding new_response
  round-answers write_all c rc id flags status headers body rest hi hh hb resp_ one m o e there =
      round-delivers write_all c rc id flags status headers body rest hi hh hb resp_ there
      ∙ deliver_first (record c { input = rest }) id rc (response_to rc flags status headers body)
          (ap has_stream_flag (flags-received_body _ body) ∙ one) m o e

  -- A response whose id is not in `reqs`: the round reads its id and flags and goes on, and leaves
  -- the rest of the response on the connection, where the next round takes it for a head.
  pub round-unknown :
      (write_all : WriteAll) (c : Client C) (id flags : ℕ) (rest : Bytes)
      → id < 2 ^ 64
      → has_stream_msg_flag flags ≡ false
      → lookup id c.reqs ≡ none
      → round write_all (record c { input = front id flags ++ rest })
        ≡ continues (record c { input = rest })
  unfolding round le8
  round-unknown write_all c id flags rest hi resp_ absent =
      rw
        (
          read_full-append 9 (front id flags) rest (sym (length-front id flags 0 0 0)),
          byte_at-front id flags 0 0 0,
          resp_,
          get8-le8 id (flags ∷ []) hi,
          absent,
        )
        refl

  pub send_request_closed :
      (write_all : WriteAll) (c : Client C) (req : Request C)
      → c.closed ≡ true
      → send_request write_all c req ≡ (c, none)
  unfolding send_request
  send_request_closed write_all c req h = simp (send_request, h)

  pub send_request_open :
      (write_all : WriteAll) (c : Client C) (req : Request C)
      → c.closed ≡ false
      → let (c1, req') = write_next write_all c req in
        send_request write_all c req ≡ (enter c1 req', some (new_resp_chan req'))
  unfolding send_request
  send_request_open write_all c req h = simp (send_request, h)
