-- ===== src/Server/WsStreams.antt =====
-- go/server.go, wsStreamHandler: what the peer at the other end of the websocket gets.
use jtrpc.Common.{
  ℕ, ◌≤◌, ◌<◌, ◌^◌, ◌≡◌, refl, ap, ◌∙◌, false, true, none, some, [], ◌++◌, append_assoc, Bytes,
  length, nat_eq, if◌then◌else◌, arith,
}
use jtrpc.Common.Int.{ℤ, pos, gtz, int64_small}
use jtrpc.Wire.{place8}
use jtrpc.Flags.{status_ok, status_body_too_large}
use jtrpc.Headers.{raw_headers}
use jtrpc.Io.{body_too_large, Sink, WriteAll, WritesAll, Clones}
use jtrpc.Io.Laws.{WritesPrefix-whole}
use jtrpc.Request.{
  Request, fails, got, body_bytes, encoded_headers, request_head, write_request,
  request_from_reader,
}
use jtrpc.Request.RoundTrip.{
  received, request_head_lem, write_request-WritesPrefix, request_from_reader-head_bytes,
  request_from_reader-write_request,
}
use jtrpc.Response.{
  Response, Received, empty_response, set_body, set_body_reader, from_reader, new_response,
  response_head, write_response, read_response,
}
use jtrpc.Response.RoundTrip.{
  response_body, IsSized, received_body, write_response-WritesPrefix, read_response-write_response,
}
use jtrpc.Server.{Handler, noop_handler, MuxOps}
use jtrpc.Server.Requests.{stream_chain}
use jtrpc.Server.Http.{refuse, open_stream, ws_stream_handler}
use jtrpc.Proxy.Paths.{codes}

abbrev pub empty_sink : ℕ → Sink
empty_sink room = record { out = []; room = room }

module _ {C : Type 0} where
  -- The request that the server makes of what it reads.
  abbrev pub read_back : C → Request C → Request C
  read_back background r =
      received background r.id r.flags r.path (encoded_headers r.headers).0 (body_bytes r.body)

  -- The bytes that the peer sends.
  abbrev pub sent_by : WriteAll → Request C → ℕ → Bytes
  sent_by write_all r room = (write_request write_all r (empty_sink room)).1.sink.out

  -- What `ReadFrom` leaves of a response that was written, with what follows.
  abbrev pub read_of : Response C → Response C → Bytes → Received C
  read_of into resp more = record {
    resp =
        received_body
          (record into {
            req_id = resp.req_id;
            flags = resp.flags;
            status = resp.status;
            headers = some (raw_headers (encoded_headers resp.headers).0);
          })
          (response_body resp.body);
    rest = more;
    n = length (response_head resp ++ response_body resp.body);
    failure = none;
  }

module _ (C : Type 0) where
  abbrev pub too_large_answer : Response C
  too_large_answer =
      set_body (record empty_response { status = status_body_too_large }) (codes "body too large")

  too_large_answer-IsSized : IsSized too_large_answer
  unfolding set_body set_body_reader from_reader
  too_large_answer-IsSized = (refl, omega arith)

  too_large_answer_fits :
      length (response_head too_large_answer ++ response_body too_large_answer.body) ≤ 100
  unfolding set_body set_body_reader from_reader response_head place8
  too_large_answer_fits = omega arith

  too_large_answer_headers : length (encoded_headers too_large_answer.headers).0 < 65536
  unfolding set_body set_body_reader from_reader
  too_large_answer_headers = omega arith

  too_large_answer_small : too_large_answer.req_id < 2 ^ 64
  unfolding set_body set_body_reader from_reader
  too_large_answer_small = omega arith

  too_large_answer_id : (into : Response C) → (read_of into too_large_answer []).resp.req_id ≡ 0
  unfolding set_body set_body_reader from_reader
  too_large_answer_id into = refl

module _ {C S : Type 0} (background : C) (mux : MuxOps (Handler C) S) (path : Bytes) where
  -- What the middlewares make of it and of the response.
  abbrev pub chained : Request C → Request C × Response C
  chained r =
      stream_chain mux path noop_handler (read_back background r)
        (new_response r.id r.flags (some (read_back background r)))

module _ {C S : Type 0} (write_all : WriteAll) (total : WritesAll write_all)
    (clone_slice : Bytes → Bytes) (background : C) (mux : MuxOps (Handler C) S) (max : ℤ)
    (path : Bytes) where
  open_stream_fits :
      (req : Request C) (resp : Response C) (room : ℕ)
      → IsSized resp
      → length (response_head resp ++ response_body resp.body) ≤ room
      → open_stream write_all (req, resp) (empty_sink room) ≡ (
        (write_response write_all resp (empty_sink room)).1.sink,
        if nat_eq resp.status status_ok then some req else none,
      )
  unfolding open_stream
  open_stream_fits req resp room sized fits = simp (
    open_stream,
    (write_response-WritesPrefix write_all resp (empty_sink room) total sized).fits fits,
  )

  ws_stream_handler_got :
      (r : Request C) (input rest : Bytes) (room : ℕ)
      → request_from_reader clone_slice background input max ≡ got (read_back background r) rest
      → ws_stream_handler write_all clone_slice background mux max path input (empty_sink room)
        ≡ open_stream write_all (chained background mux path r) (empty_sink room)
  unfolding ws_stream_handler
  ws_stream_handler_got r input rest room reads = simp (ws_stream_handler, reads)

  ws_stream_handler_fails :
      (input : Bytes) (room : ℕ)
      → request_from_reader clone_slice background input max ≡ fails body_too_large
      → ws_stream_handler write_all clone_slice background mux max path input (empty_sink room)
        ≡ (refuse C write_all body_too_large (empty_sink room), none)
  unfolding ws_stream_handler
  ws_stream_handler_fails input room reads = simp (ws_stream_handler, reads)

  -- `wsStreamHandler` on a request that the peer wrote to the websocket, with fields that fit and a
  -- body that the server admits, over connections with room. The request that the peer wrote, as
  -- the server reads it, goes through the stream's middlewares around the handler that does
  -- nothing. The peer reads the response that they leave, whatever its status, in front of
  -- whatever the stream writes afterwards; and the stream handler is started exactly if that status
  -- is OK, with the request that they leave. The response's body must be as long as stated, and
  -- its id and headers must fit.
  pub ws_stream_handler-opens :
      (r : Request C) (into : Response C) (room room' : ℕ) (rest more : Bytes)
      → let (served, resp) = chained background mux path r in
        Clones clone_slice
        → r.id < 2 ^ 64
        → length r.path < 65536
        → length (encoded_headers r.headers).0 < 65536
        → length (body_bytes r.body) < 2 ^ 63
        → gtz (pos (length (body_bytes r.body))) max ≡ false
        → length (request_head r ++ body_bytes r.body) ≤ room
        → IsSized resp
        → resp.req_id < 2 ^ 64
        → length (encoded_headers resp.headers).0 < 65536
        → length (response_head resp ++ response_body resp.body) ≤ room'
        → let opened =
            ws_stream_handler write_all clone_slice background mux max path
              (sent_by write_all r room ++ rest)
              (empty_sink room') in
          (opened.1 ≡ (if nat_eq resp.status status_ok then some served else none))
          × (read_response into (opened.0.out ++ more) ≡ read_of into resp more)
  ws_stream_handler-opens r into room room' rest more cl hi hp hh hb small fits sized hi' hh'
        fits' =
      let (served, resp) = chained background mux path r in
      let opened =
        ws_stream_handler_got r (sent_by write_all r room ++ rest) rest room' (
          request_from_reader-write_request write_all clone_slice background r max room rest total
            cl hi hp hh hb small fits)
        ∙ open_stream_fits served resp room' sized fits' in
      (
        ap (λ o. o.1) opened,
        ap (λ o. read_response into (o.0.out ++ more)) opened
            ∙ read_response-write_response write_all resp into room' more total sized hi' hh' fits',
      )

  too_large_answer_read :
      (into : Response C) (room : ℕ) (more : Bytes)
      → 100 ≤ room
      → read_response into ((refuse C write_all body_too_large (empty_sink room)).out ++ more)
        ≡ read_of into (too_large_answer C) more
  unfolding refuse
  too_large_answer_read into room more h =
      read_response-write_response write_all (too_large_answer C) into room more total
        (too_large_answer-IsSized C) (too_large_answer_small C) (too_large_answer_headers C)
        (omega (arith, too_large_answer_fits C))

  request_from_reader-too_large :
      (r : Request C) (room : ℕ) (rest : Bytes)
      → Clones clone_slice
      → r.id < 2 ^ 64
      → length r.path < 65536
      → length (encoded_headers r.headers).0 < 65536
      → length (body_bytes r.body) < 2 ^ 63
      → gtz (pos (length (body_bytes r.body))) max ≡ true
      → length (request_head r ++ body_bytes r.body) ≤ room
      → request_from_reader clone_slice background (sent_by write_all r room ++ rest) max
        ≡ fails body_too_large
  request_from_reader-too_large r room rest cl hi hp hh hb large fits =
      rw
        (
          WritesPrefix-whole (write_request-WritesPrefix write_all r (empty_sink room) total) refl
              fits,
          append_assoc,
          request_head_lem r,
        )
        (request_from_reader-head_bytes clone_slice background max r.id r.flags
            (length (body_bytes r.body)) r.path (encoded_headers r.headers).0
            (body_bytes r.body ++ rest) cl hi hp hh (omega arith)
          ∙ rw (int64_small (length (body_bytes r.body)) hb, large) refl)

  -- `wsStreamHandler` on a request that the peer wrote, with fields that fit and a body that the
  -- server does not admit, whatever follows: no stream handler is started, and the peer reads a
  -- response that says so, under the id 0, whatever the id of the request.
  pub ws_stream_handler-too_large :
      (r : Request C) (into : Response C) (room room' : ℕ) (rest more : Bytes)
      → Clones clone_slice
      → r.id < 2 ^ 64
      → length r.path < 65536
      → length (encoded_headers r.headers).0 < 65536
      → length (body_bytes r.body) < 2 ^ 63
      → gtz (pos (length (body_bytes r.body))) max ≡ true
      → length (request_head r ++ body_bytes r.body) ≤ room
      → 100 ≤ room'
      → let opened =
          ws_stream_handler write_all clone_slice background mux max path
            (sent_by write_all r room ++ rest)
            (empty_sink room') in
        (opened.1 ≡ none)
        × (read_response into (opened.0.out ++ more) ≡ read_of into (too_large_answer C) more)
        × ((read_of into (too_large_answer C) more).resp.req_id ≡ 0)
  ws_stream_handler-too_large r into room room' rest more cl hi hp hh hb large fits fits' =
      let refused =
        ws_stream_handler_fails (sent_by write_all r room ++ rest) room'
          (request_from_reader-too_large r room rest cl hi hp hh hb large fits) in
      (
        ap (λ o. o.1) refused,
        ap (λ o. read_response into (o.0.out ++ more)) refused
            ∙ too_large_answer_read into room' more fits',
        too_large_answer_id C into,
      )
