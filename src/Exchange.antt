-- ===== src/Exchange.antt =====
-- A request of go/client.go and a connection of go/server.go together, where the bytes that one
-- side writes are the input of the other.
pub mod Sides
pub mod Wires
pub mod Queued
pub mod Frames
pub mod Turns
pub mod Twice
pub mod Messages
use jtrpc.Common.{
  ℕ, ◌≤◌, ◌<◌, ◌^◌, ◌≡◌, refl, ap, ◌∙◌, false, some, [], ◌∷◌, ◌++◌, append_assoc, Bytes, length,
  arith,
}
use jtrpc.Common.Int.{ℤ, pos, gtz}
use jtrpc.Common.Maps.{lookup, insert, delete, nat_key}
use jtrpc.Flags.{has_stream_flag, has_stream_msg_flag}
use jtrpc.Io.Laws.{since}
use jtrpc.Io.{WriteAll, WritesAll, Clones}
use jtrpc.Request.{Request, make_request, encoded_headers, body_bytes, request_head}
use jtrpc.Request.RoundTrip.{request_head_lem}
use jtrpc.Response.{Response, new_response, response_head}
use jtrpc.Response.RoundTrip.{fixed_bytes, response_body, IsSized}
use jtrpc.Server.{Limits, Handler, MuxOps, runs, writes, Conn, goes_on, run_job}
use jtrpc.Server.Requests.{frame}
use jtrpc.Mux.Chain.{inside}
use jtrpc.Server.Dispatch.{entry, fresh, frame-starts}
use jtrpc.Exchange.Sides.{
  next_id, write_next-bytes, write_response-bytes, response_head-fixed_bytes, waits_for,
}
use jtrpc.Client.{
  Client, continues, RespChan, new_resp_chan, send_resp, write_next, enter, send_request,
}
use jtrpc.Client.Receive.{round}
use jtrpc.Client.Dispatch.{response_to, round-answers, send_request_open}

module _ {C : Type 0} (write_all : WriteAll) (total : WritesAll write_all) where
  module _ {S : Type 0} (limits : Limits) (clone_slice : Bytes → Bytes) (sprint : ℤ → Bytes)
      (background : C) (addr : Bytes) (mux : MuxOps (Handler C) S) where
    -- The request as the server enters it, and the response that its handler gets.
    abbrev pub entered : Client C → Request C → Request C
    entered c req =
        entry background addr (next_id c) req.flags req.path (encoded_headers req.headers).0
          (body_bytes req.body)

    abbrev pub started : Client C → Request C → Response C
    started c req = fresh (next_id c) 0 (entered c req)

    -- What the handler, inside its middlewares, leaves.
    abbrev pub left_by : Client C → Request C → Handler C → Request C × Response C
    left_by c req h = inside mux req.path h (entered c req) (started c req)

    -- The connection with the request, and that of which the handler has run and is to be answered.
    abbrev pub with_entered : Conn C S → Bytes → Client C → Request C → Handler C → Conn C S
    with_entered conn later c req h = record conn {
      input = later;
      reqs = insert (next_id c) (entered c req) conn.reqs;
      jobs = conn.jobs ++ runs (inside mux req.path h) (entered c req) (started c req) ∷ [];
    }

    abbrev pub with_handled : Conn C S → Bytes → Client C → Request C → Handler C → Conn C S
    with_handled conn later c req h = record conn {
      input = later;
      reqs = delete (left_by c req h).0.id (insert (next_id c) (entered c req) conn.reqs);
      jobs = conn.jobs ++ writes (left_by c req h).1 ∷ [];
    }

    frame-write_next :
        (c : Client C) (conn : Conn C S) (req : Request C) (later : Bytes) (h : Handler C)
        → Clones clone_slice
        → length (request_head (record req { id = next_id c }) ++ body_bytes req.body) ≤ c.sink.room
        → length req.path < 65536
        → length (encoded_headers req.headers).0 < 65536
        → length (body_bytes req.body) < 2 ^ 63
        → has_stream_msg_flag req.flags ≡ false
        → has_stream_flag req.flags ≡ false
        → gtz (pos (length (body_bytes req.body))) limits.max_body_len ≡ false
        → mux.handler_at req.path ≡ some h
        → frame write_all limits clone_slice sprint background addr mux
            (record conn { input = since c.sink (write_next write_all c req).0.sink ++ later })
          ≡ goes_on (with_entered conn later c req h)
    frame-write_next c conn req later h cl fits hp hh hb regular_ one small there =
        ap
          (λ b.
            frame write_all limits clone_slice sprint background addr mux
              (record conn { input = b ++ later }))
          (write_next-bytes write_all total c req fits)
        ∙ rw
            (append_assoc (request_head (record req { id = next_id c })) (body_bytes req.body)
              later)
            (ap
                (λ b.
                  frame write_all limits clone_slice sprint background addr mux
                    (record conn { input = b ++ (body_bytes req.body ++ later) }))
                (request_head_lem (record req { id = next_id c }))
              ∙ frame-starts write_all limits clone_slice sprint background addr mux conn
                  (next_id c) req.flags req.path (encoded_headers req.headers).0
                  (body_bytes req.body) later h cl (omega arith) hp hh hb regular_ one small there)

    -- What the server's goroutine writes.
    run_job-bytes :
        (conn : Conn C S) (resp : Response C)
        → IsSized resp
        → length (response_head resp ++ response_body resp.body) ≤ conn.sink.room
        → length (encoded_headers resp.headers).0 < 65536
        → since conn.sink (run_job write_all conn (writes resp)).sink
          ≡ fixed_bytes resp.req_id resp.flags resp.status
              (length (encoded_headers resp.headers).0)
              (length (response_body resp.body))
            ++ ((encoded_headers resp.headers).0 ++ response_body resp.body)
    unfolding run_job
    run_job-bytes conn resp sized fits hh =
        write_response-bytes write_all total resp conn.sink sized fits
        ∙ response_head-fixed_bytes write_all total resp sized hh

    -- A client that is open and a server, over connections with room for what they write, on which
    -- anything may have been written and read before. The client sends a regular request, whose
    -- fields fit and whose body the server admits, with a path that has a handler. The server's loop
    -- takes exactly its bytes off the connection, enters it under the client's id with its path,
    -- flags, headers and body, and starts the handler inside its middlewares. A step of that
    -- goroutine runs the handler and takes the request out; after a second one, a round of the
    -- client's loop takes exactly the bytes of the response off the connection, and the channel that
    -- `Send` gave has a response with the status, the flags, the headers and the body that the handler
    -- left. The handler must leave the response's id, and a body as long as stated, its headers must
    -- fit, and it must set neither the flag of a stream nor that of a stream's message.
    pub round-run_job :
        (c : Client C) (conn : Conn C S) (req : Request C) (later more : Bytes) (h : Handler C)
        → let resp = (left_by c req h).1 in
          let headers = (encoded_headers resp.headers).0 in
          Clones clone_slice
          → c.closed ≡ false
          → length (request_head (record req { id = next_id c }) ++ body_bytes req.body)
            ≤ c.sink.room
          → length req.path < 65536
          → length (encoded_headers req.headers).0 < 65536
          → length (body_bytes req.body) < 2 ^ 63
          → has_stream_msg_flag req.flags ≡ false
          → has_stream_flag req.flags ≡ false
          → gtz (pos (length (body_bytes req.body))) limits.max_body_len ≡ false
          → mux.handler_at req.path ≡ some h
          → resp.req_id ≡ next_id c
          → IsSized resp
          → length (response_head resp ++ response_body resp.body) ≤ conn.sink.room
          → length headers < 65536
          → has_stream_msg_flag resp.flags ≡ false
          → has_stream_flag resp.flags ≡ false
          → (c1 : Client C) × (rc : RespChan C) × (send_request write_all c req ≡ (c1, some rc))
            × (frame write_all limits clone_slice sprint background addr mux
                  (record conn { input = since c.sink c1.sink ++ later })
                ≡ goes_on (with_entered conn later c req h))
            × (run_job write_all
                  (record (with_entered conn later c req h) { jobs = conn.jobs })
                  (runs (inside mux req.path h) (entered c req) (started c req))
                ≡ with_handled conn later c req h)
            × (round write_all (record c1 {
              input =
                  since conn.sink
                    (run_job write_all
                      (record (with_handled conn later c req h) { jobs = conn.jobs })
                      (writes resp)).sink
                  ++ more;
            })
                ≡ continues (record c1 {
                  input = more;
                  reqs =
                      insert
                        (next_id c)
                        (record rc {
                          ch = some (
                              response_to rc resp.flags resp.status headers
                                (response_body resp.body));
                        })
                        c1.reqs;
                }))
    unfolding enter write_next new_resp_chan run_job
    round-run_job c conn req later more h cl open_ fits hp hh hb regular_ one small there same sized
          fits' hh' resp_ plain =
        let resp = (left_by c req h).1 in
        let headers = (encoded_headers resp.headers).0 in
        let sent = (write_next write_all c req).1 in
        let c1 = enter (write_next write_all c req).0 sent in
        (
          c1,
          new_resp_chan sent,
          send_request_open write_all c req open_,
          frame-write_next c conn req later h cl fits hp hh hb regular_ one small there,
          refl,
          ap (λ b. round write_all (record c1 { input = b ++ more }))
                (run_job-bytes (record (with_handled conn later c req h) { jobs = conn.jobs }) resp
                  sized fits' hh')
              ∙ ap (λ b. round write_all (record c1 { input = b }))
                  (append_assoc
                      (fixed_bytes resp.req_id resp.flags resp.status (length headers)
                        (length (response_body resp.body)))
                      (headers ++ response_body resp.body) more
                    ∙ ap
                        (◌++◌ (
                          fixed_bytes resp.req_id resp.flags resp.status (length headers)
                            (length (response_body resp.body))))
                        (append_assoc headers (response_body resp.body) more))
              ∙ ap
                  (λ n. round write_all (record c1 {
                    input =
                        fixed_bytes n resp.flags resp.status (length headers)
                          (length (response_body resp.body))
                        ++ (headers ++ (response_body resp.body ++ more));
                  }))
                  same
              ∙ round-answers write_all c1 (new_resp_chan sent) (next_id c) resp.flags resp.status
                  headers (response_body resp.body) more (omega arith) hh'
                  (omega (arith, sized.0, sized.1)) resp_ plain refl refl refl
                  (waits_for write_all total c req),
        )
