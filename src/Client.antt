-- ===== src/Client.antt =====
-- go/client.go: WithRW, the loop of run, handleResp, handleStreamMsg, Send, and RespChan.
--
-- `Client` is what the goroutines of a client share: the server's bytes that are still to come, the
-- writer, the counter of request ids, whether it is closed, and the maps `reqs` and `streams` by
-- request id. What holds a mutex or is one atomic operation is one step; `Send` is `write_next` and
-- then `enter`, between which the loop of run may take a round. `C` is the type of contexts.
-- Client/Close has closeWithErr.
pub mod Receive
pub mod Chan
pub mod Dispatch
pub mod Close
use jtrpc.Common.{
  ℕ, zero, suc, ◌+◌, ◌≡◌, Bool, true, false, not, ◌&&◌, Option, none, some, List, [], ◌∷◌, ◌++◌,
  Bytes, length, take, drop, nat_eq, if◌then◌else◌, Outcome, done, panics, stuck,
}
use jtrpc.Common.Int.{ℤ, pos, int64}
use jtrpc.Common.Maps.{lookup, insert, nat_key}
use jtrpc.Wire.{u64, get2, get8}
use jtrpc.Flags.{has_stream_flag, has_stream_msg_flag, has_close_flag, status_ok}
use jtrpc.Io.{Error, Reading, read_full, copy_n, Sink, Written, WriteAll}
use jtrpc.Request.{Request, byte_at, write_request}
use jtrpc.Headers.{raw_headers}
use jtrpc.Response.{
  Response, Received, empty_response, new_response, set_body_reader, read_headers, read_response,
}
use jtrpc.Message.{Message, empty_message}
use jtrpc.Stream.{Stream, ClosedError, new_stream, add_msg, close_with_msg_recvd}

-- `initialBytesVer`
abbrev pub initial_bytes_ver : Bytes
initial_bytes_ver = 0 ∷ 0 ∷ 0 ∷ 0 ∷ 0 ∷ 1 ∷ 5 ∷ b'j' ∷ b't' ∷ b'r' ∷ b'p' ∷ b'c' ∷ 0 ∷ 1 ∷ []

-- RespChan: the request, what is in its channel of one response, whether that is closed, and the
-- Boolean that `Close` reads.
pub record RespChan (C : Type 0) : Type 0 where
  pub req : Request C
  pub ch : Option (Response C)
  pub ch_closed : Bool
  pub marked : Bool

unfoldable pub new_resp_chan : {C : Type 0} → Request C → RespChan C
new_resp_chan req = record { req = req; ch = none; ch_closed = false; marked = false }

-- `send`: a full channel drops the response, and a send on a closed channel panics.
unfoldable pub send_resp : {C : Type 0} → RespChan C → Response C → Outcome (RespChan C)
send_resp rc resp =
    if rc.marked
    then done rc
    else if rc.ch_closed
    then panics
    else done (record rc { ch = some (elim rc.ch [ none ↦ resp | some old ↦ old ]) })

-- `RespChan.Close`, which does not set the Boolean; closing a closed channel panics.
unfoldable pub close_chan : {C : Type 0} → RespChan C → Outcome (RespChan C × Bool)
close_chan rc =
    if rc.marked
    then done (rc, false)
    else if rc.ch_closed
    then panics
    else done (record rc { ch_closed = true }, true)

pub record Client (C : Type 0) : Type 0 where
  pub input : Bytes
  pub sink : Sink
  pub req_counter : ℕ
  pub reqs : List (ℕ × RespChan C)
  pub streams : List (ℕ × Stream)
  pub closed : Bool

-- What `WithRW` gives: a client, the error of the reader or the writer, or an ErrorResp.
pub data Dialed (C : Type 0) : Type 0 where
  connected : Client C → Dialed C
  io_failed : Error → Dialed C
  refused_with : Response C → Dialed C

-- How a round of `run` ends: with no error, with one, on which the loop ends, or in a panic.
pub data Turn (C : Type 0) : Type 0 where
  continues : Client C → Turn C
  breaks : Client C → Error → Turn C
  dies : Turn C

module _ {C : Type 0} where
  -- Go on after a read that gave no error.
  abbrev pub after : Client C → Reading → (Client C → Bytes → Turn C) → Turn C
  after c reading k = elim reading.failure [
    | some e ↦ breaks (record c { input = reading.rest }) e
    | none ↦ k (record c { input = reading.rest }) reading.got
  ]

  -- `WithRW`, of what the peer sends and the writer.
  unfoldable pub with_rw : WriteAll → Bytes → Sink → Dialed C
  with_rw write_all input sink =
      let w = write_all sink initial_bytes_ver in
      let r = read_response {C = C} empty_response input in
      elim w.failure [
        | some e ↦ io_failed e
        | none ↦ elim r.failure [
          | some e ↦ io_failed e
          | none ↦
              if not (nat_eq r.resp.status status_ok)
              then refused_with r.resp
              else connected (record {
                input = r.rest;
                sink = w.sink;
                req_counter = 0;
                reqs = [];
                streams = [];
                closed = false;
              })
        ]
      ]

  -- What `Send` does behind the check: it takes the next id, writes the request, whose error it
  -- does not read, and enters the channel in `reqs`.
  unfoldable pub write_next : WriteAll → Client C → Request C → Client C × Request C
  write_next write_all c req =
      let id = u64 (c.req_counter + 1) in
      let (req', w) = write_request write_all (record req { id = id }) c.sink in
      (record c { req_counter = id; sink = w.sink }, req')

  unfoldable pub enter : Client C → Request C → Client C
  enter c req = record c { reqs = insert req.id (new_resp_chan req) c.reqs }

  -- `Send`; `none` is the error of a closed client.
  unfoldable pub send_request : WriteAll → Client C → Request C → Client C × Option (RespChan C)
  send_request write_all c req =
      let (c1, sent) = write_next write_all c req in
      if c.closed then (c, none) else (enter c1 sent, some (new_resp_chan sent))
