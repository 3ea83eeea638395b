-- ===== src/Server.antt =====
-- go/server.go: the limits that Serve sets, a connection, and the goroutines that handleReq starts.
-- Server/Messages has handleStreamMsg, Server/Requests handle, handleServerConn and handleReq.
--
-- `Conn` is one connection. A goroutine is a
-- job of the connection: what it does between two accesses to shared state is one step, `run_job`,
-- and other steps may come between. A handler maps a request and a response to what it leaves in
-- them; `C` is the type of contexts and `S` that of stream handlers, which run on their own.
pub mod Messages
pub mod Requests
pub mod Jobs
pub mod Keeps
pub mod Rounds
pub mod Served
pub mod Dispatch
pub mod Finishes
pub mod Http
pub mod HttpPaths
pub mod WsStreams
use jtrpc.Common.{
  ℕ, zero, suc, ◌+◌, ◌-◌, ◌≡◌, ◌^◌, Bool, true, false, not, ◌&&◌, Option, none, some, List, [], ◌∷◌,
  ◌++◌, Bytes, bytes_eq, length, take, drop, ltb, nat_eq, if◌then◌else◌, Outcome, done, panics,
  stuck,
}
use jtrpc.Common.Int.{ℤ, pos, negsuc, int64, gtz}
use jtrpc.Common.Maps.{lookup, insert, delete, nat_key}
use jtrpc.Wire.{u64, get2, append8, get8}
use jtrpc.Flags.{
  flag_stream_msg, msg_flag_not_stream, msg_flag_too_large, has_stream_flag, has_stream_msg_flag,
  has_close_flag, status_ok, status_not_found, status_not_stream, status_body_too_large,
  status_invalid_initial_bytes,
}
use jtrpc.Io.{Error, Reading, read_full, copy_n, Sink, Written, WriteAll}
use jtrpc.Request.{Request, make_request, byte_at}
use jtrpc.Response.{Response, new_response, write_response, write_status, write_status_msg}
use jtrpc.Message.{Message, write_message}
use jtrpc.Mux.{Middleware}
use jtrpc.Stream.{
  Stream, ClosedError, Failure, io_error, stream_closed, new_stream, send, add_msg, Closed,
  close_with_msg_recvd, of_closed,
}

abbrev pub default_max_body_len : ℤ
default_max_body_len = pos (2 ^ 22)

abbrev pub default_max_stream_body_len : ℤ
default_max_stream_body_len = pos (2 ^ 16)

-- A limit behind the first lines of `Serve`: 0 is the default, a negative one is no limit.
unfoldable pub limit_of : ℤ → ℤ → ℤ
limit_of default_ (pos zero) = default_
limit_of default_ (pos (suc n)) = pos (suc n)
limit_of default_ (negsuc n) = pos (2 ^ 63 - 1)

pub record Limits : Type 0 where
  pub max_body_len : ℤ
  pub max_stream_body_len : ℤ

unfoldable pub serve_limits : Limits → Limits
serve_limits l = record {
  max_body_len = limit_of default_max_body_len l.max_body_len;
  max_stream_body_len = limit_of default_max_stream_body_len l.max_stream_body_len;
}

-- A Handler.
abbrev pub Handler : Type 0 → Type 0
Handler C = Request C → Response C → Request C × Response C

-- `noopHandler`
abbrev pub noop_handler : {C : Type 0} → Handler C
noop_handler req resp = (req, resp)

-- What the server calls of the interface Mux.
pub record MuxOps (H S : Type 0) : Type 0 where
  pub handler_at : Bytes → Option H
  pub middleware_at : Bytes → Option (Middleware H)
  pub stream_handler_at : Bytes → Option S
  pub stream_middleware_at : Bytes → Option (Middleware H)
  pub global_middleware : Option (Middleware H)
  pub regular_middleware : Option (Middleware H)
  pub all_stream_middleware : Option (Middleware H)

-- `if mw := ...; mw != nil { handler = mw(handler) }`
abbrev pub wrap : {H : Type 0} → Option (Middleware H) → H → H
wrap none h = h
wrap (some mw) h = mw h

-- A goroutine of `handleReq`, by what it does next: it runs the handler of a request, or the
-- middlewares of a stream request, and takes the request out of `reqs`; it writes the response of
-- the one or of the other; or it has answered a stream request and adds the stream.
pub data Job (C S : Type 0) : Type 0 where
  runs : Handler C → Request C → Response C → Job C S
  opens : S → Handler C → Request C → Response C → Job C S
  writes : Response C → Job C S
  answers : S → Request C → Response C → Job C S
  registers : S → Request C → Job C S

-- A connection: what the client still sends, what it was sent, the maps `reqs` and `streams`, and
-- the goroutines.
pub record Conn (C S : Type 0) : Type 0 where
  pub input : Bytes
  pub sink : Sink
  pub reqs : List (ℕ × Request C)
  pub streams : List (ℕ × Stream)
  pub jobs : List (Job C S)

-- How a round of the loop ends.
pub data Next (C S : Type 0) : Type 0 where
  goes_on : Conn C S → Next C S
  returns : Conn C S → Failure → Next C S
  crashed : Next C S

module _ {C S : Type 0} where
  -- Go on after a copy from the connection that gave no error.
  abbrev pub after_copy : Conn C S → Reading → (Conn C S → Bytes → Next C S) → Next C S
  after_copy c reading k = elim reading.failure [
    | some e ↦ returns (record c { input = reading.rest }) (io_error e)
    | none ↦ k (record c { input = reading.rest }) reading.got
  ]

  -- `_, err := io.CopyN(io.Discard, conn, n); return err`
  abbrev pub discard : Conn C S → ℤ → Next C S
  discard c n = after_copy c (copy_n n c.input) λ c' _. goes_on c'

  abbrev pub finish_with : Conn C S → Option Failure → Next C S
  finish_with c none = goes_on c
  finish_with c (some e) = returns c e

  -- `if resp.StatusCode == StatusOK && err == nil`: the goroutine goes on to add the stream.
  abbrev pub registering : Conn C S → Option Error → ℕ → S → Request C → Conn C S
  registering c (some e) status s req = c
  registering c none status s req =
      if nat_eq status status_ok then record c { jobs = c.jobs ++ registers s req ∷ [] } else c

  module _ (write_all : WriteAll) where
    -- A goroutine's next step: the handler and the removal of the request under the mutex of
    -- `reqs`, or the response under the writer's lock and the emptying of the request's body, or
    -- the entry of the stream. The handler is taken to leave a body that is not nil.
    unfoldable pub run_job : Conn C S → Job C S → Conn C S
    run_job c (runs h req resp) =
        let (req', resp') = h req resp in
        record c { reqs = delete req'.id c.reqs; jobs = c.jobs ++ writes resp' ∷ [] }
    run_job c (writes resp) = record c { sink = (write_response write_all resp c.sink).1.sink }
    run_job c (opens s h req resp) =
        let (req', resp') = h req resp in
        record c { reqs = delete req'.id c.reqs; jobs = c.jobs ++ answers s req' resp' ∷ [] }
    run_job c (answers s req resp) =
        let w = (write_response write_all resp c.sink).1 in
        registering (record c { sink = w.sink }) w.failure resp.status s
          (record req { body = some [] })
    run_job c (registers s req) = record c { streams = insert req.id (new_stream req.id) c.streams }

    abbrev pub answer : Conn C S → ℕ → ℕ → Conn C S
    answer c id status = record c { sink = (write_status write_all id status c.sink).sink }
