-- ===== src/Server/Requests.antt =====
-- go/server.go: handle, handleServerConn and handleReq.
use jtrpc.Common.{
  ℕ, ◌+◌, not, none, some, [], ◌∷◌, ◌++◌, Bytes, bytes_eq, take, drop, if◌then◌else◌,
}
use jtrpc.Common.Int.{ℤ, pos, int64, gtz}
use jtrpc.Common.Maps.{lookup, insert, nat_key}
use jtrpc.Wire.{u64, get2, get8}
use jtrpc.Flags.{
  msg_flag_not_stream, has_stream_flag, has_stream_msg_flag, status_ok, status_not_found,
  status_not_stream, status_body_too_large, status_invalid_initial_bytes,
}
use jtrpc.Io.{read_full, copy_n, Sink, WriteAll}
use jtrpc.Request.{Request, make_request, byte_at}
use jtrpc.Response.{new_response, write_status, write_status_msg}
use jtrpc.Message.{write_message}
use jtrpc.Stream.{of_io}
use jtrpc.Server.{
  Limits, Handler, noop_handler, MuxOps, wrap, Job, runs, opens, Conn, Next, goes_on, after_copy,
  discard, finish_with, answer,
}
use jtrpc.Server.Messages.{handle_stream_msg}

-- The bytes before the version.
abbrev pub initial_bytes : Bytes
initial_bytes = 0 ∷ 0 ∷ 0 ∷ 0 ∷ 0 ∷ 1 ∷ 5 ∷ b'j' ∷ b't' ∷ b'r' ∷ b'p' ∷ b'c' ∷ []

-- What `handle` makes of a new connection: it closes it, leaves it alone (where the answer cannot
-- be written), or serves it from here on.
pub data Opening : Type 0 where
  closes : Sink → Opening
  abandons : Sink → Opening
  serves : Bytes → Sink → Opening

unfoldable pub open_conn : WriteAll → Bytes → Sink → Opening
open_conn write_all input sink =
    let first = read_full 14 input in
    let refused = write_status write_all 0 status_invalid_initial_bytes sink in
    let accepted = write_status write_all 0 status_ok sink in
    elim first.failure [
      | some e ↦ closes sink
      | none ↦
          if not (bytes_eq (take 12 first.got) initial_bytes)
          then closes refused.sink
          else elim accepted.failure [
            | some e ↦ abandons accepted.sink
            | none ↦ serves first.rest accepted.sink
          ]
    ]

-- The handler of a regular request, and the one that runs before a stream handler.
abbrev pub regular_chain : {H S : Type 0} → MuxOps H S → Bytes → H → H
regular_chain mux path h =
    wrap mux.global_middleware (wrap mux.regular_middleware (wrap (mux.middleware_at path) h))

abbrev pub stream_chain : {H S : Type 0} → MuxOps H S → Bytes → H → H
stream_chain mux path h =
    wrap mux.global_middleware
      (wrap mux.all_stream_middleware (wrap (mux.stream_middleware_at path) h))

-- `sprint` is fmt.Sprint of an int64, `addr` the client's address.
module _ {C S : Type 0} (write_all : WriteAll) (limits : Limits) (clone_slice : Bytes → Bytes)
    (sprint : ℤ → Bytes) (background : C) (addr : Bytes) (mux : MuxOps (Handler C) S) where
  -- Read the headers and the body, enter the request in `reqs` and start the goroutine.
  abbrev pub start : Conn C S → ℕ → ℕ → Bytes → ℕ → ℕ → (Request C → Job C S) → Next C S
  start c id flags path headers_len body_len job =
      after_copy c (copy_n (pos headers_len) c.input) λ c1 header_bytes.
        after_copy c1 (copy_n (int64 body_len) c1.input) λ c2 body.
          let req : Request C =
            record (make_request background id addr flags path (clone_slice header_bytes)) {
              body = some body;
            } in
          goes_on (record c2 { reqs = insert id req c2.reqs; jobs = c2.jobs ++ job req ∷ [] })

  -- Answer with a status and skip the headers and the body. `headersLen+bodyLen` is a sum of two
  -- `int`.
  abbrev pub refuse : Conn C S → ℕ → ℕ → ℕ → ℕ → Next C S
  refuse c id status headers_len body_len =
      discard (answer write_all c id status) (int64 (u64 (headers_len + body_len)))

  -- `handleReq` from the path on.
  abbrev pub route : Conn C S → ℕ → ℕ → Bytes → ℕ → ℕ → Next C S
  route c id flags path headers_len body_len =
      if has_stream_flag flags
      then elim (mux.stream_handler_at path) [
        | some s ↦ start c id flags path headers_len body_len λ req.
            opens s (stream_chain mux path noop_handler) req (new_response id flags (some req))
        | none ↦ elim (mux.handler_at path) [
          | some h ↦ refuse c id status_not_stream headers_len body_len
          | none ↦ refuse c id status_not_found headers_len body_len
        ]
      ]
      else elim (mux.handler_at path) [
        | none ↦ refuse c id status_not_found headers_len body_len
        | some h ↦
            start c id flags path headers_len body_len
              λ req. runs (regular_chain mux path h) req (new_response id 0 (some req))
      ]

  -- `handleReq`
  unfoldable pub handle_req : Conn C S → ℕ → ℕ → Next C S
  handle_req c id flags = after_copy c (copy_n (pos 12) c.input) λ c1 lens.
      let path_len = get2 lens in
      let headers_len = get2 (drop 2 lens) in
      let body_len = get8 (drop 4 lens) in
      let w =
        write_status_msg write_all id status_body_too_large (sprint (int64 body_len)) c1.sink in
      if gtz (int64 body_len) limits.max_body_len
      then discard (record c1 { sink = w.sink }) (int64 (u64 (body_len + (path_len + headers_len))))
      else after_copy c1 (copy_n (pos path_len) c1.input)
          λ c2 path. route c2 id flags path headers_len body_len

  -- A message for a stream that is not there: it is answered, and its length and body are left on
  -- the connection.
  abbrev pub answer_not_stream : Conn C S → ℕ → Next C S
  answer_not_stream c id =
      let w =
        (write_message write_all (record { req_id = id; flags = msg_flag_not_stream; body = none })
          c.sink).1 in
      finish_with (record c { sink = w.sink }) (of_io w.failure)

  -- One round of the loop of `handleServerConn`.
  unfoldable pub frame : Conn C S → Next C S
  frame c = after_copy c (copy_n (pos 9) c.input) λ c1 head.
      let id = get8 head in
      let flags = byte_at head 8 in
      if not (has_stream_msg_flag flags)
      then handle_req c1 id flags
      else elim (lookup id c1.streams) [
        | none ↦ answer_not_stream c1 id
        | some s ↦ handle_stream_msg write_all limits clone_slice c1 id s flags
      ]
