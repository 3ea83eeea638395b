-- ===== src/Client/Receive.antt =====
-- go/client.go, run: one round of its loop, with handleResp and handleStreamMsg.
use jtrpc.Common.{
  ℕ, Bool, ◌&&◌, Option, none, some, drop, nat_eq, if◌then◌else◌, Outcome, done, panics, stuck,
}
use jtrpc.Common.Int.{int64}
use jtrpc.Common.Maps.{lookup, insert, nat_key}
use jtrpc.Wire.{get2, get8}
use jtrpc.Flags.{has_stream_flag, has_stream_msg_flag, has_close_flag, status_ok}
use jtrpc.Io.{read_full, copy_n, WriteAll}
use jtrpc.Request.{byte_at}
use jtrpc.Headers.{raw_headers}
use jtrpc.Response.{Response, new_response, set_body_reader, read_headers}
use jtrpc.Message.{Message}
use jtrpc.Stream.{Stream, ClosedError, new_stream, add_msg, close_with_msg_recvd}
use jtrpc.Client.{Client, Turn, continues, dies, RespChan, send_resp, after}

module _ {C : Type 0} where
  unfoldable pub delivered : Client C → ℕ → Outcome (RespChan C) → Turn C
  delivered c id (done rc) = continues (record c { reqs = insert id rc c.reqs })
  delivered c id panics = dies
  delivered c id stuck = dies

  -- A response with status OK and the stream flag gets a stream, under its request's id.
  abbrev pub gives_stream : Response C → Bool
  gives_stream resp = nat_eq resp.status status_ok && has_stream_flag resp.flags

  -- The end of `handleResp`. The channel stays in `reqs`.
  unfoldable pub deliver : Client C → ℕ → RespChan C → Response C → Turn C
  unfolding delivered
  deliver c id rc resp =
      if gives_stream resp
      then delivered (record c { streams = insert rc.req.id (new_stream rc.req.id) c.streams }) id
          (send_resp rc (record resp { stream = some rc.req.id }))
      else delivered c id (send_resp rc resp)

  -- `handleResp` from the body on.
  unfoldable pub read_resp_body : Client C → ℕ → RespChan C → Response C → ℕ → Turn C
  read_resp_body c id rc resp bl =
      if nat_eq bl 0
      then deliver c id rc resp
      else after c (copy_n (int64 bl) c.input)
          λ c' body. deliver c' id rc (set_body_reader resp body bl)

  -- `handleResp`, of the channel under `id`.
  unfoldable pub handle_resp : Client C → ℕ → RespChan C → ℕ → Turn C
  handle_resp c id rc flags = after c (read_full 11 c.input) λ c1 buf.
      let resp : Response C = record (new_response rc.req.id flags (some rc.req)) {
        status = byte_at buf 0;
      } in
      after c1 (read_headers (get2 (drop 1 buf)) c1.input) λ c2 header_bytes.
        read_resp_body c2 id rc (record resp { headers = some (raw_headers header_bytes) })
          (get8 (drop 3 buf))

  -- `stream.addMsg(msg)`, whose error is not read.
  unfoldable pub added_to : Client C → ℕ → Outcome (Stream × Option ClosedError) → Turn C
  added_to c id (done (s, e)) = continues (record c { streams = insert id s c.streams })
  added_to c id panics = dies
  added_to c id stuck = dies

  module _ (write_all : WriteAll) where
    -- The end of `handleStreamMsg`.
    unfoldable pub pass_on : Client C → ℕ → Stream → Message → Turn C
    unfolding added_to
    pass_on c id s msg =
        if has_close_flag msg.flags
        then continues
            (record c { streams = (close_with_msg_recvd write_all s c.streams c.sink msg).table })
        else added_to c id (add_msg s msg)

    -- `handleStreamMsg`, of the stream under `id`.
    unfoldable pub handle_stream_msg : Client C → ℕ → Stream → ℕ → Turn C
    handle_stream_msg c id s flags = after c (read_full 8 c.input) λ c1 buf.
        let msg : Message = record { req_id = s.req_id; flags = flags; body = none } in
        if nat_eq (get8 buf) 0
        then pass_on c1 id s msg
        else after c1 (copy_n (int64 (get8 buf)) c1.input)
            λ c2 body. pass_on c2 id s (record msg { body = some body })

    -- One round of the loop of `run`. For an id that is in neither map it goes on without reading
    -- what follows the nine bytes.
    unfoldable pub round : Client C → Turn C
    round c = after c (read_full 9 c.input) λ c1 buf.
        let id = get8 buf in
        let flags = byte_at buf 8 in
        if has_stream_msg_flag flags
        then elim (lookup id c1.streams) [
          | none ↦ continues c1
          | some s ↦ handle_stream_msg c1 id s flags
        ]
        else elim (lookup id c1.reqs) [ none ↦ continues c1 | some rc ↦ handle_resp c1 id rc flags ]
