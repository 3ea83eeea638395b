-- ===== src/Server/Messages.antt =====
-- go/server.go, handleStreamMsg: a message of the client on a stream of the connection.
use jtrpc.Common.{
  ℕ, ◌-◌, ◌^◌, Option, none, some, [], Bytes, nat_eq, if◌then◌else◌, Outcome, done, panics, stuck,
}
use jtrpc.Common.Int.{pos, negsuc, int64, gtz}
use jtrpc.Common.Maps.{insert, nat_key}
use jtrpc.Wire.{append8, get8}
use jtrpc.Flags.{has_close_flag}
use jtrpc.Io.{copy_n, WriteAll}
use jtrpc.Message.{Message}
use jtrpc.Stream.{
  Stream, ClosedError, Failure, io_error, send, add_msg, close_with_msg_recvd, of_closed,
}
use jtrpc.Server.{Limits, Conn, Next, crashed, after_copy, discard, finish_with}

-- The message with MsgFlagTooLarge.
abbrev pub too_large : Limits → Stream → Message
too_large limits s = record {
  req_id = s.req_id;
  flags = 0b1010_0000;
  body =
      some (append8 [] (elim limits.max_stream_body_len [ pos n ↦ n | negsuc n ↦ 2 ^ 64 - 1 - n ]));
}

module _ {C S : Type 0} (write_all : WriteAll) (limits : Limits) (clone_slice : Bytes → Bytes) where
  abbrev send_too_large : Conn C S → Stream → Conn C S
  send_too_large c s = record c { sink = (send write_all s (too_large limits s) c.sink).0 }

  -- The end of the close branch: `stream.closeWithMsgRecvd(msg); return err`.
  unfoldable pub close_by_peer : Conn C S → Stream → ℕ → Option Bytes → Option Failure → Next C S
  close_by_peer c s flags body err =
      let r =
        close_with_msg_recvd write_all s c.streams c.sink
          (record { req_id = s.req_id; flags = flags; body = body }) in
      finish_with (record c { streams = r.table }) err

  -- The close branch of `handleStreamMsg`. What `CopyN` returns after a message that is too
  -- large is the error of the branch, and the stream is closed before it is returned.
  unfoldable pub handle_close : Conn C S → Stream → ℕ → ℕ → Next C S
  unfolding close_by_peer
  handle_close c s flags msg_len =
      let told = send_too_large c s in
      let skipped = copy_n (int64 msg_len) c.input in
      if nat_eq msg_len 0
      then close_by_peer c s flags none none
      else if gtz (int64 msg_len) limits.max_stream_body_len
      then close_by_peer (record told { input = skipped.rest }) s flags none
          (elim skipped.failure [ none ↦ none | some e ↦ some (io_error e) ])
      else after_copy c skipped λ c' body. close_by_peer c' s flags (some (clone_slice body)) none

  unfoldable pub added : Conn C S → ℕ → Outcome (Stream × Option ClosedError) → Next C S
  added c id (done (s, e)) =
      finish_with (record c { streams = insert id s c.streams }) (of_closed e)
  added c id panics = crashed
  added c id stuck = crashed

  -- `handleStreamMsg`, of the stream under `id`.
  unfoldable pub handle_stream_msg : Conn C S → ℕ → Stream → ℕ → Next C S
  unfolding handle_close added
  handle_stream_msg c id s flags = after_copy c (copy_n (pos 8) c.input) λ c1 len_bytes.
      let msg_len = get8 len_bytes in
      if has_close_flag flags
      then handle_close c1 s flags msg_len
      else if gtz (int64 msg_len) limits.max_stream_body_len
      then discard (send_too_large c1 s) (int64 msg_len)
      else after_copy c1 (copy_n (int64 msg_len) c1.input) λ c2 body.
        added c2 id
          (add_msg s (record { req_id = s.req_id; flags = flags; body = some (clone_slice body) }))
