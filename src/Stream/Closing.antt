-- ===== src/Stream/Closing.antt =====
-- Closing a stream.
use jtrpc.Common.{ℕ, ◌≡◌, Bool, true, false, none, some, List, if◌then◌else◌, arith}
use jtrpc.Common.Maps.{lookup, lookup-delete, beq_refl, nat_key}
use jtrpc.Flags.{msg_flag_close}
use jtrpc.Io.{Sink, WriteAll}
use jtrpc.Message.{Message, write_message}
use jtrpc.Stream.{
  Stream, ClosedError, get_closed_err, close_with_message, send_raw, send, stream_closed, of_closed,
  or_no_details,
}

module _ {V : Type 0} (write_all : WriteAll) (s : Stream) (table : List (ℕ × V)) (sink : Sink) where
  -- A close of an open stream shuts the stream, takes it out of the connection's map, and, where
  -- it tells the peer, sends one message with the close flag and the stream's id; a later one
  -- changes nothing and returns the closed error.
  pub close_with_message_once :
      (tell : Bool) (msg msg_recvd : Message)
      → s.closed ≡ false
      → let r = close_with_message write_all s table sink tell msg msg_recvd in
        let again = close_with_message write_all r.stream r.table r.sink tell msg msg_recvd in
        (r.stream.closed ≡ true)
        × (lookup s.req_id r.table ≡ none)
        × (r.sink ≡ (
            if tell
            then (write_message write_all
                (record msg { req_id = s.req_id; flags = msg_flag_close })
                sink).1.sink
            else sink))
        × (again ≡ record {
          stream = r.stream;
          table = r.table;
          sink = r.sink;
          failure = of_closed (get_closed_err r.stream);
        })
  unfolding close_with_message send_raw
  close_with_message_once tell msg msg_recvd open_ = (
    ground arith,
    ground (arith, lookup-delete s.req_id s.req_id table, beq_refl s.req_id),
    ground arith,
    ground arith,
  )

  -- Whoever closes an open stream that has no closed error, and with whatever message, the closed
  -- error then says neither that there was a message nor that the client closed.
  pub closed_err_no_details :
      (tell : Bool) (msg msg_recvd : Message) (e : ClosedError)
      → s.closed ≡ false
      → s.close_err ≡ none
      → get_closed_err (close_with_message write_all s table sink tell msg msg_recvd).stream
        ≡ some e
      → (e.has_message ≡ false) × (e.client_closed ≡ false)
  unfolding close_with_message get_closed_err
  closed_err_no_details tell msg msg_recvd e open_ fresh h = ground arith

-- `Send` on a closed stream writes nothing and returns the closed error.
pub send_closed :
    (write_all : WriteAll) (s : Stream) (msg : Message) (sink : Sink)
    → s.closed ≡ true
    → (e : ClosedError) × (send write_all s msg sink ≡ (sink, some (stream_closed e)))
unfolding send get_closed_err
send_closed write_all s msg sink h = (or_no_details s.close_err, ground arith)
