-- ===== src/Stream.antt =====
-- go/stream.go, the type Stream: addMsg, Send, Recv, RecvTimeout, moveMsg, Close and
-- CloseWithMessage, closeWithMsgRecvd, GetClosedErr.
--
-- A stream keeps what is in its channel (`chan`, oldest first), its overflow buffer, and whether it
-- is closed; closing closes the channel. What holds a mutex or is one atomic operation is one step.
-- Blocking is a result: another goroutine has to act first. `table` stands for the connection's
-- map of streams by request id, of which closing deletes one entry.
pub mod Order
pub mod Drain
pub mod Closing
pub mod Races
use jtrpc.Common.{
  ℕ, zero, suc, ◌+◌, Bool, true, false, not, Option, none, some, List, [], ◌∷◌, ◌++◌, Bytes, length,
  ltb, if◌then◌else◌, Outcome, done, panics, stuck,
}
use jtrpc.Common.Maps.{delete, nat_key}
use jtrpc.Flags.{msg_flag_close}
use jtrpc.Io.{Error, timed_out, Sink, WriteAll}
use jtrpc.Message.{Message, empty_message, write_message}

-- StreamClosedError
pub record ClosedError : Type 0 where
  pub message : Message
  pub has_message : Bool
  pub client_closed : Bool

abbrev pub no_details : ClosedError
no_details = record { message = empty_message; has_message = false; client_closed = false }

pub record Stream : Type 0 where
  pub req_id : ℕ
  pub chan : List Message
  pub buffer : List Message
  pub closed : Bool
  pub close_err : Option ClosedError

-- `make(chan Message, 50)`
abbrev pub chan_len : ℕ
chan_len = 50

unfoldable pub new_stream : ℕ → Stream
new_stream id = record { req_id = id; chan = []; buffer = []; closed = false; close_err = none }

-- A send to the channel would not block.
abbrev pub has_room : List Message → Bool
has_room chan = ltb (length chan) chan_len

abbrev pub or_no_details : Option ClosedError → ClosedError
or_no_details none = no_details
or_no_details (some e) = e

-- `GetClosedErr`; `none` is nil.
unfoldable pub get_closed_err : Stream → Option ClosedError
get_closed_err s = if not s.closed then none else some (or_no_details s.close_err)

-- The channel and the buffer behind the loop of `addMsg`.
abbrev pub Queues : Type 0
Queues = List Message × List Message

-- The select behind the loop.
abbrev pub send_or_keep : List Message → List Message → Message → Queues
send_or_keep chan kept msg =
    if has_room chan then (chan ++ msg ∷ [], kept) else (chan, kept ++ msg ∷ [])

-- The loop of `addMsg` from an element of the buffer on; `kept` are the elements before it. After
-- a send it moves to the next element and removes the one that was sent, and the loop moves on
-- once more: `e.Next()` is called on nil if the sent element was the last.
unfoldable pub add_loop : List Message → List Message → List Message → Message → Outcome Queues
add_loop chan kept [] msg = done (send_or_keep chan kept msg)
add_loop chan kept (e ∷ []) msg =
    if has_room chan then panics else done (chan, kept ++ e ∷ msg ∷ [])
add_loop chan kept (e ∷ d ∷ rest) msg =
    let later = add_loop (chan ++ e ∷ []) (kept ++ d ∷ []) rest msg in
    if has_room chan then later else done (chan, kept ++ e ∷ (d ∷ (rest ++ msg ∷ [])))

abbrev pub with_queues : Stream → Outcome Queues → Outcome (Stream × Option ClosedError)
with_queues s (done (chan, buffer)) = done (record s { chan = chan; buffer = buffer }, none)
with_queues s panics = panics
with_queues s stuck = stuck

-- `addMsg`: the stream and the error.
unfoldable pub add_msg : Stream → Message → Outcome (Stream × Option ClosedError)
add_msg s msg =
    if s.closed then done (s, get_closed_err s) else with_queues s (add_loop s.chan [] s.buffer msg)

-- The bytes of `send`, the error, and the message with what is left of its body.
unfoldable pub send_raw : WriteAll → Stream → Message → Sink → Sink × Option Error
send_raw write_all s msg sink =
    let w = (write_message write_all (record msg { req_id = s.req_id }) sink).1 in
    (w.sink, w.failure)

-- The error of a method that returns either kind.
pub data Failure : Type 0 where
  stream_closed : ClosedError → Failure
  io_error : Error → Failure

abbrev pub of_closed : Option ClosedError → Option Failure
of_closed none = none
of_closed (some e) = some (stream_closed e)

abbrev pub of_io : Option Error → Option Failure
of_io none = none
of_io (some e) = some (io_error e)

-- `Send`
unfoldable pub send : WriteAll → Stream → Message → Sink → Sink × Option Failure
send write_all s msg sink =
    let (sink', e) = send_raw write_all s msg sink in
    if s.closed then (sink, of_closed (get_closed_err s)) else (sink', of_io e)

-- What a receive gives. `blocks` is a receive that waits, `holds` one that waits in `moveMsg` with
-- the buffer's mutex locked.
pub data Receipt : Type 0 where
  received : Message → Stream → Receipt
  refused : Failure → Receipt
  blocks : Receipt
  holds : Message → Stream → Receipt
  crashes : Receipt

-- `moveMsg`, after `msg` was received. A send on the closed channel panics.
unfoldable pub move_msg : Message → Stream → Receipt
move_msg msg s = elim s.buffer [
  | [] ↦ received msg s
  | e ∷ rest ↦
      if s.closed
      then crashes
      else if has_room s.chan
      then received msg (record s { chan = s.chan ++ e ∷ []; buffer = rest })
      else holds msg s
]

abbrev closed_failure : Option ClosedError → Receipt
closed_failure none = blocks
closed_failure (some e) = refused (stream_closed e)

-- `<-s.msgChan` and what follows it: a closed channel gives the messages that it still has.
unfoldable pub take_msg : Stream → Receipt
take_msg s = elim s.chan [
  | [] ↦ closed_failure (get_closed_err s)
  | m ∷ rest ↦ move_msg m (record s { chan = rest })
]

-- What the clock does to a call: there is no deadline, it has passed, or it is in the future and
-- passes before a message comes or after.
pub data Deadline : Type 0 where
  unset passed first later : Deadline

-- `Recv`
unfoldable pub recv : Stream → Deadline → Receipt
recv s unset = take_msg s
recv s passed = refused (io_error timed_out)
recv s first = refused (io_error timed_out)
recv s later = take_msg s

-- `RecvTimeout`: a message or a closure that is already there comes before the timer. `fires` says
-- whether the timer fires before there is one.
unfoldable pub recv_timeout : Stream → Bool → Receipt
recv_timeout s fires = elim (take_msg s) [
  | blocks ↦ if fires then refused (io_error timed_out) else blocks
  | r ↦ r
]

-- The result of closing a stream.
pub record Closed (V : Type 0) : Type 0 where
  pub stream : Stream
  pub table : List (ℕ × V)
  pub sink : Sink
  pub failure : Option Failure

module _ {V : Type 0} (write_all : WriteAll) where
  -- `closeWithMessage(send, msg, msgRecvd)`. Without `send` it returns before it sets `closeErr`.
  unfoldable pub close_with_message :
      Stream → List (ℕ × V) → Sink → Bool → Message → Message → Closed V
  close_with_message s table sink tell msg msg_recvd =
      let shut = record s { closed = true } in
      let (sink', e) = send_raw write_all s (record msg { flags = msg_flag_close }) sink in
      let details : ClosedError = record {
        message = msg_recvd;
        has_message = not tell;
        client_closed = not tell;
      } in
      if s.closed
      then record { stream = s; table = table; sink = sink; failure = of_closed (get_closed_err s) }
      else if not tell
      then record { stream = shut; table = delete s.req_id table; sink = sink; failure = none }
      else record {
        stream = record shut {
          close_err = some (elim s.close_err [ none ↦ details | some d ↦ d ]);
        };
        table = delete s.req_id table;
        sink = sink';
        failure = of_io e;
      }

  -- `Close` and `CloseWithMessage`
  abbrev pub close : Stream → List (ℕ × V) → Sink → Message → Closed V
  close s table sink msg = close_with_message s table sink true msg empty_message

  -- `closeWithMsgRecvd`
  abbrev pub close_with_msg_recvd : Stream → List (ℕ × V) → Sink → Message → Closed V
  close_with_msg_recvd s table sink msg = close_with_message s table sink false empty_message msg
