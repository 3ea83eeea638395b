-- ===== src/Proxy/Piping.antt =====
-- proxy/mux.go, jtrpcStreamHandler and pipeStreams: what comes on one stream is sent on the other.
--
-- A goroutine of pipeStreams is given what its calls of `Recv` give, one after the other. The
-- maps of streams, from which closing deletes, are left out.
use jtrpc.Common.{
  ℕ, ◌+◌, ◌≤◌, ◌≡◌, refl, sym, ap, ◌∙◌, Bool, true, false, not, Option, none, some, List, [], ◌∷◌,
  ◌++◌, append_assoc, Bytes, length, length-append, take_all, if◌then◌else◌, arith,
}
use jtrpc.Flags.{msg_flag_close}
use jtrpc.Io.{Sink, WriteAll, WritesAll}
use jtrpc.Message.{Message, new_message, empty_message, write_message}
use jtrpc.Message.RoundTrip.{message_bytes, write_message-WritesPrefix}
use jtrpc.Stream.{Stream, ClosedError, Failure, send, send_raw, close, close_with_message}
use jtrpc.Proxy.Paths.{codes}
use jtrpc.Proxy.Routing.{Info}

-- What `Recv` gives: a message, a StreamClosedError, or another error.
pub data Came : Type 0 where
  comes : Message → Came
  ends : ClosedError → Came
  hiccups : Came

-- The two streams with their writers, and whether the goroutine still runs.
pub record Pipe : Type 0 where
  pub from : Stream
  pub to : Stream
  pub from_sink : Sink
  pub to_sink : Sink
  pub running : Bool

module _ (write_all : WriteAll) where
  abbrev pub close_to : Pipe → Message → Pipe
  close_to p msg =
      let c = close {V = Stream} write_all p.to [] p.to_sink msg in
      record p { to = c.stream; to_sink = c.sink; running = false }

  abbrev pub close_from : Pipe → Message → Pipe
  close_from p msg =
      let c = close {V = Stream} write_all p.from [] p.from_sink msg in
      record p { from = c.stream; from_sink = c.sink; running = false }

  -- `sce.Message`, or no message.
  abbrev pub last_words : ClosedError → Message
  last_words e = if e.has_message then e.message else empty_message

  -- Behind `to.Send(msg)`.
  abbrev pub after_sent : Pipe → Sink × Option Failure → (Pipe → Pipe) → Pipe
  after_sent p (sink, none) again = again (record p { to_sink = sink })
  after_sent p (sink, some e) again =
      close_from (close_to (record p { to_sink = sink }) (new_message (codes "send error")))
        (new_message (codes "send error"))

  -- `pipeStreams`
  unfoldable pub pipe_streams : List Came → Pipe → Pipe
  pipe_streams [] p = p
  pipe_streams (hiccups ∷ more) p = pipe_streams more p
  pipe_streams (ends e ∷ more) p = close_to p (last_words e)
  pipe_streams (comes msg ∷ more) p =
      after_sent p (send write_all p.to msg p.to_sink) λ p'. pipe_streams more p'

  -- The messages as they are sent on a stream with this id.
  abbrev pub relayed : ℕ → List Message → Bytes
  relayed id [] = []
  relayed id (msg ∷ msgs) = message_bytes (record msg { req_id = id }) ++ relayed id msgs

  abbrev pub then_ends : List Message → ClosedError → List Came → List Came
  then_ends [] e more = ends e ∷ more
  then_ends (msg ∷ msgs) e more = comes msg ∷ then_ends msgs e more

  -- A message that fits: it is written, and no error comes.
  record Sends (s : Stream) (msg : Message) (sink : Sink) : Type 0 where
    after : Sink
    sends : send write_all s msg sink ≡ (after, none)
    raw : send_raw write_all s msg sink ≡ (after, none)
    out : after.out ≡ sink.out ++ message_bytes (record msg { req_id = s.req_id })
    room : length (message_bytes (record msg { req_id = s.req_id })) + after.room ≡ sink.room

  send-Sends :
      (s : Stream) (msg : Message) (sink : Sink)
      → WritesAll write_all
      → s.closed ≡ false
      → length (message_bytes (record msg { req_id = s.req_id })) ≤ sink.room
      → Sends s msg sink
  unfolding send send_raw
  send-Sends s msg sink total open_ fits =
      let w = (write_message write_all (record msg { req_id = s.req_id }) sink).1 in
      let f = write_message-WritesPrefix write_all (record msg { req_id = s.req_id }) sink total in
      record {
        after = w.sink;
        sends = simp (send, send_raw, open_, f.fits fits);
        raw = simp (send_raw, f.fits fits);
        out =
            f.prefix
            ∙ ap (◌++◌ sink.out) (
                take_all w.n (message_bytes (record msg { req_id = s.req_id }))
                  (omega (arith, f.whole (f.fits fits))));
        room = omega (arith, f.left (f.fits fits), f.whole (f.fits fits));
      }

  close_to-Sends :
      (p : Pipe) (msg : Message)
      → WritesAll write_all
      → p.to.closed ≡ false
      → length (message_bytes (record msg { flags = msg_flag_close; req_id = p.to.req_id }))
        ≤ p.to_sink.room
      → ((close_to p msg).to_sink.out
          ≡ p.to_sink.out
            ++ message_bytes (record msg { flags = msg_flag_close; req_id = p.to.req_id }))
        × ((close_to p msg).to.closed ≡ true)
  unfolding close_with_message
  close_to-Sends p msg total open_ fits =
      let s = send-Sends p.to (record msg { flags = msg_flag_close }) p.to_sink total open_ fits in
      simp (open_, s.raw) (s.out, refl)

  -- The message of a closed peer, if it said so with one, and otherwise an empty message.
  abbrev pub parting : ClosedError → Message
  parting e = if e.has_message then e.message else record { req_id = 0; flags = 0; body = none }

  -- A goroutine of `pipeStreams` gets some messages and then a StreamClosedError, the stream that
  -- it sends to is open, and its writer has room for all of it. It writes these messages in their
  -- order, under the id of that stream, behind them the message of the error as a close message, or an
  -- empty one if the error has none, and then it
  -- has closed that stream and stopped, whatever might have come after.
  pub pipe_streams-relays :
      (msgs : List Message) (e : ClosedError) (more : List Came) (p : Pipe)
      → WritesAll write_all
      → p.to.closed ≡ false
      → let goodbye =
          message_bytes (record (parting e) { flags = msg_flag_close; req_id = p.to.req_id }) in
        length (relayed p.to.req_id msgs ++ goodbye) ≤ p.to_sink.room
        → let q = pipe_streams (then_ends msgs e more) p in
          (q.to_sink.out ≡ p.to_sink.out ++ (relayed p.to.req_id msgs ++ goodbye))
          × (q.to.closed ≡ true)
          × (q.running ≡ false)
  unfolding pipe_streams
  pipe_streams-relays [] e more p total open_ fits =
      let (out, shut) = close_to-Sends p (last_words e) total open_ fits in (out, shut, refl)
  pipe_streams-relays (msg ∷ msgs) e more p total open_ fits =
      let s = send-Sends p.to msg p.to_sink total open_ (omega (arith, split_length)) in
      let step = ap (λ r. after_sent p r (λ p'. pipe_streams (then_ends msgs e more) p')) s.sends in
      let (out, shut, stopped) =
        pipe_streams-relays msgs e more (record p { to_sink = s.after }) total open_
          (omega (arith, split_length, s.room)) in
      (
        ap (λ q. q.to_sink.out) step
            ∙ out
            ∙ ap (λ (b : Bytes). b ++ rest) s.out
            ∙ append_assoc p.to_sink.out first rest
            ∙ ap (◌++◌ p.to_sink.out) (sym (append_assoc first (relayed p.to.req_id msgs) goodbye)),
        ap (λ q. q.to.closed) step ∙ shut,
        ap (λ q. q.running) step ∙ stopped,
      )
    where
      first : Bytes
      first = message_bytes (record msg { req_id = p.to.req_id })

      goodbye : Bytes
      goodbye = message_bytes (record (parting e) { flags = msg_flag_close; req_id = p.to.req_id })

      rest : Bytes
      rest = relayed p.to.req_id msgs ++ goodbye

      split_length :
          length ((first ++ relayed p.to.req_id msgs) ++ goodbye) ≡ length first + length rest
      split_length =
          ap length (append_assoc first (relayed p.to.req_id msgs) goodbye)
          ∙ length-append first rest

-- What the stream handler of the proxy does with a stream of a client.
pub data Handling : Type 0 where
  closes_client : Stream → Sink → Handling
  blocks_for_ever : Handling
  crashes : Handling
  pipes_from : ℕ → Handling

abbrev pub turned_away : WriteAll → Stream → Sink → Handling
turned_away write_all cstream sink =
    let c =
      close {V = Stream} write_all cstream [] sink (new_message (codes "internal server error")) in
    closes_client c.stream c.sink

-- `jtrpcStreamHandler`; `stopped` is what `info.timer.Stop()` gives. The channel of a timer of
-- time.AfterFunc is nil, from which a receive never comes back.
unfoldable pub jtrpc_stream_handler :
    {K N : Type 0} → WriteAll → Option (Info K N) → Bool → Stream → Sink → Handling
jtrpc_stream_handler write_all none stopped cstream sink = turned_away write_all cstream sink
jtrpc_stream_handler write_all (some info) stopped cstream sink =
    if not info.timer then crashes else if not stopped then blocks_for_ever else elim info.stream [
      | none ↦ turned_away write_all cstream sink
      | some stream ↦ pipes_from stream
    ]
