-- ===== src/Exchange/Wires.antt =====
-- Messages that one side of a stream sends, as bytes on the connection (go/stream.go, Send).
use jtrpc.Common.{
  ℕ, ◌+◌, ◌≤◌, ◌≡◌, sym, ap, ◌∙◌, false, none, List, [], ◌∷◌, ◌++◌, append-nil, append_assoc, Bytes,
  length, length-append, take_all, arith,
}
use jtrpc.Io.{Sink, WriteAll, WritesAll}
use jtrpc.Message.{Message}
use jtrpc.Message.RoundTrip.{message_bytes, write_message-WritesPrefix}
use jtrpc.Stream.{Stream, send, send_raw, of_io}

-- A message in the wire format of its stream, and several.
abbrev pub wire : ℕ → Message → Bytes
wire id msg = message_bytes (record msg { req_id = id })

abbrev pub wires : ℕ → List Message → Bytes
wires id [] = []
wires id (msg ∷ more) = wire id msg ++ wires id more

-- `Send` of each message; what is left of the writer.
abbrev pub send_each : WriteAll → Stream → List Message → Sink → Sink
send_each write_all s [] sink = sink
send_each write_all s (msg ∷ more) sink = send_each write_all s more (send write_all s msg sink).0

-- A writer that has taken these bytes, too.
pub record Takes (sink : Sink) (b : Bytes) (after : Sink) : Type 0 where
  pub bytes : after.out ≡ sink.out ++ b
  pub space : length b + after.room ≡ sink.room

module _ (write_all : WriteAll) (total : WritesAll write_all) (s : Stream) where
  pub send-Takes :
      (msg : Message) (sink : Sink)
      → s.closed ≡ false
      → length (wire s.req_id msg) ≤ sink.room
      → Takes sink (wire s.req_id msg) (send write_all s msg sink).0
        × ((send write_all s msg sink).1 ≡ none)
  unfolding send send_raw
  send-Takes msg sink open_ fits =
      let w = write_message-WritesPrefix write_all (record msg { req_id = s.req_id }) sink total in
      let ok = w.fits fits in
      rw open_ (
        record {
          bytes =
              w.prefix
              ∙ ap (◌++◌ sink.out) (take_all _ (wire s.req_id msg) (omega (arith, w.whole ok)));
          space = omega (arith, w.left ok, w.whole ok);
        },
        ap of_io ok,
      )

  -- Messages that are sent one after the other go to the writer one after the other.
  pub send_each-Takes :
      (msgs : List Message) (sink : Sink)
      → s.closed ≡ false
      → length (wires s.req_id msgs) ≤ sink.room
      → Takes sink (wires s.req_id msgs) (send_each write_all s msgs sink)
  send_each-Takes [] sink open_ fits = record {
    bytes = sym (append-nil sink.out);
    space = omega arith;
  }
  send_each-Takes (msg ∷ more) sink open_ fits =
      let sizes = length-append (wire s.req_id msg) (wires s.req_id more) in
      let first = (send-Takes msg sink open_ (omega (arith, sizes))).0 in
      let later =
        send_each-Takes more (send write_all s msg sink).0 open_
          (omega (arith, sizes, first.space)) in
      record {
        bytes =
            later.bytes
            ∙ ap (λ (b : Bytes). b ++ wires s.req_id more) first.bytes
            ∙ append_assoc sink.out (wire s.req_id msg) (wires s.req_id more);
        space = omega (arith, sizes, first.space, later.space);
      }
