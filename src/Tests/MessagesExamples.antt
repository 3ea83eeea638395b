-- ===== src/Tests/MessagesExamples.antt =====
-- Messages of a stream between a client and a server, on a small input.
use jtrpc.Common.{
  ℕ, ◌≤◌, ◌≡◌, refl, true, false, none, some, List, [], ◌∷◌, ◌++◌, All, Bytes, length, inl, arith,
}
use jtrpc.Common.Int.{ℤ, pos}
use jtrpc.Common.Maps.{lookup, insert, nat_key}
use jtrpc.Wire.RoundTrip.{le8}
use jtrpc.Flags.{has_close_flag}
use jtrpc.Io.{Sink}
use jtrpc.Io.Laws.{since}
use jtrpc.Message.{Message, message_body}
use jtrpc.Stream.{Stream, new_stream}
use jtrpc.Stream.Order.{pending}
use jtrpc.Stream.Drain.{recv_each}
use jtrpc.Client.{Client, continues}
use jtrpc.Server.{Limits, Handler, MuxOps, Conn, goes_on}
use jtrpc.Exchange.Wires.{wires, send_each}
use jtrpc.Exchange.Queued.{IsOpen}
use jtrpc.Exchange.Frames.{frames, IsAdmitted, all_received}
use jtrpc.Exchange.Turns.{turns, IsMessage, all_received_by_client}
use jtrpc.Proxy.Piping.{Pipe, pipe_streams}
use jtrpc.Proxy.Relayed.{all_come, recv_each-pipe_streams}
use jtrpc.Exchange.Messages.{recv_each-send_each, recv_each-turns}
use jtrpc.Tests.{
  write_once, write_once-WritesAll, same_slice, same_slice-Clones, key_a, message_of, roomy,
}

abbrev limits : Limits
limits = record { max_body_len = pos 100; max_stream_body_len = pos 100 }

abbrev mux : MuxOps (Handler Unit) ℕ
mux = record {
  handler_at = λ path. none;
  middleware_at = λ path. none;
  stream_handler_at = λ path. none;
  stream_middleware_at = λ path. none;
  global_middleware = none;
  regular_middleware = none;
  all_stream_middleware = none;
}

-- A writer that was written to before.
abbrev used : Sink
used = record { out = 1 ∷ 2 ∷ []; room = 1000 }

abbrev decimal : ℤ → Bytes
decimal n = []

-- A stream with a pending message.
abbrev stream : Stream
stream = record (new_stream 7) { req_id = 7; chan = message_of 1 ∷ []; buffer = []; closed = false }

abbrev conn : Conn Unit ℕ
conn = record { input = []; sink = roomy; reqs = []; streams = (7, stream) ∷ []; jobs = [] }

abbrev client : Client Unit
client = record {
  input = [];
  sink = roomy;
  req_counter = 7;
  reqs = [];
  streams = (7, stream) ∷ [];
  closed = false;
}

abbrev msgs : List Message
msgs = message_of 2 ∷ message_of 3 ∷ []

stream-IsOpen : IsOpen 7 stream
stream-IsOpen = record {
  named = refl;
  queue = record { bounded = omega arith; full = inl refl };
  live = refl;
}

admitted : All (IsAdmitted limits) msgs
unfolding has_close_flag message_body
admitted = ((omega arith, refl, omega arith, refl), ((omega arith, refl, omega arith, refl), tt))

messages : All IsMessage msgs
messages =
    ((omega arith, admitted.0.1, admitted.0.2), ((omega arith, admitted.1.0.1, admitted.1.0.2), tt))

there : lookup 7 conn.streams ≡ some stream
unfolding lookup
there = refl

room : length (wires 7 msgs) ≤ 1000
unfolding message_body le8
room = omega arith

recv_each-send_each_example :
    (after : Stream) × (t : Stream) × (frames write_once limits same_slice decimal tt key_a mux 2
        (record conn { input = since used (send_each write_once stream msgs used) ++ 9 ∷ [] })
      ≡ goes_on (record conn { input = 9 ∷ []; streams = insert 7 after conn.streams }))
    × (recv_each 3 after ≡ some (message_of 1 ∷ all_received 7 msgs, t))
    × (pending t ≡ [])
recv_each-send_each_example =
    recv_each-send_each write_once limits same_slice decimal tt key_a mux stream stream msgs used
      conn (9 ∷ []) write_once-WritesAll same_slice-Clones (omega arith) refl room admitted there
      stream-IsOpen

recv_each-turns_example :
    (after : Stream) × (t : Stream) × (turns write_once 2
        (record client { input = since used (send_each write_once stream msgs used) ++ 9 ∷ [] })
      ≡ continues (record client { input = 9 ∷ []; streams = insert 7 after client.streams }))
    × (recv_each 3 after ≡ some (message_of 1 ∷ all_received_by_client 7 msgs, t))
    × (pending t ≡ [])
recv_each-turns_example =
    recv_each-turns write_once stream stream msgs used client (9 ∷ []) write_once-WritesAll
      (omega arith) refl room messages there stream-IsOpen

-- The proxy's stream to the server of `stream`, with no message pending.
abbrev idle : Stream
idle = record { req_id = 7; chan = []; buffer = []; closed = false; close_err = none }

idle-IsOpen : IsOpen 7 idle
idle-IsOpen = record {
  named = refl;
  queue = record { bounded = omega arith; full = inl refl };
  live = refl;
}

abbrev proxy : Client Unit
proxy = record client { streams = (7, idle) ∷ [] }

proxy_there : lookup 7 proxy.streams ≡ some idle
unfolding lookup
proxy_there = refl

client_there : lookup 7 client.streams ≡ some stream
unfolding lookup
client_there = refl

abbrev pipe : Pipe
pipe = record { from = idle; to = stream; from_sink = roomy; to_sink = used; running = true }

recv_each-pipe_streams_example :
    (after1 : Stream) × (t1 : Stream) × (got : List Message) × (after2 : Stream) × (t2 : Stream)
    × (turns write_once 2
          (record proxy { input = since used (send_each write_once stream msgs used) ++ 9 ∷ [] })
        ≡ continues (record proxy { input = 9 ∷ []; streams = insert 7 after1 proxy.streams }))
    × (recv_each 2 after1 ≡ some (got, t1))
    × (turns write_once 2 (record client {
      input = since used (pipe_streams write_once (all_come got) pipe).to_sink ++ 8 ∷ [];
    })
        ≡ continues (record client { input = 8 ∷ []; streams = insert 7 after2 client.streams }))
    × (recv_each 3 after2 ≡ some (message_of 1 ∷ all_received_by_client 7 msgs, t2))
recv_each-pipe_streams_example =
    recv_each-pipe_streams write_once write_once-WritesAll stream idle stream msgs used proxy pipe
      client (9 ∷ []) (8 ∷ []) (omega arith) refl room messages proxy_there idle-IsOpen refl
      (omega arith) refl room client_there stream-IsOpen
