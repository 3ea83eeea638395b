-- ===== src/Proxy/Relayed.antt =====
-- A stream through the proxy: pipeStreams of proxy/mux.go between two connections, on each of which
-- go/stream.go writes the messages and the loop of go/client.go reads them.
use jtrpc.Common.{
  ◌+◌, ◌≤◌, ◌<◌, ◌^◌, ◌≡◌, refl, sym, ap, ◌∙◌, false, some, List, [], ◌∷◌, ◌++◌, All, Bytes, length,
  length-append, arith,
}
use jtrpc.Common.Maps.{lookup, insert, nat_key}
use jtrpc.Io.{Sink, WriteAll, WritesAll}
use jtrpc.Io.Laws.{since}
use jtrpc.Message.{Message}
use jtrpc.Stream.{Stream, send}
use jtrpc.Stream.Order.{pending}
use jtrpc.Stream.Drain.{recv_each}
use jtrpc.Client.{Client, continues}
use jtrpc.Exchange.Wires.{wire, wires, send_each, send-Takes}
use jtrpc.Exchange.Turns.{turns, IsMessage, all_received_by_client}
use jtrpc.Exchange.Queued.{IsOpen}
use jtrpc.Exchange.Messages.{recv_each-turns, length-all_received_by_client}
use jtrpc.Exchange.Twice.{
  all_received_by_client-IsMessage, all_received_by_client_twice, wires-all_received_by_client,
}
use jtrpc.Proxy.Piping.{Came, comes, Pipe, pipe_streams, after_sent}

-- Calls of `Recv` that give these messages.
abbrev pub all_come : List Message → List Came
all_come [] = []
all_come (msg ∷ more) = comes msg ∷ all_come more

module _ (write_all : WriteAll) (total : WritesAll write_all) where
  -- The goroutine of `pipeStreams` on messages that fit.
  pipe_streams-send_each :
      (msgs : List Message) (p : Pipe)
      → p.to.closed ≡ false
      → length (wires p.to.req_id msgs) ≤ p.to_sink.room
      → pipe_streams write_all (all_come msgs) p
        ≡ record p { to_sink = send_each write_all p.to msgs p.to_sink }
  unfolding pipe_streams
  pipe_streams-send_each [] p open_ fits = refl
  pipe_streams-send_each (msg ∷ more) p open_ fits =
      let (takes, sends) =
        send-Takes write_all total p.to msg p.to_sink open_
          (omega (arith, length-append (wire p.to.req_id msg) (wires p.to.req_id more))) in
      ap
        (λ e.
          after_sent write_all p ((send write_all p.to msg p.to_sink).0, e)
            (λ p'. pipe_streams write_all (all_come more) p'))
        sends
      ∙ pipe_streams-send_each more (record p { to_sink = (send write_all p.to msg p.to_sink).0 })
          open_
          (omega
            (arith, takes.space, length-append (wire p.to.req_id msg) (wires p.to.req_id more)))

  -- A handler of a server sends messages on an open stream. The proxy is the client of that server: it has an open stream of the same id
  -- with no message pending. It pipes what comes there to the open stream of its own client, over
  -- another connection, and that client has an open stream of that
  -- id. On both connections anything may have been written and read before. Both writers have room, the ids, the flags and the lengths of the bodies fit into their
  -- fields, and none of the messages closes the stream. After as many rounds of the proxy's loop
  -- as there are messages, as many calls of `Recv` give messages which, when `pipeStreams` is
  -- given them, it writes; and after as many rounds of the client's loop, calls of `Recv` there
  -- give the messages that were pending and then those that the handler sent, in this order, with
  -- their bodies (an empty one is no body), under the id of the client. Both loops have taken
  -- exactly the bytes of the messages off their connections.
  pub recv_each-pipe_streams :
      {C D : Type 0} (sent s1 s2 : Stream) (msgs : List Message) (sink : Sink) (proxy : Client C)
      (p : Pipe) (client : Client D) (rest1 rest2 : Bytes)
      → sent.req_id < 2 ^ 64
      → sent.closed ≡ false
      → length (wires sent.req_id msgs) ≤ sink.room
      → All IsMessage msgs
      → lookup sent.req_id proxy.streams ≡ some s1
      → IsOpen sent.req_id s1
      → pending s1 ≡ []
      → p.to.req_id < 2 ^ 64
      → p.to.closed ≡ false
      → length (wires p.to.req_id msgs) ≤ p.to_sink.room
      → lookup p.to.req_id client.streams ≡ some s2
      → IsOpen p.to.req_id s2
      → (after1 : Stream) × (t1 : Stream) × (got : List Message) × (after2 : Stream) × (t2 : Stream)
        × (turns write_all
              (length msgs)
              (record proxy { input = since sink (send_each write_all sent msgs sink) ++ rest1 })
            ≡ continues
                (record proxy { input = rest1; streams = insert sent.req_id after1 proxy.streams }))
        × (recv_each (length msgs) after1 ≡ some (got, t1))
        × (turns write_all (length msgs) (record client {
          input = since p.to_sink (pipe_streams write_all (all_come got) p).to_sink ++ rest2;
        })
            ≡ continues (record client {
              input = rest2;
              streams = insert p.to.req_id after2 client.streams;
            }))
        × (recv_each (length (pending s2) + length msgs) after2
            ≡ some (pending s2 ++ all_received_by_client p.to.req_id msgs, t2))
  recv_each-pipe_streams sent s1 s2 msgs sink proxy p client rest1 rest2 hi open_ fits oks there q
        none1 hi' open' fits' there' q' =
      let got = all_received_by_client sent.req_id msgs in
      let same = wires-all_received_by_client sent.req_id p.to.req_id msgs oks in
      let fits2 : length (wires p.to.req_id got) ≤ p.to_sink.room = omega (arith, ap length same) in
      let (after1, t1, runs1, gives1, left1) =
        recv_each-turns write_all sent s1 msgs sink proxy rest1 total hi open_ fits oks there q in
      let (after2, t2, runs2, gives2, left2) =
        recv_each-turns write_all p.to s2 got p.to_sink client rest2 total hi' open' fits2
          (all_received_by_client-IsMessage sent.req_id msgs oks) there' q' in
      let count = length-all_received_by_client sent.req_id msgs in
      let twice = all_received_by_client_twice sent.req_id p.to.req_id msgs oks in
      (
        after1,
        t1,
        got,
        after2,
        t2,
        runs1,
        ap (λ n. recv_each n after1) (omega (arith, ap length none1))
            ∙ gives1
            ∙ ap (λ (l : List Message). some (l ++ got, t1)) none1,
        ap
              (λ n. turns write_all n (record client {
                input = since p.to_sink (pipe_streams write_all (all_come got) p).to_sink ++ rest2;
              }))
              (sym count)
            ∙ ap
                (λ o.
                  turns write_all (length got)
                    (record client { input = since p.to_sink o.to_sink ++ rest2 }))
                (pipe_streams-send_each got p open' fits2)
            ∙ runs2,
        ap (λ n. recv_each (length (pending s2) + n) after2) (sym count)
            ∙ gives2
            ∙ ap (λ (l : List Message). some (pending s2 ++ l, t2)) twice,
      )
