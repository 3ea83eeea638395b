-- ===== src/Exchange/Messages.antt =====
-- The messages of a stream between a client (go/client.go) and a connection of a server
-- (go/server.go): from Send on one side to Recv on the other.
use jtrpc.Common.{
  ℕ, suc, ◌+◌, ◌≤◌, ◌<◌, ◌^◌, ◌≡◌, refl, sym, ap, ◌∙◌, false, some, List, [], ◌∷◌, ◌++◌, append-nil,
  All, Bytes, length, length-append, arith,
}
use jtrpc.Common.Int.{ℤ}
use jtrpc.Common.Maps.{lookup, insert, nat_key}
use jtrpc.Io.{Sink, WriteAll, WritesAll, Clones}
use jtrpc.Io.Laws.{since, since-append}
use jtrpc.Message.{Message}
use jtrpc.Stream.{Stream}
use jtrpc.Stream.Order.{pending}
use jtrpc.Stream.Drain.{recv_each, recv_each-pending}
use jtrpc.Server.{Limits, Handler, MuxOps, Conn, goes_on}
use jtrpc.Exchange.Wires.{wires, send_each, send_each-Takes}
use jtrpc.Exchange.Frames.{frames, IsAdmitted, all_received, frames-Queues}
use jtrpc.Client.{Client, continues}
use jtrpc.Exchange.Turns.{turns, IsMessage, all_received_by_client, turns-Queues}
use jtrpc.Exchange.Queued.{IsOpen, Queues}

length-all_received : (id : ℕ) (msgs : List Message) → length (all_received id msgs) ≡ length msgs
length-all_received id [] = refl
length-all_received id (msg ∷ more) = ap (λ n. suc n) (length-all_received id more)

pub length-all_received_by_client :
    (id : ℕ) (msgs : List Message) → length (all_received_by_client id msgs) ≡ length msgs
length-all_received_by_client id [] = refl
length-all_received_by_client id (msg ∷ more) =
    ap (λ n. suc n) (length-all_received_by_client id more)

-- What `Recv` gives of a stream that has these messages behind those that were pending.
recv_each-Queues :
    (id n : ℕ) (s after : Stream) (got : List Message)
    → Queues id s after got
    → length got ≡ n
    → (t : Stream) × (recv_each (length (pending s) + n) after ≡ some (pending s ++ got, t))
      × (pending t ≡ [])
recv_each-Queues id n s after got queued e =
    let (t, gives, left) =
      recv_each-pending (pending s ++ got) [] after queued.still.queue queued.still.live
        (queued.behind ∙ sym (append-nil (pending s ++ got))) in
    (t, ap (λ k. recv_each k after) (omega (arith, length-append (pending s) got, e)) ∙ gives, left)

-- A client sends messages on an open stream, one after the other, over a connection with
-- room for them, on which anything may have been written and read before. The server has an open stream of the same id,
-- as addMsg and Recv leave it, and admits the messages, none of which closes the stream. After as
-- many rounds as there are messages, the server's loop has taken exactly their bytes off the
-- connection and changed nothing but that stream; and calls of `Recv` on it, without a deadline,
-- give the messages that were pending and then those that were sent, in this order, with their
-- bodies, after which none is pending. The id, the flags and the lengths of the bodies must fit
-- into their fields.
pub recv_each-send_each :
    {C S : Type 0} (write_all : WriteAll) (limits : Limits) (clone_slice : Bytes → Bytes)
    (sprint : ℤ → Bytes) (background : C) (addr : Bytes) (mux : MuxOps (Handler C) S)
    (sent s : Stream) (msgs : List Message) (sink : Sink) (c : Conn C S) (rest : Bytes)
    → WritesAll write_all
    → Clones clone_slice
    → sent.req_id < 2 ^ 64
    → sent.closed ≡ false
    → length (wires sent.req_id msgs) ≤ sink.room
    → All (IsAdmitted limits) msgs
    → lookup sent.req_id c.streams ≡ some s
    → IsOpen sent.req_id s
    → (after : Stream) × (t : Stream) × (frames write_all limits clone_slice sprint background addr
          mux
          (length msgs)
          (record c { input = since sink (send_each write_all sent msgs sink) ++ rest })
        ≡ goes_on (record c { input = rest; streams = insert sent.req_id after c.streams }))
      × (recv_each (length (pending s) + length msgs) after
          ≡ some (pending s ++ all_received sent.req_id msgs, t))
      × (pending t ≡ [])
recv_each-send_each write_all limits clone_slice sprint background addr mux sent s msgs sink c rest
      total cl hi open_ fits ok there q =
    let written = send_each-Takes write_all total sent msgs sink open_ fits in
    let (after, runs, queued) =
      frames-Queues write_all limits clone_slice sprint background addr mux msgs c sent.req_id s
        rest cl hi there q ok in
    let (t, gives, left) =
      recv_each-Queues sent.req_id (length msgs) s after (all_received sent.req_id msgs) queued
        (length-all_received sent.req_id msgs) in
    (
      after,
      t,
      ap
            (λ b.
              frames write_all limits clone_slice sprint background addr mux (length msgs)
                (record c { input = b ++ rest }))
            (since-append sink (send_each write_all sent msgs sink) (wires sent.req_id msgs)
              written.bytes)
          ∙ runs,
      gives,
      left,
    )

-- The other way: a handler of the server sends messages on an open stream, one after the other,
-- over a connection with room for them, on which anything may have been written and read before. The client has an
-- open stream of the same id, as addMsg and Recv leave it, and none of the messages closes the
-- stream. After as many rounds as there are messages, the client's loop has taken exactly their
-- bytes off the connection and changed nothing but that stream; and calls of `Recv` on it,
-- without a deadline, give the messages that were pending and then those that were sent, in this
-- order, with their bodies (an empty one is no body), after which none is pending. The id, the
-- flags and the lengths of the bodies must fit into their fields.
pub recv_each-turns :
    {C : Type 0} (write_all : WriteAll) (sent s : Stream) (msgs : List Message) (sink : Sink)
    (c : Client C) (rest : Bytes)
    → WritesAll write_all
    → sent.req_id < 2 ^ 64
    → sent.closed ≡ false
    → length (wires sent.req_id msgs) ≤ sink.room
    → All IsMessage msgs
    → lookup sent.req_id c.streams ≡ some s
    → IsOpen sent.req_id s
    → (after : Stream) × (t : Stream) × (turns write_all
          (length msgs)
          (record c { input = since sink (send_each write_all sent msgs sink) ++ rest })
        ≡ continues (record c { input = rest; streams = insert sent.req_id after c.streams }))
      × (recv_each (length (pending s) + length msgs) after
          ≡ some (pending s ++ all_received_by_client sent.req_id msgs, t))
      × (pending t ≡ [])
recv_each-turns write_all sent s msgs sink c rest total hi open_ fits ok there q =
    let written = send_each-Takes write_all total sent msgs sink open_ fits in
    let (after, runs, queued) = turns-Queues write_all msgs c sent.req_id s rest hi there q ok in
    let (t, gives, left) =
      recv_each-Queues sent.req_id (length msgs) s after (all_received_by_client sent.req_id msgs)
        queued (length-all_received_by_client sent.req_id msgs) in
    (
      after,
      t,
      ap (λ b. turns write_all (length msgs) (record c { input = b ++ rest }))
            (since-append sink (send_each write_all sent msgs sink) (wires sent.req_id msgs)
              written.bytes)
          ∙ runs,
      gives,
      left,
    )
