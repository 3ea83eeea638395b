-- ===== src/Exchange/Frames.antt =====
-- What the loop of a server's connection (go/server.go) makes of the messages of a stream.
use Prim.Native.Nat.{bit_or}
use jtrpc.Common.{
  ℕ, zero, suc, ◌<◌, ◌^◌, ◌≡◌, refl, sym, ap, ◌∙◌, false, some, List, [], ◌∷◌, ◌++◌, append_assoc,
  All, Bytes, length, arith,
}
use jtrpc.Common.Int.{ℤ, pos, int64_small, gtz}
use jtrpc.Common.Maps.{lookup, insert, lookup-insert_self, insert-insert_self, insert_same, nat_key}
use jtrpc.Wire.RoundTrip.{le8, get8-le8, length-le8}
use jtrpc.Flags.{flag_stream_msg, has_close_flag}
use jtrpc.Flags.Tables.{flag_stream_msg_set}
use jtrpc.Io.{WriteAll, Clones}
use jtrpc.Io.Laws.{copy_n-append}
use jtrpc.Message.{Message, message_body}
use jtrpc.Request.Heads.{front, length-front, byte_at-front}
use jtrpc.Stream.{Stream, add_msg}
use jtrpc.Server.{Limits, Handler, MuxOps, Conn, Next, goes_on, returns, crashed}
use jtrpc.Server.Messages.{handle_stream_msg, added}
use jtrpc.Server.Requests.{frame}
use jtrpc.Exchange.Wires.{wire, wires}
use jtrpc.Exchange.Queued.{IsOpen, Queues, same-Queues, Queues-append, add_msg-Queues, wire-front}

-- The next round, where this one goes on.
abbrev pub then_round : {C S : Type 0} → Next C S → (Conn C S → Next C S) → Next C S
then_round (goes_on c) k = k c
then_round (returns c e) k = returns c e
then_round crashed k = crashed

-- A message that does not close its stream and whose body a server with these limits admits.
abbrev pub IsAdmitted : Limits → Message → Type 0
IsAdmitted limits msg =
    (msg.flags < 256)
    × (has_close_flag msg.flags ≡ false)
    × (length (message_body msg) < 2 ^ 63)
    × (gtz (pos (length (message_body msg))) limits.max_stream_body_len ≡ false)

-- The message as the peer has it.
abbrev pub received_as : ℕ → Message → Message
received_as id msg = record {
  req_id = id;
  flags = bit_or msg.flags flag_stream_msg;
  body = some (message_body msg);
}

abbrev pub all_received : ℕ → List Message → List Message
all_received id [] = []
all_received id (msg ∷ more) = received_as id msg ∷ all_received id more

module _ {C S : Type 0} (write_all : WriteAll) (limits : Limits) (clone_slice : Bytes → Bytes)
    (sprint : ℤ → Bytes) (background : C) (addr : Bytes) (mux : MuxOps (Handler C) S) where
  -- So many rounds of the loop.
  abbrev pub frames : ℕ → Conn C S → Next C S
  frames zero c = goes_on c
  frames (suc n) c =
      then_round (frame write_all limits clone_slice sprint background addr mux c) (frames n)

  -- One round on a connection whose input starts with a message of a stream that it has.
  frame-wire :
      (c : Conn C S) (id : ℕ) (s : Stream) (msg : Message) (rest : Bytes)
      → Clones clone_slice
      → id < 2 ^ 64
      → lookup id c.streams ≡ some s
      → IsAdmitted limits msg
      → frame write_all limits clone_slice sprint background addr mux
          (record c { input = wire id msg ++ rest })
        ≡ added write_all limits clone_slice
            (record c { input = rest })
            id
            (add_msg s (received_as s.req_id msg))
  unfolding frame handle_stream_msg le8
  frame-wire c id s msg rest cl hi there (hf, hc, hb, small) =
      let (msg_, close_) = flag_stream_msg_set msg.flags hf in
      let flags = bit_or msg.flags flag_stream_msg in
      rw
        (
          wire-front id msg rest (omega arith),
          copy_n-append (pos 9) (front id flags)
              (le8 (length (message_body msg)) ++ (message_body msg ++ rest))
              (sym (length-front id flags 0 0 0)),
          byte_at-front id flags 0 0 0,
          msg_,
          get8-le8 id (flags ∷ []) hi,
          there,
          copy_n-append (pos 8) (le8 (length (message_body msg))) (message_body msg ++ rest)
              (sym (length-le8 (length (message_body msg)))),
          close_,
          hc,
          get8-le8 (length (message_body msg)) [] (omega arith),
          int64_small (length (message_body msg)) hb,
          small,
          copy_n-append (pos (length (message_body msg))) (message_body msg) rest refl,
          cl (message_body msg),
        )
        (ap
          (λ n.
            added write_all limits clone_slice (record c { input = rest }) n
              (add_msg s (received_as s.req_id msg)))
          (get8-le8 id (flags ∷ []) hi))

  -- What a round does to the stream.
  frame-Queues :
      (c : Conn C S) (id : ℕ) (s : Stream) (msg : Message) (rest : Bytes)
      → Clones clone_slice
      → id < 2 ^ 64
      → lookup id c.streams ≡ some s
      → IsOpen id s
      → IsAdmitted limits msg
      → (after : Stream) × (frame write_all limits clone_slice sprint background addr mux
            (record c { input = wire id msg ++ rest })
          ≡ goes_on (record c { input = rest; streams = insert id after c.streams }))
        × Queues id s after (received_as id msg ∷ [])
  unfolding added
  frame-Queues c id s msg rest cl hi there q ok =
      let (after, adds, queued) = add_msg-Queues id s (received_as id msg) q in
      (
        after,
        frame-wire c id s msg rest cl hi there ok
            ∙ ap
                (λ n.
                  added write_all limits clone_slice (record c { input = rest }) id
                    (add_msg s (received_as n msg)))
                q.named
            ∙ rw adds refl,
        queued,
      )

  -- Messages of a stream that the connection has, one after the other on its input: as many rounds
  -- take exactly their bytes and queue them, and change nothing else.
  pub frames-Queues :
      (msgs : List Message) (c : Conn C S) (id : ℕ) (s : Stream) (rest : Bytes)
      → Clones clone_slice
      → id < 2 ^ 64
      → lookup id c.streams ≡ some s
      → IsOpen id s
      → All (IsAdmitted limits) msgs
      → (after : Stream) × (frames (length msgs) (record c { input = wires id msgs ++ rest })
          ≡ goes_on (record c { input = rest; streams = insert id after c.streams }))
        × Queues id s after (all_received id msgs)
  frames-Queues [] c id s rest cl hi there q ok = (
    s,
    ap (λ m. goes_on (record c { input = rest; streams = m }))
        (sym (insert_same id s c.streams there)),
    same-Queues id s q,
  )
  frames-Queues (msg ∷ more) c id s rest cl hi there q ok =
      let (mid, runs, first) = frame-Queues c id s msg (wires id more ++ rest) cl hi there q ok.0 in
      let (after, goes, last) =
        frames-Queues more (record c { streams = insert id mid c.streams }) id mid rest cl hi
          (lookup-insert_self id mid c.streams) first.still ok.1 in
      (
        after,
        ap (λ b. frames (length (msg ∷ more)) (record c { input = b }))
              (append_assoc (wire id msg) (wires id more) rest)
            ∙ ap (λ n. then_round n (frames (length more))) runs
            ∙ goes
            ∙ ap (λ m. goes_on (record c { input = rest; streams = m }))
                (insert-insert_self id after mid c.streams),
        Queues-append first last,
      )
