-- ===== src/Exchange/Turns.antt =====
-- What the loop of a client (go/client.go) makes of the messages of a stream.
use Prim.Native.Nat.{bit_or}
use jtrpc.Common.{
  ℕ, zero, suc, ◌<◌, ◌^◌, ◌≡◌, refl, sym, ap, ◌∙◌, false, Option, none, some, List, [], ◌∷◌, ◌++◌,
  append_assoc, All, Bytes, length, arith,
}
use jtrpc.Common.Int.{pos, int64_small}
use jtrpc.Common.Maps.{lookup, insert, lookup-insert_self, insert-insert_self, insert_same, nat_key}
use jtrpc.Wire.RoundTrip.{le8, get8-le8, length-le8}
use jtrpc.Flags.{flag_stream_msg, has_close_flag}
use jtrpc.Flags.Tables.{flag_stream_msg_set}
use jtrpc.Io.{WriteAll}
use jtrpc.Io.Laws.{read_full-append, copy_n-append}
use jtrpc.Message.{Message, message_body}
use jtrpc.Request.Heads.{front, length-front, byte_at-front}
use jtrpc.Response.RoundTrip.{suc_ne_zero}
use jtrpc.Stream.{Stream, add_msg}
use jtrpc.Client.{Client, Turn, continues, breaks, dies}
use jtrpc.Client.Receive.{handle_stream_msg, pass_on, added_to, round}
use jtrpc.Exchange.Wires.{wire, wires}
use jtrpc.Exchange.Queued.{IsOpen, Queues, same-Queues, Queues-append, add_msg-Queues, wire-front}

-- The next round, where this one goes on.
abbrev pub then_turn : {C : Type 0} → Turn C → (Client C → Turn C) → Turn C
then_turn (continues c) k = k c
then_turn (breaks c e) k = breaks c e
then_turn dies k = dies

-- A message that does not close its stream.
abbrev pub IsMessage : Message → Type 0
IsMessage msg =
    (msg.flags < 256) × (has_close_flag msg.flags ≡ false) × (length (message_body msg) < 2 ^ 63)

-- The message as a client has it: an empty body is no body.
abbrev pub client_body : Bytes → Option Bytes
client_body [] = none
client_body (x ∷ xs) = some (x ∷ xs)

abbrev pub received_by_client : ℕ → Message → Message
received_by_client id msg = record {
  req_id = id;
  flags = bit_or msg.flags flag_stream_msg;
  body = client_body (message_body msg);
}

abbrev pub all_received_by_client : ℕ → List Message → List Message
all_received_by_client id [] = []
all_received_by_client id (msg ∷ more) = received_by_client id msg ∷ all_received_by_client id more

module _ {C : Type 0} (write_all : WriteAll) where
  -- So many rounds of the loop.
  abbrev pub turns : ℕ → Client C → Turn C
  turns zero c = continues c
  turns (suc n) c = then_turn (round write_all c) (turns n)

  -- `handleStreamMsg` behind the head, on a message that does not close the stream.
  handle_stream_msg-body :
      (c : Client C) (id flags : ℕ) (s : Stream) (body rest : Bytes)
      → has_close_flag flags ≡ false
      → length body < 2 ^ 63
      → handle_stream_msg write_all
          (record c { input = le8 (length body) ++ (body ++ rest) })
          id
          s
          flags
        ≡ added_to
            (record c { input = rest })
            id
            (add_msg s (record { req_id = s.req_id; flags = flags; body = client_body body }))
  unfolding handle_stream_msg pass_on le8
  handle_stream_msg-body c id flags s [] rest hc hb =
      rw (read_full-append 8 (le8 0) rest (sym (length-le8 0)), get8-le8 0 [] (omega arith), hc)
        refl
  handle_stream_msg-body c id flags s (x ∷ xs) rest hc hb =
      rw
        (
          read_full-append 8 (le8 (length (x ∷ xs))) ((x ∷ xs) ++ rest)
              (sym (length-le8 (length (x ∷ xs)))),
          get8-le8 (length (x ∷ xs)) [] (omega arith),
          suc_ne_zero (length xs),
          int64_small (length (x ∷ xs)) hb,
          copy_n-append (pos (length (x ∷ xs))) (x ∷ xs) rest refl,
          hc,
        )
        refl

  -- One round on a connection whose input starts with a message of a stream that the client has.
  round-wire :
      (c : Client C) (id : ℕ) (s : Stream) (msg : Message) (rest : Bytes)
      → id < 2 ^ 64
      → lookup id c.streams ≡ some s
      → IsMessage msg
      → round write_all (record c { input = wire id msg ++ rest })
        ≡ added_to (record c { input = rest }) id (add_msg s (received_by_client s.req_id msg))
  unfolding round le8
  round-wire c id s msg rest hi there (hf, hc, hb) =
      let (msg_, close_) = flag_stream_msg_set msg.flags hf in
      let flags = bit_or msg.flags flag_stream_msg in
      rw
        (
          wire-front id msg rest (omega arith),
          read_full-append 9 (front id flags)
              (le8 (length (message_body msg)) ++ (message_body msg ++ rest))
              (sym (length-front id flags 0 0 0)),
          byte_at-front id flags 0 0 0,
          msg_,
          get8-le8 id (flags ∷ []) hi,
          there,
        )
        (ap
            (λ n.
              handle_stream_msg write_all
                (record c { input = le8 (length (message_body msg)) ++ (message_body msg ++ rest) })
                n s flags)
            (get8-le8 id (flags ∷ []) hi)
          ∙ handle_stream_msg-body c id flags s (message_body msg) rest (close_ ∙ hc) hb)

  -- What a round does to the stream.
  round-Queues :
      (c : Client C) (id : ℕ) (s : Stream) (msg : Message) (rest : Bytes)
      → id < 2 ^ 64
      → lookup id c.streams ≡ some s
      → IsOpen id s
      → IsMessage msg
      → (after : Stream) × (round write_all (record c { input = wire id msg ++ rest })
          ≡ continues (record c { input = rest; streams = insert id after c.streams }))
        × Queues id s after (received_by_client id msg ∷ [])
  unfolding added_to
  round-Queues c id s msg rest hi there q ok =
      let (after, adds, queued) = add_msg-Queues id s (received_by_client id msg) q in
      (
        after,
        round-wire c id s msg rest hi there ok
            ∙ ap
                (λ n.
                  added_to (record c { input = rest }) id (add_msg s (received_by_client n msg)))
                q.named
            ∙ rw adds refl,
        queued,
      )

  -- Messages of a stream that the client has, one after the other on its input: as many rounds take
  -- exactly their bytes and queue them, and change nothing else.
  pub turns-Queues :
      (msgs : List Message) (c : Client C) (id : ℕ) (s : Stream) (rest : Bytes)
      → id < 2 ^ 64
      → lookup id c.streams ≡ some s
      → IsOpen id s
      → All IsMessage msgs
      → (after : Stream) × (turns (length msgs) (record c { input = wires id msgs ++ rest })
          ≡ continues (record c { input = rest; streams = insert id after c.streams }))
        × Queues id s after (all_received_by_client id msgs)
  turns-Queues [] c id s rest hi there q ok = (
    s,
    ap (λ m. continues (record c { input = rest; streams = m }))
        (sym (insert_same id s c.streams there)),
    same-Queues id s q,
  )
  turns-Queues (msg ∷ more) c id s rest hi there q ok =
      let (mid, runs, first) = round-Queues c id s msg (wires id more ++ rest) hi there q ok.0 in
      let (after, goes, last) =
        turns-Queues more (record c { streams = insert id mid c.streams }) id mid rest hi
          (lookup-insert_self id mid c.streams) first.still ok.1 in
      (
        after,
        ap (λ b. turns (length (msg ∷ more)) (record c { input = b }))
              (append_assoc (wire id msg) (wires id more) rest)
            ∙ ap (λ n. then_turn n (turns (length more))) runs
            ∙ goes
            ∙ ap (λ m. continues (record c { input = rest; streams = m }))
                (insert-insert_self id after mid c.streams),
        Queues-append first last,
      )
