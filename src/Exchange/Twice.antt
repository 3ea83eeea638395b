-- ===== src/Exchange/Twice.antt =====
-- Messages of a stream (go/stream.go) that were read by a client (go/client.go) and are sent again.
use jtrpc.Common.{ℕ, ◌≡◌, refl, sym, ap, ◌∙◌, List, [], ◌∷◌, ◌++◌, All, Bytes, length, arith}
use jtrpc.Common.Maps.{nat_key}
use Prim.Native.Nat.{bit_or}
use jtrpc.Wire.{u64}
use jtrpc.Wire.RoundTrip.{le8}
use jtrpc.Flags.{flag_stream_msg}
use jtrpc.Flags.Tables.{flag_stream_msg_set, flag_stream_msg_twice}
use jtrpc.Message.{Message, message_body}
use jtrpc.Exchange.Wires.{wire, wires}
use jtrpc.Exchange.Turns.{IsMessage, client_body, received_by_client, all_received_by_client}

message_body-client_body :
    (id flags : ℕ) (b : Bytes)
    → message_body (record { req_id = id; flags = flags; body = client_body b }) ≡ b
unfolding message_body
message_body-client_body id flags [] = refl
message_body-client_body id flags (x ∷ xs) = refl

-- A message that was received is one that may be sent.
received_by_client-IsMessage :
    (id : ℕ) (msg : Message) → IsMessage msg → IsMessage (received_by_client id msg)
received_by_client-IsMessage id msg (hf, hc, hb) = (
  (flag_stream_msg_twice msg.flags hf).1,
  (flag_stream_msg_set msg.flags hf).1 ∙ hc,
  omega (
    arith,
    ap length (message_body-client_body id (bit_or msg.flags flag_stream_msg) (message_body msg)),
  ),
)

pub all_received_by_client-IsMessage :
    (id : ℕ) (msgs : List Message)
    → All IsMessage msgs
    → All IsMessage (all_received_by_client id msgs)
all_received_by_client-IsMessage id [] tt = tt
all_received_by_client-IsMessage id (msg ∷ more) (ok, oks) =
    (received_by_client-IsMessage id msg ok, all_received_by_client-IsMessage id more oks)

-- Received twice is received once, under the later id.
received_by_client_twice :
    (id id' : ℕ) (msg : Message)
    → IsMessage msg
    → received_by_client id' (received_by_client id msg) ≡ received_by_client id' msg
received_by_client_twice id id' msg (hf, hc, hb) =
    let flags = bit_or msg.flags flag_stream_msg in
    ap
      (λ (b : Bytes). record {
        req_id = id';
        flags = bit_or flags flag_stream_msg;
        body = client_body b;
      })
      (message_body-client_body id flags (message_body msg))
    ∙ ap (λ f. record { req_id = id'; flags = f; body = client_body (message_body msg) })
        (flag_stream_msg_twice msg.flags hf).0

abbrev wire_of : ℕ → ℕ → Bytes → Bytes
wire_of id flags body = (le8 id ++ bit_or flags flag_stream_msg ∷ le8 (u64 (length body))) ++ body

wire_lem : (id : ℕ) (msg : Message) → wire id msg ≡ wire_of id msg.flags (message_body msg)
unfolding message_body
wire_lem id msg = refl

wire-received_by_client :
    (id id' : ℕ) (msg : Message)
    → IsMessage msg
    → wire id' (received_by_client id msg) ≡ wire id' msg
wire-received_by_client id id' msg (hf, hc, hb) =
    let flags = bit_or msg.flags flag_stream_msg in
    wire_lem id' (received_by_client id msg)
    ∙ ap (wire_of id' flags) (message_body-client_body id flags (message_body msg))
    ∙ ap (λ f. (le8 id' ++ f ∷ le8 (u64 (length (message_body msg)))) ++ message_body msg)
        (flag_stream_msg_twice msg.flags hf).0
    ∙ sym (wire_lem id' msg)

pub wires-all_received_by_client :
    (id id' : ℕ) (msgs : List Message)
    → All IsMessage msgs
    → wires id' (all_received_by_client id msgs) ≡ wires id' msgs
wires-all_received_by_client id id' [] oks = refl
wires-all_received_by_client id id' (msg ∷ more) (ok, oks) =
    rw (wire-received_by_client id id' msg ok, wires-all_received_by_client id id' more oks) refl

pub all_received_by_client_twice :
    (id id' : ℕ) (msgs : List Message)
    → All IsMessage msgs
    → all_received_by_client id' (all_received_by_client id msgs) ≡ all_received_by_client id' msgs
all_received_by_client_twice id id' [] oks = refl
all_received_by_client_twice id id' (msg ∷ more) (ok, oks) =
    rw (received_by_client_twice id id' msg ok, all_received_by_client_twice id id' more oks) refl
