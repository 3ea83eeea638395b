-- ===== src/Message.antt =====
-- go/stream.go, the type Message: creation, the body's accessors and WriteTo.
pub mod RoundTrip
use Prim.Native.Nat.{bit_or}
use jtrpc.Common.{ℕ, Option, none, some, List, [], ◌∷◌, ◌++◌, Bytes, length, set, replicate}
use jtrpc.Common.Int.{int_of}
use jtrpc.Wire.{u64, place8}
use jtrpc.Flags.{flag_stream_msg}
use jtrpc.Io.{Sink, Written, WriteAll, copy_after}

pub record Message : Type 0 where
  pub req_id : ℕ
  pub flags : ℕ
  pub body : Option Bytes

-- `Message{}`
abbrev pub empty_message : Message
empty_message = record { req_id = 0; flags = 0; body = none }

-- `NewMessage`
unfoldable pub new_message : Bytes → Message
new_message body = record { req_id = 0; flags = 0; body = some body }

-- `BodyBytes` and `BodyString`; no body gives no bytes.
unfoldable pub message_body : Message → Bytes
message_body msg = elim msg.body [ none ↦ [] | some b ↦ b ]

-- `SetBodyBytes` and `SetBodyString`
unfoldable pub set_message_body : Message → Bytes → Message
set_message_body msg b = record msg { body = some b }

-- The first 17 bytes, from the message with its flag set.
unfoldable pub message_head : Message → Bytes
message_head msg =
    let b = set (place8 (replicate 17 0) 0 msg.req_id) 8 msg.flags in
    elim msg.body [ none ↦ b | some body ↦ place8 b 9 (u64 (length body)) ]

-- The body, if there is one, goes behind the head; with what is left of it.
send_body : Option Bytes → Written → Option Bytes × Written
send_body none w = (none, w)
send_body (some b) w = let c = copy_after w b (int_of (length b)) in (some c.left, c.written)

-- `WriteTo`: the message with what is left of its body, and what was written. The flag is set in a
-- copy.
unfoldable pub write_message : WriteAll → Message → Sink → Message × Written
unfolding send_body
write_message write_all msg s =
    let flagged = record msg { flags = bit_or msg.flags flag_stream_msg } in
    let (left, w) = send_body msg.body (write_all s (message_head flagged)) in
    (record msg { body = left }, w)
