-- ===== src/Message/RoundTrip.antt =====
-- WriteTo of a message against the wire format of SPEC.v2.md.
use Prim.Native.Nat.{bit_or}
use jtrpc.Common.{ℕ, ◌≡◌, refl, Option, none, some, ◌∷◌, ◌++◌, append-nil, Bytes, length}
use jtrpc.Wire.{u64, place8}
use jtrpc.Wire.RoundTrip.{le8}
use jtrpc.Flags.{flag_stream_msg}
use jtrpc.Io.{Sink, WriteAll, WritesAll, write}
use jtrpc.Io.Laws.{
  WritesPrefix, Delivers, WritesPrefix-Delivers, write-WritesPrefix, copy_after-WritesPrefix,
}
use jtrpc.Message.{Message, message_body, message_head, send_body, write_message}

-- <8-byte id> <flags, the top bit set> <8-byte length> <body>
abbrev pub message_bytes : Message → Bytes
message_bytes msg =
    (le8 msg.req_id ++ bit_or msg.flags flag_stream_msg ∷ le8 (u64 (length (message_body msg))))
    ++ message_body msg

abbrev head_fields : ℕ → ℕ → Option Bytes → Bytes
head_fields id flags body =
    le8 id
    ++ flags
      ∷ le8 (u64 (length (message_body (record { req_id = id; flags = flags; body = body }))))

message_head_lem :
    (id flags : ℕ) (body : Option Bytes)
    → message_head (record { req_id = id; flags = flags; body = body }) ≡ head_fields id flags body
unfolding message_head message_body place8 le8
message_head_lem id flags none = refl
message_head_lem id flags (some b) = refl

pub write_message-WritesPrefix :
    (write_all : WriteAll) (msg : Message) (s : Sink)
    → WritesAll write_all
    → WritesPrefix s (message_bytes msg) (write_message write_all msg s).1
unfolding write_message message_body
write_message-WritesPrefix write_all msg s total =
    rw (total s _, message_head_lem msg.req_id _ msg.body) (behind msg.body)
  where
    head : Option Bytes → Bytes
    head = head_fields msg.req_id (bit_or msg.flags flag_stream_msg)

    behind :
        (body : Option Bytes)
        → WritesPrefix s
            (head body ++ message_body (record msg { body = body }))
            (send_body body (write s (head body))).1
    behind none = rw append-nil (write-WritesPrefix s (head none))
    behind (some b) = copy_after-WritesPrefix s (head (some b)) b _ (write-WritesPrefix s _)

-- `WriteTo` writes a message in the wire format, and returns no error and its length; or it returns
-- an error, the writer has no room for it, and it took the first bytes, as many as are returned and
-- not all.
pub write_message-Delivers :
    (write_all : WriteAll) (msg : Message) (s : Sink)
    → WritesAll write_all
    → Delivers s (message_bytes msg) (write_message write_all msg s).1
write_message-Delivers write_all msg s total =
    WritesPrefix-Delivers (write_message-WritesPrefix write_all msg s total)
