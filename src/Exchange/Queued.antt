-- ===== src/Exchange/Queued.antt =====
-- A stream on the receiving side (go/stream.go), and the two parts of a message's head in which it is
-- read.
use Prim.Native.Nat.{bit_or}
use jtrpc.Common.{
  ℕ, ◌<◌, ◌^◌, ◌≡◌, sym, ap, ◌∙◌, false, none, List, [], ◌∷◌, ◌++◌, append-nil, append_assoc, Bytes,
  length, done, arith,
}
use jtrpc.Common.Maps.{nat_key}
use jtrpc.Wire.RoundTrip.{le8, u64_small}
use jtrpc.Flags.{flag_stream_msg}
use jtrpc.Message.{Message, message_body}
use jtrpc.Request.Heads.{front}
use jtrpc.Stream.{Stream, add_msg}
use jtrpc.Stream.Order.{pending, IsQueue, add_msg-IsQueue}
use jtrpc.Exchange.Wires.{wire}

add_msg-req_id :
    (s t : Stream) (msg : Message) → add_msg s msg ≡ done (t, none) → t.req_id ≡ s.req_id
unfolding add_msg
add_msg-req_id s t msg h = ground arith

-- An open stream that is a queue.
pub record IsOpen (id : ℕ) (s : Stream) : Type 0 where
  pub named : s.req_id ≡ id
  pub queue : IsQueue s
  pub live : s.closed ≡ false

-- `after` is the stream `s` with these messages behind those that were pending.
pub record Queues (id : ℕ) (s after : Stream) (got : List Message) : Type 0 where
  pub behind : pending after ≡ pending s ++ got
  pub still : IsOpen id after

pub same-Queues : (id : ℕ) (s : Stream) → IsOpen id s → Queues id s s []
same-Queues id s q = record { behind = sym (append-nil (pending s)); still = q }

pub Queues-append :
    {id : ℕ} {s mid after : Stream} {got more : List Message}
    → Queues id s mid got
    → Queues id mid after more
    → Queues id s after (got ++ more)
Queues-append {s} {got} {more} first last = record {
  behind =
      last.behind
      ∙ ap (λ (ms : List Message). ms ++ more) first.behind
      ∙ append_assoc (pending s) got more;
  still = last.still;
}

-- `addMsg` on such a stream.
pub add_msg-Queues :
    (id : ℕ) (s : Stream) (msg : Message)
    → IsOpen id s
    → (after : Stream) × (add_msg s msg ≡ done (after, none)) × Queues id s after (msg ∷ [])
add_msg-Queues id s msg q =
    let (after, adds, behind, queue, live) = add_msg-IsQueue s msg q.queue q.live in
    (
      after,
      adds,
      record {
        behind = behind;
        still = record {
          named = add_msg-req_id s after msg adds ∙ q.named;
          queue = queue;
          live = live;
        };
      },
    )

pub wire-front :
    (id : ℕ) (msg : Message) (rest : Bytes)
    → length (message_body msg) < 2 ^ 64
    → wire id msg ++ rest
      ≡ front id (bit_or msg.flags flag_stream_msg)
        ++ (le8 (length (message_body msg)) ++ (message_body msg ++ rest))
unfolding le8 message_body
wire-front id msg rest h =
    ap (λ n. front id (bit_or msg.flags flag_stream_msg) ++ (le8 n ++ (message_body msg ++ rest)))
      (u64_small (length (message_body msg)) h)
