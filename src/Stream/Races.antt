-- ===== src/Stream/Races.antt =====
-- What addMsg does while a Recv is between its receive and its call of moveMsg, and what Recv does
-- on a stream that was closed with messages in its buffer.
use jtrpc.Common.{
  suc, ◌<◌, ◌≡◌, refl, true, false, none, List, [], ◌∷◌, ◌++◌, append_assoc, arith, length,
  length-append, done, panics,
}
use jtrpc.Message.{Message}
use jtrpc.Stream.{Stream, chan_len, add_loop, add_msg, crashes, unset, move_msg, take_msg, recv}

-- `Recv` on a closed stream panics as long as there are messages in the channel and in the buffer:
-- `moveMsg` sends on the closed channel.
pub recv_closed_crashes :
    (s : Stream) (m e : Message) (ms es : List Message)
    → s.closed ≡ true
    → s.chan ≡ m ∷ ms
    → s.buffer ≡ e ∷ es
    → recv s unset ≡ crashes
unfolding recv take_msg move_msg
recv_closed_crashes s m e ms es c h k = ground arith

-- While one message stands in the buffer and the channel has room, `addMsg` panics.
pub add_msg_crashes :
    (s : Stream) (e msg : Message)
    → s.closed ≡ false
    → s.buffer ≡ e ∷ []
    → length s.chan < chan_len
    → add_msg s msg ≡ panics
unfolding add_msg add_loop
add_msg_crashes s e msg open_ b room = ground arith

-- With two of them, it sends the first, keeps the second, and puts the new message in the channel
-- before it: the second and the new message have changed places.
pub add_msg_reorders :
    (s : Stream) (d e msg : Message)
    → s.closed ≡ false
    → s.buffer ≡ d ∷ e ∷ []
    → suc (length s.chan) < chan_len
    → (t : Stream) × (add_msg s msg ≡ done (t, none))
      × (t.chan ≡ s.chan ++ d ∷ msg ∷ [])
      × (t.buffer ≡ e ∷ [])
unfolding add_msg add_loop
add_msg_reorders s d e msg open_ b room = (
  record s { chan = s.chan ++ d ∷ msg ∷ []; buffer = e ∷ [] },
  ground (arith, length-append s.chan (d ∷ []), append_assoc s.chan (d ∷ []) (msg ∷ [])),
  refl,
  refl,
)
