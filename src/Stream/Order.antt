-- ===== src/Stream/Order.antt =====
-- The stream as a queue: what addMsg and Recv do where neither runs during the other.
use jtrpc.Common.{
  ℕ, ◌≤◌, ◌≡◌, refl, sym, true, false, none, List, [], ◌∷◌, ◌++◌, append-nil, append_assoc, length,
  length-append, inl, inr, ◌⊎◌, done, arith, Bool-cases,
}
use jtrpc.Message.{Message}
use jtrpc.Stream.{
  Stream, chan_len, has_room, add_loop, add_msg, new_stream, get_closed_err, received, blocks,
  unset, move_msg, take_msg, recv,
}

-- The messages that were added and not yet received, oldest first.
abbrev pub pending : Stream → List Message
pending s = s.chan ++ s.buffer

-- The channel holds at most its 50 messages, and is full whenever some are in the buffer.
pub record IsQueue (s : Stream) : Type 0 where
  pub bounded : length s.chan ≤ chan_len
  pub full : (s.buffer ≡ []) ⊎ (length s.chan ≡ chan_len)

pub new_stream-IsQueue : (id : ℕ) → IsQueue (new_stream id)
unfolding new_stream
new_stream-IsQueue id = record { bounded = omega arith; full = inl refl }

-- With a full channel, `addMsg` appends to the buffer, whatever is in it.
add_loop_full :
    (chan kept es : List Message) (msg : Message)
    → length chan ≡ chan_len
    → add_loop chan kept es msg ≡ done (chan, kept ++ (es ++ msg ∷ []))
unfolding add_loop
add_loop_full chan kept [] msg f = ground arith
add_loop_full chan kept (e ∷ []) msg f = ground arith
add_loop_full chan kept (e ∷ d ∷ rest) msg f = ground arith

add_loop_room :
    (chan : List Message) (msg : Message)
    → has_room chan ≡ true
    → add_loop chan [] [] msg ≡ done (chan ++ msg ∷ [], [])
unfolding add_loop
add_loop_room chan msg room = rw room refl

-- `addMsg` on an open stream whose channel is full whenever some messages are in the buffer adds
-- the message behind the pending ones, neither panics nor returns an error, and leaves such a
-- stream.
pub add_msg-IsQueue :
    (s : Stream) (msg : Message)
    → IsQueue s
    → s.closed ≡ false
    → (t : Stream) × (add_msg s msg ≡ done (t, none))
      × (pending t ≡ pending s ++ msg ∷ [])
      × IsQueue t
      × (t.closed ≡ false)
unfolding add_msg
add_msg-IsQueue s msg q open_ = elim (Bool-cases (has_room s.chan)) [
  | inl room ↦ (
    record s { chan = s.chan ++ msg ∷ []; buffer = [] },
    ground (arith, add_loop_room s.chan msg room),
    ground (arith, append-nil (s.chan ++ msg ∷ []), append-nil s.chan),
    record { bounded = ground (arith, length-append s.chan (msg ∷ [])); full = inl refl },
    open_,
  )
  | inr full ↦ (
    record s { buffer = s.buffer ++ msg ∷ [] },
    ground (arith, add_loop_full s.chan [] s.buffer msg),
    sym (append_assoc s.chan s.buffer (msg ∷ [])),
    record { bounded = q.bounded; full = inr (ground arith) },
    open_,
  )
]

-- `Recv` without a deadline, on an open stream whose channel is full whenever some messages are in
-- the buffer, takes the oldest pending message and leaves such a stream, or waits, exactly if there
-- is none. It does not wait inside `moveMsg`.
pub recv-IsQueue :
    (s : Stream)
    → IsQueue s
    → s.closed ≡ false
    → ((pending s ≡ []) × (recv s unset ≡ blocks))
      ⊎ ((m : Message) × (t : Stream) × (recv s unset ≡ received m t)
          × (pending s ≡ m ∷ pending t)
          × IsQueue t
          × (t.closed ≡ false))
unfolding recv take_msg move_msg get_closed_err
recv-IsQueue s q open_ = take s.chan s.buffer refl refl
  where
    take :
        (chan buffer : List Message)
        → s.chan ≡ chan
        → s.buffer ≡ buffer
        → ((pending s ≡ []) × (take_msg s ≡ blocks))
          ⊎ ((m : Message) × (t : Stream) × (take_msg s ≡ received m t)
              × (pending s ≡ m ∷ pending t)
              × IsQueue t
              × (t.closed ≡ false))
    take [] [] c b = inl (ground arith, ground arith)
    take [] (e ∷ es) c b = absurd (ground arith)
    take (m ∷ ms) [] c b = inr (
      m,
      record s { chan = ms },
      ground arith,
      ground arith,
      record { bounded = ground arith; full = inl b },
      open_,
    )
    take (m ∷ ms) (e ∷ es) c b = inr (
      m,
      record s { chan = ms ++ e ∷ []; buffer = es },
      ground arith,
      ground (arith, append_assoc ms (e ∷ []) es),
      record {
        bounded = ground (arith, length-append ms (e ∷ []));
        full = inr (ground (arith, length-append ms (e ∷ [])));
      },
      open_,
    )
