-- ===== src/Io.antt =====
-- What the code uses of Go's package io, over byte streams: a reader is the bytes that the peer
-- still sends before it closes its side, a writer (`Sink`) has taken `out` and takes `room` more
-- bytes before it fails.
--
-- utils.WriteAll and utils.CloneSlice of github.com/johnietre/utils/go are not part of this
-- repository: the code that calls them takes them as parameters, with what it relies on as
-- `WritesAll` and `Clones`.
pub mod Laws
use jtrpc.Common.{
  ℕ, zero, suc, ◌+◌, ◌-◌, ◌*◌, ◌/◌, ◌≡◌, Bool, true, false, Option, none, some, List, [], ◌∷◌, ◌++◌,
  Bytes, length, take, drop, ltb, leb, nat_eq, if◌then◌else◌,
}
use jtrpc.Common.Int.{ℤ, pos, negsuc, gtz, count_of}

-- The errors that the modelled code returns or passes on.
pub data Error : Type 0 where
  eof unexpected_eof write_failed : Error
  body_too_large timed_out client_closed : Error

-- The result of a read: the bytes that were read, the rest of the stream, and the error if any.
pub record Reading : Type 0 where
  pub got : Bytes
  pub rest : Bytes
  pub failure : Option Error

-- io.ReadFull into a buffer of `n` bytes.
unfoldable pub read_full : ℕ → Bytes → Reading
read_full n [] = record { got = []; rest = []; failure = if nat_eq n 0 then none else some eof }
read_full n (b ∷ r) =
    if leb n (length (b ∷ r))
    then record { got = take n (b ∷ r); rest = drop n (b ∷ r); failure = none }
    else record { got = b ∷ r; rest = []; failure = some unexpected_eof }

-- io.CopyN from a stream: a negative count copies nothing and gives no error.
unfoldable pub copy_n : ℤ → Bytes → Reading
copy_n n r =
    if leb (count_of n) (length r)
    then record { got = take (count_of n) r; rest = drop (count_of n) r; failure = none }
    else record { got = r; rest = []; failure = some eof }

pub record Sink : Type 0 where
  pub out : Bytes
  pub room : ℕ

-- The result of a write: the writer, how many bytes it took, and the error if any.
pub record Written : Type 0 where
  pub sink : Sink
  pub n : ℕ
  pub failure : Option Error

-- `w.Write(b)`
unfoldable pub write : Sink → Bytes → Written
write s b =
    if leb (length b) s.room
    then record {
      sink = record { out = s.out ++ b; room = s.room - length b };
      n = length b;
      failure = none;
    }
    else record {
      sink = record { out = s.out ++ take s.room b; room = 0 };
      n = s.room;
      failure = some write_failed;
    }

-- utils.WriteAll writes the whole slice or fails.
abbrev pub WriteAll : Type 0
WriteAll = Sink → Bytes → Written

abbrev pub WritesAll : WriteAll → Type 0
WritesAll write_all = (s : Sink) (b : Bytes) → write_all s b ≡ write s b

-- utils.CloneSlice gives a slice with the same bytes.
abbrev pub Clones : (Bytes → Bytes) → Type 0
Clones clone_slice = (b : Bytes) → clone_slice b ≡ b

-- The result of io.CopyN from a buffer to a writer: what is left in the buffer, too.
pub record Copying : Type 0 where
  pub written : Written
  pub left : Bytes

-- io.Copy moves chunks of at most 32 KiB, and has taken a chunk out of the buffer when its write
-- fails.
abbrev chunk : ℕ
chunk = 0x8000

short_copy : ℤ → Bytes → Option Error → Option Error
short_copy n b none = if ltb (length b) (count_of n) then some eof else none
short_copy n b (some e) = some e

left_behind : ℤ → Bytes → Written → Bytes
left_behind n b w = elim w.failure [
  | none ↦ drop (count_of n) b
  | some e ↦ drop (chunk * (w.n / chunk + 1)) (take (count_of n) b) ++ drop (count_of n) b
]

-- io.CopyN(w, b, n)
unfoldable pub copy_to : Sink → Bytes → ℤ → Copying
unfolding short_copy left_behind
copy_to s b n =
    let w = write s (take (count_of n) b) in
    record { written = record w { failure = short_copy n b w.failure }; left = left_behind n b w }

copy_unless : Option Error → Written → Bytes → ℤ → Copying
copy_unless (some e) w b n = record { written = w; left = b }
copy_unless none w b n =
    let c = copy_to w.sink b n in record c { written = record c.written { n = w.n + c.written.n } }

-- `if n, err = utils.WriteAll(w, buf); err == nil { ... io.CopyN(w, b, n) ... }`: the body goes
-- behind the head only where the head was written, and the counts are added.
unfoldable pub copy_after : Written → Bytes → ℤ → Copying
unfolding copy_unless
copy_after w b n = copy_unless w.failure w b n
