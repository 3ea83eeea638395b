-- ===== src/Flags/Tables.antt =====
-- Laws of the flags, checked over all bytes, and the classes of HTTP statuses.
use jtrpc.Common.{
  ℕ, zero, suc, ◌≤◌, ◌<◌, ◌≡◌, refl, Bool, true, false, ◌&&◌, ◌⊎◌, ltb, nat_eq, if◌then◌else◌,
  arith,
}
use Prim.Native.Nat.{bit_or}
use jtrpc.Flags.{
  has_stream_flag, has_stream_msg_flag, has_close_flag, set_stream_flag, status_to_http,
  status_bad_version, flag_stream_msg,
}

-- The test holds of every number below the given one.
passes : (ℕ → Bool) → ℕ → Bool
passes test zero = true
passes test (suc k) = if test k then passes test k else false

passes-holds : (test : ℕ → Bool) (k x : ℕ) → x < k → passes test k ≡ true → test x ≡ true
unfolding passes
passes-holds test zero x below ok = absurd (omega arith)
passes-holds test (suc k) x below ok = ground (arith, passes-holds test k x)

abbrev same : Bool → Bool → Bool
same true b = b
same false true = false
same false false = true

same_eq : (a b : Bool) → same a b ≡ true → a ≡ b
same_eq a b h = ground arith

-- `SetStream` decides what `WantsStream` answers, and keeps the other flags of the message.
abbrev stream_flag_ok : Bool → ℕ → Bool
stream_flag_ok b f =
    same (has_stream_flag (set_stream_flag b f)) b
    && (same (has_stream_msg_flag (set_stream_flag b f)) (has_stream_msg_flag f)
        && (same (has_close_flag (set_stream_flag b f)) (has_close_flag f)
            && ltb (set_stream_flag b f) 256))

set_table : passes (stream_flag_ok true) 256 ≡ true
unfolding passes has_stream_flag has_stream_msg_flag has_close_flag set_stream_flag
set_table = refl

clear_table : passes (stream_flag_ok false) 256 ≡ true
unfolding passes has_stream_flag has_stream_msg_flag has_close_flag set_stream_flag
clear_table = refl

-- After `SetStream(b)` the request wants a stream exactly if `b`; the stream-message flag and the
-- close flag are as before, and the flags are still one byte.
pub has_stream_flag-set_stream_flag :
    (b : Bool) (f : ℕ)
    → f < 256
    → (has_stream_flag (set_stream_flag b f) ≡ b)
      × (has_stream_msg_flag (set_stream_flag b f) ≡ has_stream_msg_flag f)
      × (has_close_flag (set_stream_flag b f) ≡ has_close_flag f)
      × (set_stream_flag b f < 256)
has_stream_flag-set_stream_flag true f h =
    ground (arith, passes-holds (stream_flag_ok true) 256 f h set_table)
has_stream_flag-set_stream_flag false f h =
    ground (arith, passes-holds (stream_flag_ok false) 256 f h clear_table)

-- A status below 128 becomes HTTP 200, one from 128 to 191 a client error (but BadVersion, which
-- becomes 505), and one from 192 on the server error 500.
pub status_to_http_class :
    (s : ℕ)
    → s < 256
    → ((s < 128) × (status_to_http s ≡ 200))
      ⊎ (((128 ≤ s)
            × (s < 192)
            × (400 ≤ status_to_http s)
            × ((status_to_http s < 500) ⊎ (s ≡ status_bad_version)))
          ⊎ ((192 ≤ s) × (status_to_http s ≡ 500)))
unfolding status_to_http
status_to_http_class s h = ground arith

-- What `WriteTo` of a message does to its flags.
abbrev msg_flag_ok : ℕ → Bool
msg_flag_ok f =
    has_stream_msg_flag (bit_or f flag_stream_msg)
    && same (has_close_flag (bit_or f flag_stream_msg)) (has_close_flag f)

msg_table : passes msg_flag_ok 256 ≡ true
unfolding passes has_stream_msg_flag has_close_flag
msg_table = refl

-- The flags of a message on the wire say that it is one, and closes the stream exactly if it did
-- before.
pub flag_stream_msg_set :
    (f : ℕ)
    → f < 256
    → (has_stream_msg_flag (bit_or f flag_stream_msg) ≡ true)
      × (has_close_flag (bit_or f flag_stream_msg) ≡ has_close_flag f)
flag_stream_msg_set f h = ground (arith, passes-holds msg_flag_ok 256 f h msg_table)

abbrev twice_ok : ℕ → Bool
twice_ok f =
    nat_eq (bit_or (bit_or f flag_stream_msg) flag_stream_msg) (bit_or f flag_stream_msg)
    && ltb (bit_or f flag_stream_msg) 256

twice_table : passes twice_ok 256 ≡ true
unfolding passes
twice_table = refl

-- The flags of a message that was read off the wire are not changed when it is written again, and
-- are one byte.
pub flag_stream_msg_twice :
    (f : ℕ)
    → f < 256
    → (bit_or (bit_or f flag_stream_msg) flag_stream_msg ≡ bit_or f flag_stream_msg)
      × (bit_or f flag_stream_msg < 256)
flag_stream_msg_twice f h = ground (arith, passes-holds twice_ok 256 f h twice_table)
