-- ===== src/Response/ReadAll.antt =====
-- go/req_resp.go, BodyBytes and BodyString: reading a body to its end.
--
-- io.ReadAll calls Read until it gives an error, each time with a buffer that has some room: how
-- much is the parameter `room`, by the rounds that are left.
use jtrpc.Common.{
  ℕ, zero, suc, ◌+◌, ◌<◌, ◌≡◌, inl, inr, refl, ap, Option, none, some, [], ◌++◌, Bytes, length,
  length-append, length-take, Option-cases, Outcome, done, stuck, ◌>>=◌, arith,
}
use jtrpc.Io.{Error, eof, unexpected_eof, write_failed, body_too_large, timed_out, client_closed}
use jtrpc.Response.{Counter, counter_bytes, read_counter, Response}
use jtrpc.Response.BodyReader.{read_counter-ReadsOn}
use jtrpc.Response.RoundTrip.{response_body}

-- What io.ReadAll gives, and the reader afterwards.
pub record AllRead : Type 0 where
  pub reader : Counter
  pub got : Bytes
  pub failure : Option Error

-- The end of the body is no error.
abbrev pub unless_eof : Error → Option Error
unless_eof eof = none
unless_eof unexpected_eof = some unexpected_eof
unless_eof write_failed = some write_failed
unless_eof body_too_large = some body_too_large
unless_eof timed_out = some timed_out
unless_eof client_closed = some client_closed

abbrev pub prepend : Bytes → AllRead → AllRead
prepend b r = record r { got = b ++ r.got }

-- io.ReadAll in at most so many rounds.
unfoldable pub read_all : (ℕ → ℕ) → ℕ → Counter → Outcome AllRead
read_all room zero c = stuck
read_all room (suc n) c =
    let (c', b, e) = read_counter c (room n) in
    let rest = read_all room n c' in
    elim e [
      | some err ↦ done (record { reader = c'; got = b; failure = unless_eof err })
      | none ↦ rest >>= λ r. done (prepend b r)
    ]

-- One `Read` into a buffer with room: the body was at its end, or some of it was read.
data Next (c : Counter) (p : ℕ) : Type 0 where
  ended : read_counter c p ≡ (c, [], some eof) → counter_bytes c ≡ [] → Next c p
  went_on :
      (c' : Counter) (b : Bytes)
      → read_counter c p ≡ (c', b, none)
      → b ++ counter_bytes c' ≡ counter_bytes c
      → 0 < length b
      → Next c p

-- The fields of the first lines of `read_counter`, told apart by the error.
read_counter-none :
    (c : Counter) (p : ℕ) → 0 < p → (read_counter c p).2 ≡ none → 0 < length (read_counter c p).1
unfolding read_counter
read_counter-none c p h e = ground (arith, length-take p c.src, length-take c.len c.src)

read_counter-some :
    (c : Counter) (p : ℕ) (e : Error)
    → (read_counter c p).2 ≡ some e
    → read_counter c p ≡ (c, [], some eof)
unfolding read_counter
read_counter-some c p e h = ground arith

next : (c : Counter) (p : ℕ) → 0 < p → Next c p
next c p h = elim (Option-cases (read_counter c p).2) [
  | inl none_ ↦
      went_on (read_counter c p).0 (read_counter c p).1
        (ap (λ e. ((read_counter c p).0, (read_counter c p).1, e)) none_)
        (read_counter-ReadsOn c p).splits (read_counter-none c p h none_)
  | inr (e, some_) ↦
      let at_end = read_counter-some c p e some_ in
      ended at_end ((read_counter-ReadsOn c p).ends.0 (ap (λ r. r.2) at_end))
]

-- io.ReadAll of a body, with rooms that are not zero, ends after at most one round more than the
-- body has bytes: it gives the whole body and no error, and leaves a reader at its end.
pub read_all-total :
    (room : ℕ → ℕ) (n : ℕ) (c : Counter)
    → ((k : ℕ) → 0 < room k)
    → length (counter_bytes c) < n
    → (c' : Counter) × (read_all room n c
        ≡ done (record { reader = c'; got = counter_bytes c; failure = none }))
      × (counter_bytes c' ≡ [])
unfolding read_all
read_all-total room zero c pos h = absurd (omega arith)
read_all-total room (suc n) c pos h = elim (next c (room n) (pos n)) [
  | ended e none_left ↦ (c, ground (arith, e, none_left), none_left)
  | went_on c' b e splits some_read ↦
      let (c'', runs, at_end) =
        read_all-total room n c' pos
          (omega (arith, ap length splits, length-append b (counter_bytes c'))) in
      (c'', ground (arith, e, runs, splits), at_end)
]

-- The response afterwards, and what `BodyBytes` or `BodyString` returns.
pub record BodyRead (C : Type 0) : Type 0 where
  pub resp : Response C
  pub got : Bytes
  pub failure : Option Error

module _ {C : Type 0} (room : ℕ → ℕ) where
  -- `BodyBytes`, in at most so many rounds.
  unfoldable pub body_bytes : ℕ → Response C → Outcome (BodyRead C)
  body_bytes n r = elim r.body [
    | none ↦ done (record { resp = r; got = []; failure = none })
    | some c ↦ read_all room n c >>= λ a.
        done (record { resp = record r { body = some a.reader }; got = a.got; failure = a.failure })
  ]

  -- What `BodyString` makes of it: on an error the text is empty.
  abbrev pub or_empty : BodyRead C → BodyRead C
  or_empty b = elim b.failure [ none ↦ b | some e ↦ record b { got = [] } ]

  -- `BodyString`, with rounds enough for the body.
  unfoldable pub body_string : Response C → Outcome (BodyRead C)
  body_string r = body_bytes (length (response_body r.body) + 1) r >>= λ b. done (or_empty b)

  -- `BodyString` returns the whole body, and the next call would return the empty text.
  pub body_string-total :
      (r : Response C)
      → ((k : ℕ) → 0 < room k)
      → (after : Response C) × (body_string r
          ≡ done (record { resp = after; got = response_body r.body; failure = none }))
        × (response_body after.body ≡ [])
  unfolding body_string body_bytes
  body_string-total r pos = elim (Option-cases r.body) [
    | inl absent ↦ (r, ground (arith, absent), rw absent refl)
    | inr (c, there) ↦
        let (c', runs, at_end) =
          read_all-total room (length (counter_bytes c) + 1) c pos (omega arith) in
        (record r { body = some c' }, ground (arith, there, runs), at_end)
  ]
