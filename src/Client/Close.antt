-- ===== src/Client/Close.antt =====
-- go/client.go, closeWithErr and Close; go/server.go, Close of serverConn.
--
-- The maps of streams are behind utils.RWMutex of github.com/johnietre/utils/go, which is not
-- part of this repository. Both functions close streams while they hold that mutex, and closing a
-- stream takes it again. Whether a goroutine can take a mutex that it holds is the parameter
-- `reentrant`; Go's own mutexes block for ever.
use jtrpc.Common.{
  ℕ, ◌≡◌, refl, ap, ◌∙◌, Bool, true, false, not, Option, none, some, List, [], ◌∷◌, ◌++◌, All,
  Bool-cases, inl, inr, if◌then◌else◌, Outcome, done, panics, stuck, ◌>>=◌,
}
use jtrpc.Common.Maps.{nat_key}
use jtrpc.Io.{WriteAll, Sink}
use jtrpc.Message.{empty_message}
use jtrpc.Request.{Request}
use jtrpc.Stream.{Stream, close_with_message}
use jtrpc.Client.{Client, RespChan, close_chan, send_request}

-- How a call ends: the client was closed before, it never ends, or it has closed the client, and
-- these channels.
pub data Closing (C : Type 0) : Type 0 where
  already : Closing C
  deadlocks : Closing C
  closes : Client C → List (ℕ × RespChan C) → Closing C

-- The two mutexes, and whether the goroutine holds them: that of the writer and that of the map of
-- streams.
pub record Locks : Type 0 where
  pub writer : Bool
  pub streams : Bool

abbrev pub no_locks : Locks
no_locks = record { writer = false; streams = false }

-- Whether `Lock` returns to a goroutine that holds the mutex or not.
abbrev pub lock_returns : Bool → Bool → Bool
lock_returns reentrant held = if held then reentrant else true

-- `Lock` of the writer and of the map; `none` if it never returns.
unfoldable pub lock_writer : Bool → Locks → Option Locks
lock_writer reentrant l =
    if lock_returns reentrant l.writer then some (record l { writer = true }) else none

unfoldable pub lock_streams : Bool → Locks → Option Locks
lock_streams reentrant l =
    if lock_returns reentrant l.streams then some (record l { streams = true }) else none

-- `stream.close(tell)` by a goroutine that holds these mutexes: the writer, or `none` if it never
-- returns. A closed stream takes no mutex, an open one that of the map and, to send, the writer's.
unfoldable pub close_stream : WriteAll → Bool → Locks → Bool → Stream → Sink → Option Sink
close_stream write_all reentrant l tell s sink =
    let shut =
      close_with_message {V = Stream} write_all s [] sink tell empty_message empty_message in
    if s.closed then some sink else elim (lock_streams reentrant l) [
      | none ↦ none
      | some _ ↦
          if not tell
          then some shut.sink
          else elim (lock_writer reentrant l) [ none ↦ none | some _ ↦ some shut.sink ]
    ]

-- `for _, stream := range *mp { stream.close(tell) }`
unfoldable pub close_streams :
    WriteAll → Bool → Locks → Bool → List (ℕ × Stream) → Sink → Option Sink
close_streams write_all reentrant l tell [] sink = some sink
close_streams write_all reentrant l tell ((id, s) ∷ more) sink =
    elim (close_stream write_all reentrant l tell s sink) [
      | none ↦ none
      | some sink' ↦ close_streams write_all reentrant l tell more sink'
    ]

close_streams-open :
    (write_all : WriteAll) (l : Locks) (tell : Bool) (m n : List (ℕ × Stream)) (id : ℕ) (s : Stream)
    (sink : Sink)
    → l.streams ≡ true
    → s.closed ≡ false
    → close_streams write_all false l tell (m ++ (id, s) ∷ n) sink ≡ none
unfolding close_streams close_stream lock_streams
close_streams-open write_all l tell [] n id s sink held open_ = rw (open_, held) refl
close_streams-open write_all l tell ((j, t) ∷ m) n id s sink held open_ =
    elim (Bool-cases t.closed) [
      | inl shut ↦ rw shut (close_streams-open write_all l tell m n id s sink held open_)
      | inr other ↦ rw (other, held) refl
    ]

module _ {C : Type 0} where
  -- `for _, rc := range *mp { rc.Close() }`
  unfoldable pub close_chans : List (ℕ × RespChan C) → Outcome (List (ℕ × RespChan C))
  close_chans [] = done []
  close_chans ((id, rc) ∷ more) = do
    r ← close_chan rc
    rest ← close_chans more
    done ((id, r.0) ∷ rest)

  -- `closeWithErr` behind the streams.
  abbrev pub with_chans : Client C → Outcome (List (ℕ × RespChan C)) → Outcome (Closing C)
  with_chans c (done chans) =
      done (closes (record c { closed = true; streams = []; reqs = [] }) chans)
  with_chans c panics = panics
  with_chans c stuck = stuck

  -- `closeWithErr`, and `Close`.
  unfoldable pub close_client : WriteAll → Bool → Client C → Outcome (Closing C)
  close_client write_all reentrant c =
      if c.closed then done already else elim (lock_writer reentrant no_locks) [
        | none ↦ done deadlocks
        | some l ↦ elim (lock_streams reentrant l) [
          | none ↦ done deadlocks
          | some l' ↦ elim (close_streams write_all reentrant l' true c.streams c.sink) [
            | none ↦ done deadlocks
            | some sink ↦ with_chans (record c { sink = sink }) (close_chans c.reqs)
          ]
        ]
      ]

  -- A client that is open and has an open stream, where `Lock` does not return to a goroutine that
  -- holds the mutex: closing the client never ends, whatever other streams and requests it has.
  pub close_client-deadlocks :
      (write_all : WriteAll) (c : Client C) (m n : List (ℕ × Stream)) (id : ℕ) (s : Stream)
      → c.closed ≡ false
      → c.streams ≡ m ++ (id, s) ∷ n
      → s.closed ≡ false
      → close_client write_all false c ≡ done deadlocks
  unfolding close_client lock_writer lock_streams
  close_client-deadlocks write_all c m n id s open_ has live =
      simp (close_client, open_) (rw (ends) refl)
    where
      ends :
          close_streams write_all false
            (record { writer = true; streams = true })
            true
            c.streams
            c.sink
          ≡ none
      ends =
          ap
            (λ ss.
              close_streams write_all false (record { writer = true; streams = true }) true ss
                c.sink)
            has
          ∙ close_streams-open write_all (record { writer = true; streams = true }) true m n id s
              c.sink refl live

  -- The channel of a request that can be closed.
  abbrev pub IsOpen : ℕ × RespChan C → Type 0
  IsOpen (id, rc) = (rc.marked ≡ false) × (rc.ch_closed ≡ false)

  abbrev pub shut_chans : List (ℕ × RespChan C) → List (ℕ × RespChan C)
  shut_chans [] = []
  shut_chans ((id, rc) ∷ more) = (id, record rc { ch_closed = true }) ∷ shut_chans more

  close_chan-open :
      (rc : RespChan C)
      → rc.marked ≡ false
      → rc.ch_closed ≡ false
      → close_chan rc ≡ done (record rc { ch_closed = true }, true)
  unfolding close_chan
  close_chan-open rc m o = simp (close_chan, m, o)

  close_chans-open :
      (rcs : List (ℕ × RespChan C)) → All IsOpen rcs → close_chans rcs ≡ done (shut_chans rcs)
  unfolding close_chans
  close_chans-open [] h = refl
  close_chans-open ((id, rc) ∷ more) h =
      simp (close_chan-open rc h.0.0 h.0.1, close_chans-open more h.1)

  -- A client that is open and has no streams, and no channel of whose requests was closed:
  -- closing it closes the channel of each of its requests, and leaves a closed client without
  -- requests, that sends nothing more.
  pub close_client-closes :
      (write_all : WriteAll) (reentrant : Bool) (c : Client C) (req : Request C)
      → c.closed ≡ false
      → c.streams ≡ []
      → All IsOpen c.reqs
      → (after : Client C) × (close_client write_all reentrant c
          ≡ done (closes after (shut_chans c.reqs)))
        × (after.reqs ≡ [])
        × (send_request write_all after req ≡ (after, none))
        × (close_client write_all reentrant after ≡ done already)
  unfolding close_client close_streams lock_writer lock_streams send_request
  close_client-closes write_all reentrant c req open_ none_ all = (
    record c { closed = true; streams = []; reqs = [] },
    simp (close_client, open_)
        (rw
          (
            ap
                (λ ss.
                  close_streams write_all reentrant (record { writer = true; streams = true }) true
                    ss c.sink)
                none_,
            close_chans-open c.reqs all,
          )
          refl),
    refl,
    refl,
    refl,
  )

-- `Close` of serverConn, behind the closing of its net.Conn: nothing is sent. It gives `none` if it
-- never ends.
unfoldable pub close_server_conn : WriteAll → Bool → List (ℕ × Stream) → Sink → Option Sink
close_server_conn write_all reentrant streams sink = elim (lock_streams reentrant no_locks) [
  | none ↦ none
  | some l ↦ close_streams write_all reentrant l false streams sink
]
