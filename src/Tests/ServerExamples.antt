-- ===== src/Tests/ServerExamples.antt =====
-- The server on small inputs.
use jtrpc.Common.{
  inl, ℕ, ◌≡◌, refl, true, false, Option, none, some, [], ◌∷◌, ◌++◌, Bytes, bytes_eq, arith,
  if◌then◌else◌,
}
use jtrpc.Common.Int.{ℤ, pos}
use jtrpc.Common.Maps.{lookup, insert, nat_key}
use jtrpc.Wire.RoundTrip.{le8}
use jtrpc.Flags.{has_stream_msg_flag, has_stream_flag, status_not_found}
use jtrpc.Request.{Request}
use jtrpc.Request.RoundTrip.{head_bytes}
use jtrpc.Response.{new_response, write_status}
use jtrpc.Server.{Limits, Handler, MuxOps, Job, runs, Conn, goes_on, run_job}
use jtrpc.Server.Requests.{frame, answer_not_stream}
use jtrpc.Request.Heads.{front}
use jtrpc.Mux.Chain.{inside}
use jtrpc.Server.Dispatch.{entry, fresh, starting, frame-starts, frame-not_found, frame-not_stream}
use jtrpc.Server.Jobs.{AllServed}
use jtrpc.Server.Served.{Reaches, here, reads, works, Reaches-AllServed}
use jtrpc.Tests.{write_once, same_slice, same_slice-Clones, key_a, key_b, roomy}

abbrev limits : Limits
limits = record { max_body_len = pos 100; max_stream_body_len = pos 100 }

-- One regular handler, under `key_a`, which sets the status 1.
abbrev teapot : Handler Unit
teapot req resp = (req, record resp { status = 1 })

abbrev at_a : Bytes → Option (Handler Unit)
at_a path = if bytes_eq path key_a then some teapot else none

abbrev mux : MuxOps (Handler Unit) ℕ
mux = record {
  handler_at = at_a;
  middleware_at = λ path. none;
  stream_handler_at = λ path. none;
  stream_middleware_at = λ path. none;
  global_middleware = none;
  regular_middleware = none;
  all_stream_middleware = none;
}

abbrev decimal : ℤ → Bytes
decimal n = []

abbrev idle : Conn Unit ℕ
idle = record { input = []; sink = roomy; reqs = []; streams = []; jobs = [] }

no_flags : (has_stream_msg_flag 0 ≡ false) × (has_stream_flag 0 ≡ false)
unfolding has_stream_msg_flag has_stream_flag
no_flags = (refl, refl)

message_flag : has_stream_msg_flag 128 ≡ true
unfolding has_stream_msg_flag
message_flag = refl

at_a_there : at_a key_a ≡ some teapot
unfolding bytes_eq
at_a_there = refl

at_b_not : at_a key_b ≡ none
unfolding bytes_eq
at_b_not = refl

no_streams : lookup 3 idle.streams ≡ none
unfolding lookup
no_streams = refl

abbrev asked : Request Unit
asked = entry tt [] 3 0 key_a [] (b'x' ∷ [])

frame-starts_example :
    frame write_once limits same_slice decimal tt [] mux
      (record idle { input = head_bytes 3 0 key_a [] 1 ++ (b'x' ∷ [] ++ 9 ∷ []) })
    ≡ goes_on
        (starting idle (9 ∷ []) asked (runs (inside mux key_a teapot) asked (fresh 3 0 asked)))
frame-starts_example =
    frame-starts write_once limits same_slice decimal tt [] mux idle 3 0 key_a [] (b'x' ∷ [])
      (9 ∷ []) teapot same_slice-Clones (omega arith) (omega arith) (omega arith) (omega arith)
      no_flags.0 no_flags.1 refl at_a_there

frame-not_found_test :
    frame write_once limits same_slice decimal tt [] mux
      (record idle { input = head_bytes 3 0 key_b [] 1 ++ (b'x' ∷ [] ++ 9 ∷ []) })
    ≡ goes_on (record idle {
      input = 9 ∷ [];
      sink = (write_status write_once 3 status_not_found roomy).sink;
    })
frame-not_found_test =
    frame-not_found write_once limits same_slice decimal tt [] mux idle 3 0 key_b [] (b'x' ∷ [])
      (9 ∷ []) (omega arith) (omega arith) (omega arith) (omega arith) no_flags.0 refl at_b_not refl

frame-not_stream_test :
    frame write_once limits same_slice decimal tt [] mux
      (record idle { input = front 3 128 ++ (le8 1 ++ b'x' ∷ []) })
    ≡ answer_not_stream write_once limits same_slice decimal tt [] mux
        (record idle { input = le8 1 ++ b'x' ∷ [] })
        3
frame-not_stream_test =
    frame-not_stream write_once limits same_slice decimal tt [] mux idle 3 128 (le8 1 ++ b'x' ∷ [])
      (omega arith) message_flag no_streams

abbrev job : Job Unit ℕ
job = runs (inside mux key_a teapot) asked (fresh 3 0 asked)

abbrev before_work : Conn Unit ℕ
before_work = record idle { input = head_bytes 3 0 key_a [] 1 ++ (b'x' ∷ [] ++ 9 ∷ []) }

abbrev at_work : Conn Unit ℕ
at_work = record idle {
  input = 9 ∷ [];
  reqs = insert 3 asked idle.reqs;
  jobs = idle.jobs ++ job ∷ [];
}

before_work-AllServed : AllServed before_work
unfolding lookup
before_work-AllServed id = inl refl

-- The request is read, and its goroutine runs.
served :
    Reaches write_once limits same_slice decimal tt [] mux before_work
      (run_job write_once (record at_work { jobs = [] }) job)
unfolding new_response
served = works [] job [] (reads here frame-starts_example) refl (refl, refl)

Reaches-AllServed_example : AllServed (run_job write_once (record at_work { jobs = [] }) job)
Reaches-AllServed_example =
    Reaches-AllServed write_once limits same_slice decimal tt [] mux served before_work-AllServed
