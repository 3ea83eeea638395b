-- ===== src/Tests/ExchangeExamples.antt =====
-- A request and its response between a client and a server, on a small input.
use jtrpc.Common.{ℕ, ◌≤◌, ◌≡◌, refl, false, none, some, [], ◌∷◌, ◌++◌, Bytes, length, arith}
use jtrpc.Common.Int.{ℤ, pos}
use jtrpc.Wire.{place8}
use jtrpc.Flags.{has_stream_msg_flag, has_stream_flag}
use jtrpc.Headers.{encode}
use jtrpc.Request.{Request, encoded_headers, request_head}
use jtrpc.Response.{Response, new_response, response_head}
use jtrpc.Response.RoundTrip.{response_body}
use jtrpc.Client.{Client, RespChan, continues, send_request}
use jtrpc.Client.Receive.{round}
use jtrpc.Client.Dispatch.{response_to}
use jtrpc.Server.{Limits, Handler, MuxOps, Conn, runs, writes, goes_on, run_job}
use jtrpc.Server.Requests.{frame}
use jtrpc.Common.Maps.{insert, nat_key}
use jtrpc.Io.{Sink}
use jtrpc.Io.Laws.{since}
use jtrpc.Mux.Chain.{inside}
use jtrpc.Exchange.{entered, started, left_by, with_entered, with_handled, round-run_job}
use jtrpc.Tests.{write_once, write_once-WritesAll, same_slice, same_slice-Clones, key_a}

abbrev limits : Limits
limits = record { max_body_len = pos 100; max_stream_body_len = pos 100 }

-- A handler that answers with the status 1 and the body x.
abbrev says_x : Handler Unit
says_x req resp = (
  req,
  record resp {
    status = 1;
    body = some (record { src = b'x' ∷ []; len = 1; closed = false });
    body_len = 1;
  },
)

abbrev mux : MuxOps (Handler Unit) ℕ
mux = record {
  handler_at = λ path. some says_x;
  middleware_at = λ path. none;
  stream_handler_at = λ path. none;
  stream_middleware_at = λ path. none;
  global_middleware = none;
  regular_middleware = none;
  all_stream_middleware = none;
}

abbrev decimal : ℤ → Bytes
decimal n = []

-- A writer that was written to before.
abbrev used : Sink
used = record { out = 1 ∷ 2 ∷ []; room = 1000 }

abbrev conn : Conn Unit ℕ
conn = record { input = []; sink = used; reqs = []; streams = []; jobs = [] }

abbrev client : Client Unit
client = record {
  input = [];
  sink = used;
  req_counter = 6;
  reqs = [];
  streams = [];
  closed = false;
}

abbrev request : Request Unit
request = record {
  id = 0;
  ctx = tt;
  remote_addr = [];
  flags = 0;
  path = key_a;
  headers = none;
  body = some (b'q' ∷ []);
}

abbrev answer : Response Unit
answer =
    (left_by write_once write_once-WritesAll limits same_slice decimal tt key_a mux client request
      says_x).1

no_flags : (has_stream_msg_flag 0 ≡ false) × (has_stream_flag 0 ≡ false)
unfolding has_stream_msg_flag has_stream_flag
no_flags = (refl, refl)

request_fits : length (request_head (record request { id = 7 }) ++ b'q' ∷ []) ≤ 1000
unfolding request_head place8
request_fits = omega arith

answer_plain :
    (answer.flags ≡ 0) × (answer.req_id ≡ 7) × (length (encoded_headers answer.headers).0 ≡ 0)
unfolding new_response encode
answer_plain = (refl, refl, refl)

answer_fits : length (response_head answer ++ response_body answer.body) ≤ 1000
unfolding response_head new_response encode place8
answer_fits = omega arith

abbrev handled : Conn Unit ℕ
handled =
    with_handled write_once write_once-WritesAll limits same_slice decimal tt key_a mux conn
      (9 ∷ []) client request says_x

abbrev entered_conn : Conn Unit ℕ
entered_conn =
    with_entered write_once write_once-WritesAll limits same_slice decimal tt key_a mux conn
      (9 ∷ []) client request says_x

round-run_job_example :
    (c1 : Client Unit) × (rc : RespChan Unit) × (send_request write_once client request
      ≡ (c1, some rc))
    × (frame write_once limits same_slice decimal tt key_a mux
          (record conn { input = since used c1.sink ++ 9 ∷ [] })
        ≡ goes_on entered_conn)
    × (run_job write_once
          (record entered_conn { jobs = [] })
          (runs
            (inside mux key_a says_x)
            (entered write_once write_once-WritesAll limits same_slice decimal tt key_a mux client
              request)
            (started write_once write_once-WritesAll limits same_slice decimal tt key_a mux client
              request))
        ≡ handled)
    × (round write_once (record c1 {
      input =
          since used (run_job write_once (record handled { jobs = [] }) (writes answer)).sink
          ++ 8 ∷ [];
    })
        ≡ continues (record c1 {
          input = 8 ∷ [];
          reqs =
              insert 7
                (record rc {
                  ch = some (
                      response_to rc answer.flags answer.status
                        (encoded_headers answer.headers).0
                        (response_body answer.body));
                })
                c1.reqs;
        }))
round-run_job_example =
    round-run_job write_once write_once-WritesAll limits same_slice decimal tt key_a mux client conn
      request (9 ∷ []) (8 ∷ []) says_x same_slice-Clones refl request_fits (omega arith)
      (omega arith) (omega arith) no_flags.0 no_flags.1 refl refl answer_plain.1 (refl, omega arith)
      answer_fits (omega (arith, answer_plain.2)) (rw answer_plain.0 no_flags.0)
      (rw answer_plain.0 no_flags.1)
