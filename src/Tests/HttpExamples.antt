-- ===== src/Tests/HttpExamples.antt =====
-- Requests over HTTP, and how the connections of a client and of a server end, on small inputs.
use jtrpc.Common.{
  ℕ, ◌≡◌, refl, false, none, some, [], ◌∷◌, Bytes, bytes_eq, if◌then◌else◌, done, inl, inr,
  Bool-cases, nat_eq, nat_eq_iff,
}
use jtrpc.Common.Int.{ℤ, pos}
use jtrpc.Common.Maps.{insert, lookup, nat_key}
use jtrpc.Request.{Request}
use jtrpc.Response.{new_response}
use jtrpc.Stream.{new_stream}
use jtrpc.Client.{Client, send_request}
use jtrpc.Client.Close.{
  close_client, already, closes, deadlocks, shut_chans, close_client-deadlocks, close_client-closes,
}
use jtrpc.Server.{Limits, Handler, MuxOps, Conn, opens}
use jtrpc.Server.Jobs.{AllServed}
use jtrpc.Server.Served.{here}
use jtrpc.Server.Finishes.{Finishes, Reaches-Finishes}
use jtrpc.Headers.{Headers}
use jtrpc.Headers.Access.{get_checked}
use jtrpc.Headers.Http.{collect, get_last_value}
use jtrpc.Server.Http.{HttpRequest, make_req, serve_http}
use jtrpc.Server.HttpPaths.{SendsOnly, serve_http-SendsOnly, get_checked-make_req}
use jtrpc.Proxy.Paths.{slash}
use jtrpc.Tests.{write_once, same_slice, key_a, roomy}

-- A handler that sets the status 1, under a path without a slash.
abbrev teapot : Handler Unit
teapot req resp = (req, record resp { status = 1 })

abbrev mux : MuxOps (Handler Unit) ℕ
mux = record {
  handler_at = λ path. if bytes_eq path key_a then some teapot else none;
  middleware_at = λ path. none;
  stream_handler_at = λ path. none;
  stream_middleware_at = λ path. none;
  global_middleware = none;
  regular_middleware = none;
  all_stream_middleware = none;
}

abbrev http_request : HttpRequest Unit
http_request = record {
  url_path = slash ∷ key_a;
  header = (key_a, key_a ∷ []) ∷ [];
  body = [];
  remote_addr = [];
  ctx = tt;
}

abbrev same_ctx : Unit {0} → HttpRequest Unit → Unit {0}
same_ctx c r = c

-- What makeReq makes of it.
abbrev made_headers : Headers
made_headers = record { bytes = []; m = some ((key_a, key_a) ∷ []); parsed = false }

abbrev made_request : Request Unit
made_request = record {
  id = 0;
  ctx = tt;
  remote_addr = [];
  flags = 0;
  path = key_a;
  headers = some made_headers;
  body = none;
}

makes_request : make_req same_ctx (pos 100) http_request key_a ≡ some made_request
unfolding make_req collect insert get_last_value
makes_request = refl

get_checked-make_req_example :
    (get_checked made_headers key_a ≡ done none)
    × (made_headers.m ≡ some (collect (λ k. get_last_value) http_request.header []))
get_checked-make_req_example =
    get_checked-make_req same_ctx (pos 100) http_request key_a made_request made_headers key_a
      makes_request refl

serve_http-SendsOnly_test :
    SendsOnly same_ctx mux (pos 100) [] (serve_http same_ctx mux (pos 100) [] http_request)
serve_http-SendsOnly_test = serve_http-SendsOnly same_ctx mux (pos 100) [] http_request

abbrev request : Request Unit
request = record {
  id = 1;
  ctx = tt;
  remote_addr = [];
  flags = 0;
  path = key_a;
  headers = none;
  body = some [];
}

abbrev client : Client Unit
client = record {
  input = [];
  sink = roomy;
  req_counter = 1;
  reqs = (1, record { req = request; ch = none; ch_closed = false; marked = false }) ∷ [];
  streams = [];
  closed = false;
}

live_stream : (new_stream 1).closed ≡ false
unfolding new_stream
live_stream = refl

close_client-deadlocks_example :
    close_client write_once false (record client { streams = (1, new_stream 1) ∷ [] })
    ≡ done deadlocks
close_client-deadlocks_example =
    close_client-deadlocks write_once (record client { streams = (1, new_stream 1) ∷ [] }) [] [] 1
      (new_stream 1) refl refl live_stream

close_client-closes_example :
    (after : Client Unit) × (close_client write_once false client
      ≡ done (closes after (shut_chans client.reqs)))
    × (after.reqs ≡ [])
    × (send_request write_once after request ≡ (after, none))
    × (close_client write_once false after ≡ done already)
close_client-closes_example =
    close_client-closes write_once false client request refl refl ((refl, refl), tt)

abbrev conn : Conn Unit ℕ
conn = record {
  input = [];
  sink = roomy;
  reqs = (1, request) ∷ [];
  streams = [];
  jobs = opens 4 teapot request (new_response 1 0 none) ∷ [];
}

conn-AllServed : AllServed conn
unfolding lookup
conn-AllServed id = elim (Bool-cases (nat_eq 1 id)) [
  | inl same ↦ inr (inl ((nat_eq_iff 1 id).0 same))
  | inr other ↦ inl (rw other refl)
]

abbrev limits : Limits
limits = record { max_body_len = pos 100; max_stream_body_len = pos 100 }

abbrev decimal : ℤ → Bytes
decimal n = []

Reaches-Finishes_example : Finishes write_once limits same_slice decimal tt key_a mux conn
Reaches-Finishes_example =
    Reaches-Finishes write_once limits same_slice decimal tt key_a mux here conn-AllServed
      ((refl, refl), tt)
