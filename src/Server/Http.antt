-- ===== src/Server/Http.antt =====
-- go/server.go, ServeHTTP and wsStreamHandler.
--
-- net/http and the websockets are parameters: `HttpRequest` is what the code reads of an
-- http.Request, `with_http` puts that request into a context, `sent` the header map of the http.ResponseWriter, which WriteHeader sends, and a
-- websocket is what the peer sends on it and a writer.
use jtrpc.Common.{
  ℕ, true, false, Option, none, some, [], ◌∷◌, Bytes, bytes_eq, length, drop, nat_eq, if◌then◌else◌,
}
use jtrpc.Common.Int.{ℤ, pos, int64, gtz, count_of}
use jtrpc.Flags.{status_ok, status_body_too_large, status_to_http}
use jtrpc.Headers.Http.{HttpHeader, collect, get_last_value, join_values, from_http_header}
use jtrpc.Io.{Error, body_too_large, Sink, WriteAll, copy_n}
use jtrpc.Request.{Request, fails, got, request_from_reader}
use jtrpc.Response.{
  Response, counter_bytes, close_counter, empty_response, new_response, set_body, write_response,
}
use jtrpc.Server.{Handler, noop_handler, MuxOps}
use jtrpc.Server.Requests.{regular_chain, stream_chain}
use jtrpc.Proxy.Paths.{codes, slash, with_slash}

pub record HttpRequest (C : Type 0) : Type 0 where
  pub url_path : Bytes
  pub header : HttpHeader
  pub body : Bytes
  pub remote_addr : Bytes
  pub ctx : C

-- What is done with an HTTP request: it becomes a connection like any other, it gets an error page,
-- the answer of a handler (with the status code, the headers and the body that are sent), or a
-- websocket for a stream.
pub data Answer (C S : Type 0) : Type 0 where
  as_connection too_large not_found_page : Answer C S
  answers : ℕ → HttpHeader → Bytes → Response C → Answer C S
  as_stream : Bytes → S → Answer C S

module _ {C : Type 0} (with_http : C → HttpRequest C → C) where
  -- `makeReq`; `none` is nil, where http.MaxBytesReader gave an error.
  unfoldable pub make_req : ℤ → HttpRequest C → Bytes → Option (Request C)
  make_req max_body_len r path =
      if gtz (pos (length r.body)) (pos (count_of max_body_len))
      then none
      else some (record {
        id = 0;
        ctx = with_http r.ctx r;
        remote_addr = r.remote_addr;
        flags = 0;
        path = path;
        headers = some (record {
          bytes = [];
          m = some (collect (λ k. get_last_value) r.header []);
          parsed = false;
        });
        body = if nat_eq (length r.body) 0 then none else some r.body;
      })

module _ {C : Type 0} where
  -- The response behind the handler: its headers are those of the writer.
  abbrev pub with_sent : HttpHeader → Response C → Response C
  with_sent sent resp = record resp { headers = from_http_header (λ k. join_values) sent true }

  -- What is written of the body.
  abbrev pub body_sent : Response C → Bytes
  body_sent resp = elim resp.body [
    | none ↦ []
    | some b ↦ (copy_n (int64 resp.body_len) (counter_bytes b)).got
  ]

  abbrev pub body_closed : Response C → Response C
  body_closed resp = record resp {
    body = elim resp.body [ none ↦ none | some b ↦ some (close_counter b) ];
  }

module _ {C S : Type 0} where
  -- `if req == nil { return }`, and the handler on the request.
  abbrev pub handled :
      MuxOps (Handler C) S → HttpHeader → Bytes → Handler C → Option (Request C) → Answer C S
  handled mux sent path h none = too_large
  handled mux sent path h (some req) =
      let resp = with_sent sent (regular_chain mux path h req (new_response 0 0 (some req))).1 in
      answers (status_to_http resp.status) sent (body_sent resp) (body_closed resp)

  -- `ServeHTTP` behind the attempts to get a regular handler; `path` has no slash put before it.
  unfoldable pub serve_stream : MuxOps (Handler C) S → Bytes → Answer C S
  serve_stream mux path = elim (mux.stream_handler_at (slash ∷ path)) [
    | some s ↦ as_stream (slash ∷ path) s
    | none ↦ elim (mux.stream_handler_at path) [ some s ↦ as_stream path s | none ↦ not_found_page ]
  ]

module _ {C S : Type 0} (with_http : C → HttpRequest C → C) where
  -- `ServeHTTP` with a handler.
  unfoldable pub answer_with :
      MuxOps (Handler C) S → ℤ → HttpHeader → HttpRequest C → Bytes → Handler C → Answer C S
  answer_with mux max_body_len sent r path h =
      handled mux sent path h (make_req with_http max_body_len r path)

  -- `ServeHTTP`
  unfoldable pub serve_http : MuxOps (Handler C) S → ℤ → HttpHeader → HttpRequest C → Answer C S
  serve_http mux max_body_len sent r =
      let path = with_slash r.url_path in
      if bytes_eq path (slash ∷ []) then as_connection else elim (mux.handler_at path) [
        | some h ↦ answer_with mux max_body_len sent r path h
        | none ↦ elim (mux.handler_at (drop 1 path)) [
          | some h ↦ answer_with mux max_body_len sent r (drop 1 path) h
          | none ↦ serve_stream mux (drop 1 path)
        ]
      ]

-- What `wsStreamHandler` leaves of a websocket: its writer, and the request of the stream if it
-- starts the stream handler.
abbrev pub Opened : Type 0 → Type 0
Opened C = Sink × Option (Request C)

-- The answer to a request that cannot be read.
unfoldable pub refuse : (C : Type 0) → WriteAll → Error → Sink → Sink
refuse C write_all body_too_large sink =
    (write_response write_all
      (set_body (record (empty_response {C = C}) { status = status_body_too_large })
        (codes "body too large"))
      sink).1.sink
refuse C write_all _ sink = sink

-- Behind the middlewares: the response is written, and the stream is opened if that and the status
-- allow it.
unfoldable pub open_stream : {C : Type 0} → WriteAll → Request C × Response C → Sink → Opened C
open_stream write_all (req, resp) sink =
    let w = (write_response write_all resp sink).1 in
    elim w.failure [
      | some e ↦ (w.sink, none)
      | none ↦ (w.sink, if nat_eq resp.status status_ok then some req else none)
    ]

-- `wsStreamHandler`, of what the peer sends on the websocket.
unfoldable pub ws_stream_handler :
    {C S : Type 0}
    → WriteAll
    → (Bytes → Bytes)
    → C
    → MuxOps (Handler C) S
    → ℤ
    → Bytes
    → Bytes
    → Sink
    → Opened C
ws_stream_handler {C} write_all clone_slice background mux max_body_len path input sink =
    elim (request_from_reader clone_slice background input max_body_len) [
      | fails e ↦ (refuse C write_all e sink, none)
      | got req rest ↦
          open_stream write_all
            (stream_chain mux path noop_handler req (new_response req.id req.flags (some req))) sink
    ]
