-- ===== src/Server/HttpPaths.antt =====
-- Which handler an HTTP request gets, and what is sent of its response.
use jtrpc.Common.{
  ◌≡◌, refl, sym, ap, ◌∙◌, true, false, Option, none, some, [], ◌∷◌, Bytes, length, done, bytes_eq,
  drop, Bool-cases, Option-cases, inl, inr, arith,
}
use jtrpc.Common.Int.{ℤ, pos, gtz, count_of}
use jtrpc.Headers.{Headers, parsed_headers}
use jtrpc.Headers.Access.{get_checked, get_loop}
use jtrpc.Headers.Http.{HttpHeader, collect, get_last_value, join_values, from_http_header}
use jtrpc.Request.{Request}
use jtrpc.Server.{Handler, MuxOps}
use jtrpc.Server.Http.{
  HttpRequest, Answer, as_connection, too_large, not_found_page, answers, as_stream, make_req,
  handled, answer_with, serve_stream, serve_http,
}
use jtrpc.Proxy.Paths.{slash, with_slash, with_slash_starts}

-- What is found at the path, or else at the path without its first byte, and where.
abbrev pub first_at : {A : Type 0} → (Bytes → Option A) → Bytes → Option (Bytes × A)
first_at find path = elim (find path) [
  | some a ↦ some (path, a)
  | none ↦ elim (find (drop 1 path)) [ some a ↦ some (drop 1 path, a) | none ↦ none ]
]

module _ {C S : Type 0} (with_http : C → HttpRequest C → C) (mux : MuxOps (Handler C) S)
    (max_body_len : ℤ) (sent : HttpHeader) where
  abbrev pub stream_answer : Option (Bytes × S) → Answer C S
  stream_answer none = not_found_page
  stream_answer (some (path, s)) = as_stream path s

  abbrev pub answer_at :
      HttpRequest C → Option (Bytes × Handler C) → Option (Bytes × S) → Answer C S
  answer_at r none o = stream_answer o
  answer_at r (some (path, h)) o = answer_with with_http mux max_body_len sent r path h

  serve_stream-first_at :
      (path : Bytes)
      → serve_stream mux path ≡ stream_answer (first_at mux.stream_handler_at (slash ∷ path))
  unfolding serve_stream
  serve_stream-first_at path = elim (Option-cases (mux.stream_handler_at (slash ∷ path))) [
    | inr (s, e) ↦ simp (serve_stream, first_at, e)
    | inl none1 ↦ elim (Option-cases (mux.stream_handler_at path)) [
      | inr (s, e) ↦ simp (serve_stream, first_at, none1, e)
      | inl none2 ↦ simp (serve_stream, first_at, none1, none2)
    ]
  ]

  serve_http-root :
      (r : HttpRequest C)
      → bytes_eq (with_slash r.url_path) (slash ∷ []) ≡ true
      → serve_http with_http mux max_body_len sent r ≡ as_connection
  unfolding serve_http
  serve_http-root r root = simp (serve_http, root)

  pub serve_http-first_at :
      (r : HttpRequest C)
      → bytes_eq (with_slash r.url_path) (slash ∷ []) ≡ false
      → serve_http with_http mux max_body_len sent r
        ≡ answer_at r
            (first_at mux.handler_at (with_slash r.url_path))
            (first_at mux.stream_handler_at (with_slash r.url_path))
  unfolding serve_http
  serve_http-first_at r other = elim (Option-cases (mux.handler_at (with_slash r.url_path))) [
    | inr (h, e) ↦ simp (serve_http, first_at, other, e)
    | inl none1 ↦ elim (Option-cases (mux.handler_at (drop 1 (with_slash r.url_path)))) [
      | inr (h, e) ↦ simp (serve_http, first_at, other, none1, e)
      | inl none2 ↦
          let (path, e) = with_slash_starts r.url_path in
          simp (serve_http, first_at, other, none1, none2)
            (serve_stream-first_at (drop 1 (with_slash r.url_path))
              ∙ ap (λ p. stream_answer (first_at mux.stream_handler_at p)) (rw e refl))
    ]
  ]

  -- The headers of an answer are those that the writer had before, and so are those of the response,
  -- where the values of a key are joined.
  abbrev pub SendsOnly : Answer C S → Type 0
  SendsOnly as_connection = Unit {0}
  SendsOnly too_large = Unit {0}
  SendsOnly not_found_page = Unit {0}
  SendsOnly (answers code header body resp) =
      (header ≡ sent) × (resp.headers ≡ some (parsed_headers (collect (λ k. join_values) sent [])))
  SendsOnly (as_stream path s) = Unit {0}

  handled-SendsOnly :
      (path : Bytes) (h : Handler C) (o : Option (Request C))
      → SendsOnly (handled mux sent path h o)
  unfolding from_http_header
  handled-SendsOnly path h none = tt
  handled-SendsOnly path h (some req) = (refl, refl)

  answer_with-SendsOnly :
      (r : HttpRequest C) (path : Bytes) (h : Handler C)
      → SendsOnly (answer_with with_http mux max_body_len sent r path h)
  unfolding answer_with
  answer_with-SendsOnly r path h = handled-SendsOnly path h (make_req with_http max_body_len r path)

  answer_at-SendsOnly :
      (r : HttpRequest C) (o : Option (Bytes × Handler C)) (s : Option (Bytes × S))
      → SendsOnly (answer_at r o s)
  answer_at-SendsOnly r (some (path, h)) s = answer_with-SendsOnly r path h
  answer_at-SendsOnly r none (some s) = tt
  answer_at-SendsOnly r none none = tt

  -- Whatever the handler and the middlewares put into the headers of the response: an HTTP answer
  -- has exactly the headers that the writer had before, and the headers of the response are made
  -- from them.
  pub serve_http-SendsOnly :
      (r : HttpRequest C) → SendsOnly (serve_http with_http mux max_body_len sent r)
  unfolding serve_http
  serve_http-SendsOnly r = elim (Bool-cases (bytes_eq (with_slash r.url_path) (slash ∷ []))) [
    | inl root ↦ rw (ap SendsOnly (serve_http-root r root)) tt
    | inr other ↦ rw (serve_http-first_at r other) (
        answer_at-SendsOnly r (first_at mux.handler_at (with_slash r.url_path))
          (first_at mux.stream_handler_at (with_slash r.url_path)))
  ]

-- The headers in the map of an unparsed Headers without bytes are not found.
get_checked-unparsed :
    (h : Headers) (key : Bytes) → h.bytes ≡ [] → h.parsed ≡ false → get_checked h key ≡ done none
unfolding get_checked get_loop
get_checked-unparsed h key e f = rw (f, e) refl

abbrev headers_of : {C : Type 0} → Option (Request C) → Option Headers
headers_of none = none
headers_of (some req) = req.headers

abbrev or_none : Option Headers → Headers
or_none none = parsed_headers []
or_none (some h) = h

-- A request that ServeHTTP makes has the headers of the HTTP request in its map, but neither their
-- bytes nor the mark that they are parsed: `GetChecked` finds none of them, whatever the key.
pub get_checked-make_req :
    {C : Type 0} (with_http : C → HttpRequest C → C) (max_body_len : ℤ) (r : HttpRequest C)
    (path : Bytes) (req : Request C) (h : Headers) (key : Bytes)
    → make_req with_http max_body_len r path ≡ some req
    → req.headers ≡ some h
    → (get_checked h key ≡ done none) × (h.m ≡ some (collect (λ k. get_last_value) r.header []))
unfolding make_req
get_checked-make_req with_http max_body_len r path req h key makes has =
    elim (Bool-cases (gtz (pos (length r.body)) (pos (count_of max_body_len)))) [
      | inl large ↦ absurd (ground (arith, makes, large))
      | inr small ↦
          let same : headers_of (make_req with_http max_body_len r path) ≡ some h =
            ap headers_of makes ∙ has in
          let is : record {
            bytes = [];
            m = some (collect (λ k. get_last_value) r.header []);
            parsed = false;
          }
              ≡ h =
            ap or_none (simp small at same) in
          (
            get_checked-unparsed h key (sym (ap (λ x. x.bytes) is)) (sym (ap (λ x. x.parsed) is)),
            sym (ap (λ x. x.m) is),
          )
    ]
