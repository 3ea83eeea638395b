-- ===== src/Tests/WsExamples.antt =====
-- A stream over a websocket, on a small input.
use jtrpc.Common.{
  ◌≡◌, ◌<◌, ◌≤◌, ◌^◌, refl, none, some, [], ◌∷◌, ◌++◌, length, nat_eq, if◌then◌else◌, arith,
}
use jtrpc.Common.Int.{pos}
use jtrpc.Wire.{place8}
use jtrpc.Flags.{status_ok}
use jtrpc.Headers.{parsed_headers, encode, encode_loop}
use jtrpc.Request.{Request, encoded_headers, body_bytes, request_head}
use jtrpc.Response.{Response, new_response, empty_response, response_head, read_response}
use jtrpc.Response.RoundTrip.{response_body, IsSized}
use jtrpc.Server.{Handler, MuxOps}
use jtrpc.Server.Http.{ws_stream_handler}
use jtrpc.Server.WsStreams.{
  empty_sink, chained, sent_by, read_of, too_large_answer, ws_stream_handler-opens,
  ws_stream_handler-too_large,
}
use jtrpc.Tests.{write_once, write_once-WritesAll, same_slice, same_slice-Clones, key_a, two}

-- A middleware of the stream that lets the next handler see other flags.
abbrev mux : MuxOps (Handler Unit) Unit
mux = record {
  handler_at = λ path. none;
  middleware_at = λ path. none;
  stream_handler_at = λ path. some tt;
  stream_middleware_at = λ path. some (λ next req resp. next req (record resp { flags = 2 }));
  global_middleware = none;
  regular_middleware = none;
  all_stream_middleware = none;
}

abbrev opening : Request Unit
opening = record {
  id = 5;
  ctx = tt;
  remote_addr = [];
  flags = 1;
  path = key_a;
  headers = some (parsed_headers two);
  body = some (b'h' ∷ b'i' ∷ []);
}

opening_fits : length (request_head opening ++ body_bytes opening.body) ≤ 1000
unfolding request_head encode encode_loop place8
opening_fits = omega arith

opening_headers : length (encoded_headers opening.headers).0 < 65536
unfolding encode encode_loop
opening_headers = omega arith

abbrev left_response : Response Unit
left_response = (chained tt mux key_a opening).1

left_response_fits : length (response_head left_response ++ response_body left_response.body) ≤ 1000
unfolding new_response response_head encode encode_loop place8
left_response_fits = omega arith

left_response_headers : length (encoded_headers left_response.headers).0 < 65536
unfolding new_response encode encode_loop
left_response_headers = omega arith

left_response_id : left_response.req_id < 2 ^ 64
unfolding new_response
left_response_id = omega arith

left_response-IsSized : IsSized left_response
unfolding new_response
left_response-IsSized = (refl, omega arith)

ws_stream_handler-opens_example :
    let opened =
      ws_stream_handler write_once same_slice tt mux
        (pos 100)
        key_a
        (sent_by write_once opening 1000 ++ 0 ∷ [])
        (empty_sink 1000) in
    (opened.1 ≡ (
      if nat_eq left_response.status status_ok
      then some (chained tt mux key_a opening).0
      else none))
    × (read_response empty_response (opened.0.out ++ 7 ∷ [])
        ≡ read_of empty_response left_response (7 ∷ []))
ws_stream_handler-opens_example =
    ws_stream_handler-opens write_once write_once-WritesAll same_slice tt mux (pos 100) key_a
      opening empty_response 1000 1000 (0 ∷ []) (7 ∷ []) same_slice-Clones (omega arith)
      (omega arith) opening_headers (omega arith) refl opening_fits left_response-IsSized
      left_response_id left_response_headers left_response_fits

ws_stream_handler-too_large_test :
    let opened =
      ws_stream_handler write_once same_slice tt mux
        (pos 1)
        key_a
        (sent_by write_once opening 1000 ++ 0 ∷ [])
        (empty_sink 1000) in
    (opened.1 ≡ none)
    × (read_response empty_response (opened.0.out ++ 7 ∷ [])
        ≡ read_of empty_response (too_large_answer Unit) (7 ∷ []))
    × ((read_of empty_response (too_large_answer Unit) (7 ∷ [])).resp.req_id ≡ 0)
ws_stream_handler-too_large_test =
    ws_stream_handler-too_large write_once write_once-WritesAll same_slice tt mux (pos 1) key_a
      opening empty_response 1000 1000 (0 ∷ []) (7 ∷ []) same_slice-Clones (omega arith)
      (omega arith) opening_headers (omega arith) refl opening_fits (omega arith)
