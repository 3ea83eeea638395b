-- ===== src/Tests/TransferExamples.antt =====
-- Requests, responses and messages on small inputs.
use jtrpc.Common.{
  ◌<◌, ◌≤◌, ◌^◌, ◌≡◌, refl, true, false, none, some, [], ◌∷◌, ◌++◌, ◌⊎◌, length, arith,
  if◌then◌else◌,
}
use jtrpc.Common.Int.{pos, int64, gtz}
use jtrpc.Wire.{place8}
use jtrpc.Flags.{
  has_stream_flag, has_stream_msg_flag, has_close_flag, set_stream_flag, status_to_http,
  status_bad_version,
}
use jtrpc.Flags.Tables.{has_stream_flag-set_stream_flag, status_to_http_class}
use jtrpc.Headers.{raw_headers, parsed_headers, encode, encode_loop}
use jtrpc.Io.{body_too_large}
use jtrpc.Io.Laws.{Delivers}
use jtrpc.Io.{copy_n}
use jtrpc.Request.{
  Request, got, fails, after_read, encoded_headers, request_head, body_bytes, write_request,
  request_from_reader,
}
use jtrpc.Request.RoundTrip.{
  received, head_bytes, request_from_reader-head_bytes, write_request-Delivers,
  request_from_reader-write_request, read_negative_length,
}
use jtrpc.Response.{Response, Counter, response_head, write_response, read_response}
use jtrpc.Response.RoundTrip.{
  fixed_bytes, response_body, IsSized, received_body, write_response-Delivers, read_response-bytes,
  read_response-write_response,
}
use jtrpc.Response.BodyReader.{ReadsOn, read_counter-ReadsOn}
use jtrpc.Message.{write_message}
use jtrpc.Message.RoundTrip.{message_bytes, write_message-Delivers}
use jtrpc.Tests.{
  write_once, write_once-WritesAll, same_slice, same_slice-Clones, two, roomy, message_of,
}

abbrev call : Request Unit
call = record {
  id = 9;
  ctx = tt;
  remote_addr = [];
  flags = 0;
  path = b'/' ∷ b'x' ∷ [];
  headers = some (parsed_headers two);
  body = some (b'h' ∷ b'i' ∷ []);
}

abbrev reply : Response Unit
reply = record {
  req_id = 9;
  flags = 0;
  status = 0;
  headers = some (parsed_headers two);
  body = some (record { src = b'o' ∷ b'k' ∷ []; len = 2; closed = false });
  body_len = 2;
  stream = none;
  request = none;
}

reply-IsSized : IsSized reply
reply-IsSized = (refl, omega arith)

call_fits : length (request_head call ++ body_bytes call.body) ≤ 1000
unfolding request_head encode encode_loop place8
call_fits = omega arith

call_headers : length (encoded_headers call.headers).0 < 65536
unfolding encode encode_loop
call_headers = omega arith

reply_fits : length (response_head reply ++ response_body reply.body) ≤ 1000
unfolding response_head encode encode_loop place8
reply_fits = omega arith

reply_headers : length (encoded_headers reply.headers).0 < 65536
unfolding encode encode_loop
reply_headers = omega arith

-- What a reader makes of `call`, with one more byte on the connection.
request_from_reader-write_request_example :
    request_from_reader same_slice tt
      ((write_request write_once call roomy).1.sink.out ++ 0 ∷ [])
      (pos 100)
    ≡ got
        (received tt call.id call.flags call.path
          (encoded_headers call.headers).0
          (body_bytes call.body))
        (0 ∷ [])
request_from_reader-write_request_example =
    request_from_reader-write_request write_once same_slice tt call (pos 100) 1000 (0 ∷ [])
      write_once-WritesAll same_slice-Clones (omega arith) (omega arith) call_headers (omega arith)
      refl call_fits

request_from_reader-head_bytes_test :
    request_from_reader same_slice tt
      (head_bytes 1 0 (b'/' ∷ []) [] 3 ++ b'a' ∷ b'b' ∷ b'c' ∷ [])
      (pos 2)
    ≡ (if gtz (int64 3) (pos 2)
        then fails body_too_large
        else after_read
            (copy_n (int64 3) (b'a' ∷ b'b' ∷ b'c' ∷ []))
            (λ body r. got (received tt 1 0 (b'/' ∷ []) [] body) r))
request_from_reader-head_bytes_test =
    request_from_reader-head_bytes same_slice tt (pos 2) 1 0 3 (b'/' ∷ []) []
      (b'a' ∷ b'b' ∷ b'c' ∷ []) same_slice-Clones (omega arith) (omega arith) (omega arith)
      (omega arith)

write_request-Delivers_test :
    Delivers roomy
      (request_head call ++ body_bytes call.body)
      (write_request write_once call roomy).1
write_request-Delivers_test = write_request-Delivers write_once call roomy write_once-WritesAll

read_negative_length_example :
    request_from_reader same_slice tt (head_bytes 1 0 (b'/' ∷ []) [] (2 ^ 63) ++ b'a' ∷ []) (pos 2)
    ≡ got (received tt 1 0 (b'/' ∷ []) [] []) (b'a' ∷ [])
read_negative_length_example =
    read_negative_length same_slice tt 2 1 0 (2 ^ 63) (b'/' ∷ []) [] (b'a' ∷ []) same_slice-Clones
      (omega arith) (omega arith) (omega arith) (omega arith) (omega arith)

write_response-Delivers_test :
    Delivers roomy
      (response_head reply ++ response_body reply.body)
      (write_response write_once reply roomy).1
write_response-Delivers_test =
    write_response-Delivers write_once reply roomy write_once-WritesAll reply-IsSized

read_response-bytes_test :
    read_response reply ((fixed_bytes 5 0 1 0 1 ++ []) ++ (b'z' ∷ [] ++ [])) ≡ record {
      resp =
          received_body
            (record reply { req_id = 5; flags = 0; status = 1; headers = some (raw_headers []) })
            (b'z' ∷ []);
      rest = [];
      n = 21;
      failure = none;
    }
read_response-bytes_test =
    read_response-bytes reply 5 0 1 [] (b'z' ∷ []) [] (omega arith) (omega arith) (omega arith)

read_response-write_response_example :
    read_response reply ((write_response write_once reply roomy).1.sink.out ++ 0 ∷ []) ≡ record {
      resp =
          received_body
            (record reply {
              req_id = reply.req_id;
              flags = reply.flags;
              status = reply.status;
              headers = some (raw_headers (encoded_headers reply.headers).0);
            })
            (response_body reply.body);
      rest = 0 ∷ [];
      n = length (response_head reply ++ response_body reply.body);
      failure = none;
    }
read_response-write_response_example =
    read_response-write_response write_once reply reply 1000 (0 ∷ []) write_once-WritesAll
      reply-IsSized (omega arith) reply_headers reply_fits

write_message-Delivers_test :
    Delivers roomy (message_bytes (message_of 1)) (write_message write_once (message_of 1) roomy).1
write_message-Delivers_test =
    write_message-Delivers write_once (message_of 1) roomy write_once-WritesAll

abbrev three_left : Counter
three_left = record { src = b'a' ∷ b'b' ∷ b'c' ∷ b'd' ∷ []; len = 3; closed = false }

read_counter-ReadsOn_test : ReadsOn three_left 2
read_counter-ReadsOn_test = read_counter-ReadsOn three_left 2

has_stream_flag-set_stream_flag_test :
    (has_stream_flag (set_stream_flag true 33) ≡ true)
    × (has_stream_msg_flag (set_stream_flag true 33) ≡ has_stream_msg_flag 33)
    × (has_close_flag (set_stream_flag true 33) ≡ has_close_flag 33)
    × (set_stream_flag true 33 < 256)
has_stream_flag-set_stream_flag_test = has_stream_flag-set_stream_flag true 33 (omega arith)

status_to_http_class_test :
    ((200 < 128) × (status_to_http 200 ≡ 200))
    ⊎ (((128 ≤ 200)
          × (200 < 192)
          × (400 ≤ status_to_http 200)
          × ((status_to_http 200 < 500) ⊎ (200 ≡ status_bad_version)))
        ⊎ ((192 ≤ 200) × (status_to_http 200 ≡ 500)))
status_to_http_class_test = status_to_http_class 200 (omega arith)
