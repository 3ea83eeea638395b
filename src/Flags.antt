-- ===== src/Flags.antt =====
-- The flag and status constants of go/req_resp.go and go/stream.go, the tests on flags, and
-- StatusToHTTP. A byte is a number below 256.
pub mod Tables
use Prim.Native.Nat.{bit_and, bit_or}
use jtrpc.Common.{ℕ, Bool, true, false, not, ◌||◌, ltb, nat_eq, if◌then◌else◌}

abbrev pub flag_stream_msg : ℕ
flag_stream_msg = 0b1000_0000

abbrev pub req_flag_stream : ℕ
req_flag_stream = 0b0100_0000

abbrev pub req_flag_timeout : ℕ
req_flag_timeout = 0b0000_0010

abbrev pub req_flag_cancel : ℕ
req_flag_cancel = 0b0000_0001

abbrev pub msg_flag_not_stream : ℕ
msg_flag_not_stream = 0b0100_0000

abbrev pub msg_flag_too_large : ℕ
msg_flag_too_large = 0b0010_0000

abbrev pub msg_flag_close : ℕ
msg_flag_close = 0b0000_0001

abbrev has_flag : ℕ → ℕ → Bool
has_flag flags flag = not (nat_eq (bit_and flags flag) 0)

-- `hasStreamFlag`
unfoldable pub has_stream_flag : ℕ → Bool
has_stream_flag flags = has_flag flags req_flag_stream

-- `hasStreamMsgFlag`
unfoldable pub has_stream_msg_flag : ℕ → Bool
has_stream_msg_flag flags = has_flag flags flag_stream_msg

-- `hasCloseFlag`, and `hasMsgFlagClose` of go/stream.go
unfoldable pub has_close_flag : ℕ → Bool
has_close_flag flags = has_flag flags msg_flag_close

-- The flags after `SetStream`; `^ReqFlagStream` is the byte 0b1011_1111.
unfoldable pub set_stream_flag : Bool → ℕ → ℕ
set_stream_flag true flags = bit_or flags req_flag_stream
set_stream_flag false flags = bit_and flags 0b1011_1111

abbrev pub status_ok : ℕ
status_ok = 0

abbrev pub status_partial_error : ℕ
status_partial_error = 1

abbrev pub status_not_found : ℕ
status_not_found = 128

abbrev pub status_is_stream : ℕ
status_is_stream = 129

abbrev pub status_not_stream : ℕ
status_not_stream = 130

abbrev pub status_bad_request : ℕ
status_bad_request = 131

abbrev pub status_unauthorized : ℕ
status_unauthorized = 132

abbrev pub status_body_too_large : ℕ
status_body_too_large = 133

abbrev pub status_invalid_initial_bytes : ℕ
status_invalid_initial_bytes = 160

abbrev pub status_bad_version : ℕ
status_bad_version = 161

abbrev pub status_internal_server_error : ℕ
status_internal_server_error = 192

-- `StatusToHTTP`, with the numbers of Go's http.Status constants.
unfoldable pub status_to_http : ℕ → ℕ
status_to_http status =
    if nat_eq status status_ok
    then 200
    else if nat_eq status status_not_found
    then 404
    else if nat_eq status status_is_stream || nat_eq status status_not_stream
    then 405
    else if nat_eq status status_unauthorized
    then 401
    else if nat_eq status status_body_too_large
    then 413
    else if nat_eq status status_invalid_initial_bytes
    then 400
    else if nat_eq status status_bad_version
    then 505
    else if nat_eq status status_internal_server_error
    then 500
    else if ltb status 128
    then 200
    else if ltb status 192
    then 400
    else 500
