-- ===== src/Tests/ClientExamples.antt =====
-- The client on small inputs.
use jtrpc.Common.{◌≡◌, refl, true, false, none, some, [], ◌∷◌, ◌++◌, arith, done, panics}
use jtrpc.Common.Maps.{lookup, nat_key}
use jtrpc.Flags.{has_stream_msg_flag}
use jtrpc.Request.{Request, new_request}
use jtrpc.Response.{Response, new_response}
use jtrpc.Response.RoundTrip.{fixed_bytes}
use jtrpc.Request.Heads.{front}
use jtrpc.Client.{Client, continues, RespChan, new_resp_chan, send_resp, close_chan}
use jtrpc.Client.Receive.{deliver, round}
use jtrpc.Client.Chan.{send_resp_first, close_chan_twice}
use jtrpc.Client.Dispatch.{response_to, round-delivers, round-unknown}
use jtrpc.Tests.{write_once, key_a, roomy}

abbrev asked : Request Unit
asked = record (new_request tt key_a) { id = 3 }

abbrev waiting : RespChan Unit
waiting = record { req = asked; ch = none; ch_closed = false; marked = false }

abbrev client : Client Unit
client = record {
  input = [];
  sink = roomy;
  req_counter = 3;
  reqs = (3, waiting) ∷ [];
  streams = [];
  closed = false;
}

no_msg_flag : has_stream_msg_flag 0 ≡ false
unfolding has_stream_msg_flag
no_msg_flag = refl

waits_for_3 : lookup 3 client.reqs ≡ some waiting
unfolding lookup
waits_for_3 = refl

not_for_4 : lookup 4 client.reqs ≡ none
unfolding lookup
not_for_4 = refl

round-delivers_test :
    round write_once
      (record client { input = fixed_bytes 3 0 1 0 1 ++ ([] ++ (b'x' ∷ [] ++ 9 ∷ [])) })
    ≡ deliver (record client { input = 9 ∷ [] }) 3 waiting (response_to waiting 0 1 [] (b'x' ∷ []))
round-delivers_test =
    round-delivers write_once client waiting 3 0 1 [] (b'x' ∷ []) (9 ∷ []) (omega arith)
      (omega arith) (omega arith) no_msg_flag waits_for_3

round-unknown_test :
    round write_once (record client { input = front 4 0 ++ (1 ∷ 0 ∷ 0 ∷ []) })
    ≡ continues (record client { input = 1 ∷ 0 ∷ 0 ∷ [] })
round-unknown_test =
    round-unknown write_once client 4 0 (1 ∷ 0 ∷ 0 ∷ []) (omega arith) no_msg_flag not_for_4

abbrev reply : Response Unit
reply = new_response 3 0 none

send_resp_first_test :
    (rc : RespChan Unit) × (send_resp (new_resp_chan asked) reply ≡ done rc)
    × (rc.ch ≡ some reply)
    × (send_resp rc reply ≡ done rc)
send_resp_first_test = send_resp_first asked reply reply

close_chan_twice_test :
    (shut : RespChan Unit) × (close_chan waiting ≡ done (shut, true))
    × (close_chan shut ≡ panics)
    × (send_resp shut reply ≡ panics)
close_chan_twice_test = close_chan_twice waiting reply refl refl
