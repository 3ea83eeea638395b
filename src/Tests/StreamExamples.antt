-- ===== src/Tests/StreamExamples.antt =====
-- The mux and the stream on small inputs.
use jtrpc.Common.{
  ℕ, ◌≡◌, refl, true, false, none, some, List, [], ◌∷◌, ◌++◌, ◌⊎◌, inr, arith, if◌then◌else◌, done,
  panics, replicate,
}
use jtrpc.Common.Maps.{lookup, nat_key}
use jtrpc.Flags.{msg_flag_close}
use jtrpc.Message.{Message, empty_message, write_message}
use jtrpc.Mux.{Middleware}
use jtrpc.Mux.Chain.{Call, regular, globals, regulars}
use jtrpc.Stream.{
  Stream, no_details, add_msg, recv, unset, blocks, received, crashes, get_closed_err,
  close_with_message, of_closed,
}
use jtrpc.Stream.Order.{pending, IsQueue, add_msg-IsQueue, recv-IsQueue}
use jtrpc.Stream.Closing.{close_with_message_once, closed_err_no_details}
use jtrpc.Stream.Races.{recv_closed_crashes, add_msg_crashes, add_msg_reorders}
use jtrpc.Tests.{write_once, key_a, roomy, message_of}

-- Handlers as the list of what runs.
abbrev Trace : Type 0
Trace = List ℕ

abbrev mark : ℕ → Middleware Trace
mark n next = n ∷ next

abbrev calls : List (Call Trace ℕ)
calls =
    regular key_a (100 ∷ []) (mark 5 ∷ [])
    ∷ globals (mark 1 ∷ mark 2 ∷ [])
    ∷ regulars (mark 3 ∷ [])
    ∷ globals (mark 4 ∷ [])
    ∷ regular key_a (101 ∷ []) []
    ∷ []

abbrev open_stream : List Message → List Message → Stream
open_stream chan buffer = record {
  req_id = 7;
  chan = chan;
  buffer = buffer;
  closed = false;
  close_err = none;
}

abbrev shut_stream : List Message → List Message → Stream
shut_stream chan buffer = record {
  req_id = 7;
  chan = chan;
  buffer = buffer;
  closed = true;
  close_err = none;
}

-- A stream with a full channel and one message behind it.
abbrev busy : Stream
busy = open_stream (replicate 50 (message_of 1)) (message_of 2 ∷ [])

busy-IsQueue : IsQueue busy
busy-IsQueue = record { bounded = omega arith; full = inr refl }

add_msg-IsQueue_example :
    (t : Stream) × (add_msg busy (message_of 3) ≡ done (t, none))
    × (pending t ≡ pending busy ++ message_of 3 ∷ [])
    × IsQueue t
    × (t.closed ≡ false)
add_msg-IsQueue_example = add_msg-IsQueue busy (message_of 3) busy-IsQueue refl

recv-IsQueue_example :
    ((pending busy ≡ []) × (recv busy unset ≡ blocks))
    ⊎ ((m : Message) × (t : Stream) × (recv busy unset ≡ received m t)
        × (pending busy ≡ m ∷ pending t)
        × IsQueue t
        × (t.closed ≡ false))
recv-IsQueue_example = recv-IsQueue busy busy-IsQueue refl

-- The connection's streams by id.
abbrev table : List (ℕ × ℕ)
table = (7, 0) ∷ (8, 0) ∷ []

close_with_message_once_test :
    let r = close_with_message write_once busy table roomy true (message_of 4) empty_message in
    let again =
      close_with_message write_once r.stream r.table r.sink true (message_of 4) empty_message in
    (r.stream.closed ≡ true)
    × (lookup busy.req_id r.table ≡ none)
    × (r.sink ≡ (
        if true
        then (write_message write_once
            (record (message_of 4) { req_id = busy.req_id; flags = msg_flag_close })
            roomy).1.sink
        else roomy))
    × (again ≡ record {
      stream = r.stream;
      table = r.table;
      sink = r.sink;
      failure = of_closed (get_closed_err r.stream);
    })
close_with_message_once_test =
    close_with_message_once write_once busy table roomy true (message_of 4) empty_message refl

shut_by_peer :
    get_closed_err
      (close_with_message write_once busy table roomy false empty_message (message_of 4)).stream
    ≡ some no_details
unfolding get_closed_err close_with_message
shut_by_peer = refl

closed_err_no_details_test : (no_details.has_message ≡ false) × (no_details.client_closed ≡ false)
closed_err_no_details_test =
    closed_err_no_details write_once busy table roomy false empty_message (message_of 4) no_details
      refl refl shut_by_peer

recv_closed_crashes_test :
    recv (shut_stream (message_of 1 ∷ []) (message_of 2 ∷ [])) unset ≡ crashes
recv_closed_crashes_test =
    recv_closed_crashes (shut_stream (message_of 1 ∷ []) (message_of 2 ∷ [])) (message_of 1)
      (message_of 2) [] [] refl refl refl

add_msg_crashes_test : add_msg (open_stream [] (message_of 1 ∷ [])) (message_of 2) ≡ panics
add_msg_crashes_test =
    add_msg_crashes (open_stream [] (message_of 1 ∷ [])) (message_of 1) (message_of 2) refl refl
      (omega arith)

add_msg_reorders_test :
    (t : Stream) × (add_msg (open_stream [] (message_of 1 ∷ message_of 2 ∷ [])) (message_of 3)
      ≡ done (t, none))
    × (t.chan ≡ message_of 1 ∷ message_of 3 ∷ [])
    × (t.buffer ≡ message_of 2 ∷ [])
add_msg_reorders_test =
    add_msg_reorders (open_stream [] (message_of 1 ∷ message_of 2 ∷ [])) (message_of 1)
      (message_of 2) (message_of 3) refl refl (omega arith)
