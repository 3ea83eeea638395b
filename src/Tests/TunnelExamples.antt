-- ===== src/Tests/TunnelExamples.antt =====
-- The proxy's tunnels, listeners and clients on small inputs.
use jtrpc.Common.{
  ℕ, ◌≤◌, ◌≡◌, refl, Bool, true, false, none, some, List, [], ◌∷◌, ◌++◌, Bytes, bytes_eq, length,
  take, drop, done, arith, take-append-drop, length-take,
}
use jtrpc.Common.Int.{pos}
use jtrpc.Common.Maps.{lookup, nat_key, bytes_key}
use jtrpc.Wire.RoundTrip.{le2, le8}
use jtrpc.Flags.{msg_flag_close}
use jtrpc.Io.{Reading, Sink}
use jtrpc.Request.{Request}
use jtrpc.Message.{message_body}
use jtrpc.Message.RoundTrip.{message_bytes}
use jtrpc.Stream.{ClosedError, new_stream}
use jtrpc.Client.{Client}
use jtrpc.Proxy.Paths.{codes}
use jtrpc.Proxy.Servers.{Server, Registry, init, init_config}
use jtrpc.Proxy.Tunnel.{
  tunnel_connect_initial, tunnel_initial, connect_msg, read_reply, open_tunnel,
  handle_tunnel_connect,
}
use jtrpc.Proxy.Handshake.{answer_of, verdict, concluded}
use jtrpc.Proxy.Verdicts.{handle_tunnel_connect-verdict}
use jtrpc.Proxy.RunTunnel.{tunnel_round, dials, tunnel_round-tunnel_msg}
use jtrpc.Proxy.Waiting.{
  Made, made, failed, no_tunnel_conn, tunnel_msg, store, begin_client, waits, handle_tunnel_conn,
  receive_client,
}
use jtrpc.Proxy.Delivery.{tunneled, taken}
use jtrpc.Proxy.Chained.{receive_client-chained}
use jtrpc.Proxy.Listener.{
  Chans, Replayed, Listener, new_proxy_listener, handle, close_with_err, fails, err_closed,
  http_accept, jtrpc_accept,
}
use jtrpc.Proxy.Replay.{Reads}
use jtrpc.Proxy.Directed.{same_conn, Directs, handle-Directs}
use jtrpc.Proxy.Closes.{
  http_side, jtrpc_side, close_sides, close_all, close_sides-keeps, accept-close_all,
}
use jtrpc.Proxy.Piping.{Pipe, parting, relayed, then_ends, pipe_streams, pipe_streams-relays}
use jtrpc.Tests.{write_once, write_once-WritesAll, key_a, key_b, roomy, message_of}

abbrev bare : Server ℕ ℕ
bare = record {
  name = key_a;
  path = codes "/a";
  addr = codes "host";
  hidden = false;
  clients = none;
  tunnel_conn = none;
  tch = none;
  n_waiting = pos 0;
}

abbrev far : Server ℕ ℕ
far = record bare { addr = codes "tunnel"; tunnel_conn = some none }

abbrev far_at_a : Registry ℕ ℕ
far_at_a = (key_a, some far) ∷ []

far_there : lookup key_a far_at_a ≡ some (some far)
unfolding lookup bytes_eq
far_there = refl

handle_tunnel_connect-verdict_example :
    let reply = verdict key_b far_at_a key_b key_a in
    (left : Bytes) × (handle_tunnel_connect key_b far_at_a 9
        (record { input = connect_msg tunnel_connect_initial key_b key_a ++ []; sink = roomy })
      ≡ done (concluded far_at_a 9 (record { input = left; sink = roomy }) key_a reply))
    × (read_reply tunnel_connect_initial (answer_of reply ++ []) ≡ reply)
handle_tunnel_connect-verdict_example =
    handle_tunnel_connect-verdict key_b key_b key_a [] [] far_at_a 9 roomy (omega arith)
      (omega arith) (omega arith) (rw far_there (none, refl))

tunnel_round-tunnel_msg_test :
    (tunnel_round 3 (tunnel_msg key_a ++ key_b) ≡ dials key_a key_b)
    × (tunnel_round 1 (tunnel_msg key_a ++ key_b)
        ≡ dials [] (le2 (length key_a) ++ (key_a ++ key_b)))
tunnel_round-tunnel_msg_test = tunnel_round-tunnel_msg key_a key_b (omega arith)

abbrev no_dial : Bytes → Made ℕ
no_dial addr = failed no_tunnel_conn

abbrev with_id : ℕ → Made ℕ
with_id conn = made conn

msg_fits : (length (tunnel_msg key_a) ≡ 4) × (length (connect_msg tunnel_initial key_b key_a) ≡ 7)
unfolding tunnel_msg connect_msg
msg_fits = (refl, refl)

-- A configuration with one server behind a tunnel.
abbrev configured : Server ℕ ℕ
configured = record far { path = key_a; clients = some []; tch = some [] }

config_runs : init_config far_at_a ≡ done ((key_a, some configured) ∷ [])
unfolding init_config init bytes_eq
config_runs = refl

configured_there : lookup key_a ((key_a, some configured) ∷ []) ≡ some (some configured)
unfolding lookup bytes_eq
configured_there = refl

receive_client-chained_example :
    let servers : Registry ℕ ℕ = (key_a, some configured) ∷ [] in
    let before = tunneled configured 3 0 in
    let opened = open_tunnel key_b key_a (record { input = tunnel_initial ∷ []; sink = roomy }) in
    (asked after : Server ℕ ℕ) × (told : Sink) × (begin_client write_once no_dial before roomy
      ≡ done (asked, (told, waits)))
    × (told.out ≡ [] ++ tunnel_msg key_a)
    × (tunnel_round 3 (tunnel_msg key_a ++ key_b) ≡ dials key_a key_b)
    × (opened.link.sink.out ≡ [] ++ connect_msg tunnel_initial key_b key_a)
    × (opened.kept ≡ true)
    × (handle_tunnel_conn key_b
          (store servers key_a asked)
          9
          (record { input = connect_msg tunnel_initial key_b key_a; sink = roomy })
        ≡ done (
            taken
              (store (store servers key_a asked) key_a after)
              (record { input = []; sink = roomy })))
    × (receive_client with_id after ≡ some (before, with_id 9))
receive_client-chained_example =
    receive_client-chained write_once no_dial with_id far_at_a ((key_a, some configured) ∷ []) key_a
      key_b key_b [] configured 3 9 0 roomy roomy roomy write_once-WritesAll (tt, tt) config_runs
      configured_there (omega arith) (omega arith) (omega arith) (omega (arith, msg_fits.0))
      (omega (arith, msg_fits.1)) (omega arith)

abbrev client : Client Unit
client = record {
  input = [];
  sink = roomy;
  req_counter = 6;
  reqs = [];
  streams = [];
  closed = false;
}

abbrev request : Request Unit
request = record {
  id = 1;
  ctx = tt;
  remote_addr = [];
  flags = 0;
  path = key_a;
  headers = none;
  body = some [];
}

abbrev no_fresh : ℕ → Made (Client Unit)
no_fresh n = failed no_tunnel_conn

abbrev in_order : ℕ → List (Client Unit) → List (Client Unit)
in_order n cs = cs

-- A reader that gives all that there is room for.
abbrev reads_all : ℕ → Bytes → Reading
reads_all n b = record { got = take n b; rest = drop n b; failure = none }

reads_all-Reads : Reads reads_all
reads_all-Reads n b = (take-append-drop n b, omega (arith, length-take n b))

-- Channels that are a list and whether they are closed.
abbrev lists : Chans (List ℕ × Bool) Replayed
lists = record {
  send = λ u n. (u, false);
  recv = λ u. (u, none);
  close = λ u. (u.0, true);
  is_closed = λ u. u.1;
}

abbrev listener : Listener (List ℕ × Bool)
listener = new_proxy_listener ([], false) ([], false)

open_listener : (listener.closed ≡ false) × (listener.http_ch.1 ≡ false)
unfolding new_proxy_listener
open_listener = (refl, refl)

-- Channels that take what they are given.
abbrev taking : Chans (List ℕ × Bool) Replayed
taking = record lists { send = λ u n. ((1 ∷ u.0, u.1), true) }

handle-Directs_example :
    Directs taking reads_all true listener 0 key_a
      (handle taking same_conn true listener (0 ∷ key_a)).1
handle-Directs_example = handle-Directs taking reads_all true listener 0 key_a reads_all-Reads

close_sides-keeps_test :
    ((close_sides lists listener (http_side ∷ jtrpc_side ∷ [])).http_ch ≡ listener.http_ch)
    × ((close_sides lists listener (http_side ∷ jtrpc_side ∷ [])).ln_closed ≡ listener.ln_closed)
close_sides-keeps_test =
    close_sides-keeps lists listener (http_side ∷ jtrpc_side ∷ []) open_listener.1

accept-close_all_test :
    let after = close_all lists listener (none ∷ none ∷ []) in
    (after ≡ close_with_err lists listener none)
    × ((http_accept lists after).1 ≡ fails err_closed)
    × ((jtrpc_accept lists after).1 ≡ fails err_closed)
accept-close_all_test = accept-close_all lists listener none (none ∷ []) open_listener.0 refl refl

abbrev farewell : ClosedError
farewell = record { message = message_of 5; has_message = true; client_closed = true }

abbrev pipe : Pipe
pipe = record {
  from = new_stream 7;
  to = record { req_id = 8; chan = []; buffer = []; closed = false; close_err = none };
  from_sink = roomy;
  to_sink = roomy;
  running = true;
}

relay_fits :
    length (
      relayed write_once 8 (message_of 4 ∷ [])
      ++ message_bytes
          (record (parting write_once farewell) { flags = msg_flag_close; req_id = 8 }))
    ≤ 1000
unfolding le8 message_body
relay_fits = omega arith

pipe_streams-relays_example :
    let goodbye =
      message_bytes (record (parting write_once farewell) { flags = msg_flag_close; req_id = 8 }) in
    let q = pipe_streams write_once (then_ends write_once (message_of 4 ∷ []) farewell []) pipe in
    (q.to_sink.out ≡ [] ++ (relayed write_once 8 (message_of 4 ∷ []) ++ goodbye))
    × (q.to.closed ≡ true)
    × (q.running ≡ false)
pipe_streams-relays_example =
    pipe_streams-relays write_once (message_of 4 ∷ []) farewell [] pipe write_once-WritesAll refl
      relay_fits
