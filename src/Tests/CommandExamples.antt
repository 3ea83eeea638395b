-- ===== src/Tests/CommandExamples.antt =====
-- The command of the proxy against a small proxy.
use jtrpc.Common.{
  ℕ, ◌≡◌, refl, true, false, Option, none, some, [], ◌∷◌, Bytes, bytes_eq, done, panics, arith,
}
use jtrpc.Common.Int.{pos}
use jtrpc.Common.Maps.{bytes_key}
use jtrpc.Response.{Response, new_response}
use jtrpc.Response.RoundTrip.{response_body}
use jtrpc.Response.ReadAll.{body_string, body_string-total}
use jtrpc.Proxy.Paths.{codes}
use jtrpc.Proxy.Servers.{Server, Registry, decoded, malformed, init, init_config}
use jtrpc.Proxy.Routing.{Info}
use jtrpc.Proxy.Admin.{Json}
use jtrpc.Proxy.Command.{Host, dial}
use jtrpc.Proxy.RunClient.{run_client, run_client-undialed}
use jtrpc.Proxy.RunServer.{
  Config, empty_config, Machine, Served, serving, load_config, serve_on, run_server, Serves,
  AreReady, run_server-Serves,
}
use jtrpc.Proxy.Listener.{new_proxy_listener}
use jtrpc.Client.{Client}
use jtrpc.Response.RoundTrip.{fixed_bytes}
use jtrpc.Common.{◌++◌}
use jtrpc.Request.{Request, new_request}
use jtrpc.Tests.{roomy}
use jtrpc.Tests.{write_once, key_a, key_b}

-- A context is the information that was put into it.
abbrev Ctx : Type 0
Ctx = Option (Info ℕ ℕ)

abbrev plain_server : Server ℕ ℕ
plain_server = record {
  name = key_a;
  path = [];
  addr = codes "host";
  hidden = false;
  clients = none;
  tunnel_conn = none;
  tch = none;
  n_waiting = pos 0;
}

abbrev servers : Registry ℕ ℕ
servers = (codes "/a", some plain_server) ∷ []

-- The one value that is written or read is `servers`.
abbrev json : Json ℕ ℕ
json = record {
  decode_servers = λ b. decoded servers;
  decode_paths = λ b. malformed [];
  marshal_servers = λ m. some (codes "{/a: ...}");
  marshal_errors = λ e. none;
}

abbrev path : Bytes
path = codes "/admin/servers/new"

abbrev body : Bytes
body = codes "{/a: ...}"

-- A host that reaches nobody.
abbrev host : Host Ctx
host = record {
  open_file = λ p. some body;
  indent = λ b. some b;
  marshal_paths = λ ps. some [];
  net_dial = λ a. none;
  room = λ k. 512;
}

not_dialed : dial write_once false none json host key_b ≡ none
unfolding dial
not_dialed = refl

run_client-undialed_test :
    run_client write_once false none json host key_a
      (record { addr = key_b; password = none; get = true; new = []; del = []; replace = key_a })
    ≡ panics
run_client-undialed_test =
    run_client-undialed write_once false none json host key_a
      (record { addr = key_b; password = none; get = true; new = []; del = []; replace = key_a })
      not_dialed

abbrev two_bytes : Response Ctx
two_bytes = record (new_response 1 0 none) {
  body = some (record { src = 1 ∷ 2 ∷ 3 ∷ []; len = 2; closed = false });
  body_len = 2;
}

body_string-total_example :
    (after : Response Ctx) × (body_string (λ k. 1) two_bytes
      ≡ done (record { resp = after; got = 1 ∷ 2 ∷ []; failure = none }))
    × (response_body after.body ≡ [])
body_string-total_example = body_string-total (λ k. 1) two_bytes (λ k. omega arith)

-- A configuration with one server, without a tunnel.
abbrev config : Config ℕ ℕ
config = record empty_config { addr = key_b; servers = some servers }

abbrev machine : Machine ℕ ℕ ℕ
machine = record {
  open_file = λ p. some body;
  decode_config = λ c b. some config;
  listens = λ a. true;
  net_dial = λ a. none;
  http_ch = 0;
  jtrpc_ch = 1;
}

abbrev started : Served ℕ ℕ ℕ
started = record {
  addr = key_b;
  servers =
      (
        codes "/a",
        some
            (record plain_server { path = codes "/a"; clients = some []; tunnel_conn = some none }),
      )
      ∷ [];
  listener = new_proxy_listener 0 1;
  tunnel = none;
}

starts :
    run_server write_once machine key_a (record { addr = none; config_path = path })
    ≡ done (serving started)
unfolding run_server load_config serve_on init_config init bytes_eq
starts = refl

run_server-Serves_example :
    Serves write_once machine started
    × AreReady write_once machine started.servers
    × ((a : Bytes) → none ≡ some a → started.addr ≡ a)
run_server-Serves_example =
    run_server-Serves write_once machine key_a (record { addr = none; config_path = path }) started
      starts

-- A client whose connection goes on with an answer to its next request.
abbrev answered_client : Client Ctx
answered_client = record {
  input = fixed_bytes 7 0 0 0 0 ++ 9 ∷ [];
  sink = roomy;
  req_counter = 6;
  reqs = [];
  streams = [];
  closed = false;
}

abbrev plain_request : Request Ctx
plain_request = new_request none path
