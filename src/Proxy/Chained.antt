-- ===== src/Proxy/Chained.antt =====
-- A server of the configuration that stands behind a tunnel gets a connection: the whole way,
-- through both proxies.
use jtrpc.Common.{
  ℕ, ◌+◌, ◌-◌, ◌≤◌, ◌<◌, ◌^◌, ◌≡◌, refl, sym, ap, ◌∙◌, true, Option, none, some, [], ◌∷◌, ◌++◌,
  append-nil, Bytes, bytes_eq, bytes_eq_iff, length, All, Bool-cases, inl, inr, Outcome, done,
  panics, stuck,
}
use jtrpc.Common.Maps.{lookup, bytes_key}
use jtrpc.Io.{Sink, WriteAll, WritesAll}
use jtrpc.Io.Laws.{write_fits, read_full-append}
use jtrpc.Proxy.Servers.{Server, Registry, init, init_config}
use jtrpc.Proxy.Registry.{Given}
use jtrpc.Proxy.Tunnel.{tunnel_initial, connect_msg, accepted, read_reply, is_accepted, open_tunnel}
use jtrpc.Proxy.Waiting.{
  store, handle_tunnel_conn, Made, waits, tunnel_msg, begin_client, receive_client,
}
use jtrpc.Proxy.RunTunnel.{tunnel_round, dials, tunnel_round-tunnel_msg}
use jtrpc.Proxy.Delivery.{tunneled, taken, receive_client-delivers}

read_reply-accepted : (more : Bytes) → read_reply tunnel_initial (tunnel_initial ∷ more) ≡ accepted
unfolding read_reply
read_reply-accepted more = rw (read_full-append 1 (tunnel_initial ∷ []) more refl) refl

open_tunnel-connect_msg :
    (pwd path more : Bytes) (sink : Sink)
    → length (connect_msg tunnel_initial pwd path) ≤ sink.room
    → let r = open_tunnel pwd path (record { input = tunnel_initial ∷ more; sink = sink }) in
      (r.link.sink.out ≡ sink.out ++ connect_msg tunnel_initial pwd path) × (r.kept ≡ true)
unfolding open_tunnel
open_tunnel-connect_msg pwd path more sink fits =
    rw (write_fits sink (connect_msg tunnel_initial pwd path) fits)
      (refl, ap is_accepted (read_reply-accepted more))

-- The path of a server that was found.
abbrev path_in : {K N : Type 0} → Bytes → Option (Option (Server K N)) → Bytes
path_in other none = other
path_in other (some none) = other
path_in other (some (some s)) = s.path

abbrev or_empty : {K N : Type 0} → Outcome (Registry K N) → Registry K N
or_empty (done m) = m
or_empty panics = []
or_empty stuck = []

module _ {K N : Type 0} where
  -- The configuration is set up.
  pub record IsConfig (m : Registry K N) : Type 0 where
    pub servers : Registry K N
    pub runs : init_config m ≡ done servers
    pub paths :
        (path : Bytes) (s : Server K N) → lookup path servers ≡ some (some s) → s.path ≡ path

  init_config_lem : (m : Registry K N) → All Given m → IsConfig m
  unfolding init_config lookup
  init_config_lem [] g = record { servers = []; runs = refl; paths = λ path s e. absurd cc }
  init_config_lem ((p, none) ∷ more) g = absurd g.0
  init_config_lem ((p, some t) ∷ more) g =
      let rest = init_config_lem more g.1 in
      record {
        servers = (p, some (record (init t) { path = p })) ∷ rest.servers;
        runs = rw rest.runs refl;
        paths = λ path s e. elim (Bool-cases (bytes_eq p path)) [
          | inl same ↦ sym (ap (path_in path) (rw same at e)) ∙ (bytes_eq_iff p path).0 same
          | inr other ↦ rest.paths path s (rw other at e)
        ];
      }

  path-init_config :
      (m servers : Registry K N) (path : Bytes) (s : Server K N)
      → All Given m
      → init_config m ≡ done servers
      → lookup path servers ≡ some (some s)
      → s.path ≡ path
  path-init_config m servers path s g runs there =
      let config = init_config_lem m g in
      config.paths path s (rw (ap or_empty (sym runs ∙ config.runs)) at there)

  -- A server of the configuration stands behind a tunnel, its channel is empty, and it needs a
  -- client. Through four steps it gets one: `newClient` counts and writes a message to the
  -- tunnel; the proxy at the other end, whose `Read` gives the whole head of the message, takes
  -- it off and dials for a path; the new connection presents the password and that path, which
  -- `handleTunnelConn` accepts, since it is the path under which the server stands in the map,
  -- and the proxy that dialed keeps the connection; and `newClient` makes the client of just that
  -- connection, while the server is as it was before. All lengths must fit into 16 bits, the
  -- writers must have room, and the counter must have room for one more.
  pub receive_client-chained :
      (write_all : WriteAll) (dial : Bytes → Made K) (with_rw : N → Made K)
      (m servers : Registry K N) (path password later more : Bytes) (s : Server K N) (t conn : N)
      (k : ℕ) (tunnel dialed sink : Sink)
      → WritesAll write_all
      → All Given m
      → init_config m ≡ done servers
      → lookup path servers ≡ some (some s)
      → length password < 65536
      → length path < 65536
      → k + 1 < 2 ^ 31
      → length (tunnel_msg s.path) ≤ tunnel.room
      → length (connect_msg tunnel_initial password path) ≤ dialed.room
      → 1 ≤ sink.room
      → let before = tunneled s t k in
        let opened =
          open_tunnel password path (record { input = tunnel_initial ∷ more; sink = dialed }) in
        (asked after : Server K N) × (told : Sink) × (begin_client write_all dial before tunnel
          ≡ done (asked, (told, waits)))
        × (told.out ≡ tunnel.out ++ tunnel_msg path)
        × (tunnel_round 3 (tunnel_msg path ++ later) ≡ dials path later)
        × (opened.link.sink.out ≡ dialed.out ++ connect_msg tunnel_initial password path)
        × (opened.kept ≡ true)
        × (handle_tunnel_conn password
              (store servers path asked)
              conn
              (record { input = connect_msg tunnel_initial password path; sink = sink })
            ≡ done (
                taken
                  (store (store servers path asked) path after)
                  (record { input = []; sink = sink })))
        × (receive_client with_rw after ≡ some (before, with_rw conn))
  receive_client-chained write_all dial with_rw m servers path password later more s t conn k tunnel
        dialed sink total g runs there hpwd hpath hk fits fits' room =
      let its_path = path-init_config m servers path s g runs there in
      let (asked, after, begins, hands, receives) =
        receive_client-delivers write_all dial with_rw password path [] servers s t conn k tunnel
          sink total hpwd hpath hk fits room in
      let (says, keeps) = open_tunnel-connect_msg password path more dialed fits' in
      (
        asked,
        after,
        record {
          out = tunnel.out ++ tunnel_msg s.path;
          room = tunnel.room - length (tunnel_msg s.path);
        },
        begins,
        ap (λ p. tunnel.out ++ tunnel_msg p) its_path,
        (tunnel_round-tunnel_msg path later hpath).0,
        says,
        keeps,
        rw (append-nil (connect_msg tunnel_initial password path)) at hands,
        receives,
      )
