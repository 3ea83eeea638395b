-- ===== src/Proxy/RunServer.antt =====
-- proxy/server.go, RunServer: from the flags and the configuration file to the listener that the
-- proxy serves on.
--
-- The flags are given as the package flag has parsed them. What is in the file, what encoding/json
-- makes of it on top of the configuration so far, whether net.Listen gives a listener, and what the
-- peer sends on a connection to an address are parameters. Behind what is modelled, three
-- goroutines serve until both sides of the listener are closed (Proxy/Listener).
use jtrpc.Common.{
  ◌≡◌, refl, ap, sym, ◌∙◌, Bool, true, not, Option, Option-cases, none, some, List, [], ◌∷◌, Bytes,
  bytes_eq, bytes_eq_iff, Bool-cases, inl, inr, length, nat_eq, if◌then◌else◌, Outcome, done,
  panics, stuck, ◌>>=◌, arith,
}
use jtrpc.Common.Maps.{lookup, bytes_key}
use jtrpc.Io.{WriteAll}
use jtrpc.Proxy.Servers.{Server, Registry, init, init_config}
use jtrpc.Proxy.Tunnel.{Link, Tunneled, tunnel_to, connect_msg, tunnel_connect_initial, is_accepted}
use jtrpc.Proxy.Listener.{Listener, new_proxy_listener}

pub record Config (K N : Type 0) : Type 0 where
  pub addr : Bytes
  pub servers : Option (Registry K N)
  pub password : Bytes
  pub path : Bytes
  pub tunnel_addr : Bytes
  pub tunnel_pwd : Bytes

-- `&Config{}`
abbrev pub empty_config : {K N : Type 0} → Config K N
empty_config = record {
  addr = [];
  servers = none;
  password = [];
  path = [];
  tunnel_addr = [];
  tunnel_pwd = [];
}

-- The flags; an empty text stands for no path of a file, and `none` for `-addr` not given.
pub record ServerArgs : Type 0 where
  pub addr : Option Bytes
  pub config_path : Bytes

pub record Machine (K N U : Type 0) : Type 0 where
  pub open_file : Bytes → Option Bytes
  pub decode_config : Config K N → Bytes → Option (Config K N)
  pub listens : Bytes → Bool
  pub net_dial : Bytes → Option Link
  pub http_ch : U
  pub jtrpc_ch : U

-- What ends the process.
pub data Fatal : Type 0 where
  no_file bad_config no_listener no_tunnel : Fatal

-- What is served: the address, the map of the mux, the listener, and what came of the tunnel.
pub record Served (K N U : Type 0) : Type 0 where
  pub addr : Bytes
  pub servers : Registry K N
  pub listener : Listener U
  pub tunnel : Option Tunneled

pub data Launch (K N U : Type 0) : Type 0 where
  fatal : Fatal → Launch K N U
  serving : Served K N U → Launch K N U

abbrev pub or_empty_map : {K N : Type 0} → Option (Registry K N) → Registry K N
or_empty_map none = []
or_empty_map (some m) = m

-- `addr`: the flag, whose default is the environment's value; if it was not passed, the
-- configuration's.
abbrev pub addr_of : Option Bytes → Bytes → Bytes → Bytes
addr_of given env config_addr =
    let flag_value : Bytes = elim given [ some a ↦ a | none ↦ env ] in
    elim given [ some _ ↦ flag_value | none ↦ config_addr ]

init_has_clients : {K N : Type 0} (s : Server K N) → (ks : List K) × ((init s).clients ≡ some ks)
unfolding init
init_has_clients s = elim (Option-cases s.clients) [
  | inl e ↦ ([], rw e refl)
  | inr (ks, e) ↦ (ks, rw e refl)
]

-- A step of a chain that returned.
>>=-eq-done :
    {A B : Type 0} (x : Outcome A) (f : A → Outcome B) {b : B}
    → (x >>= f) ≡ done b
    → (a : A) × (x ≡ done a) × (f a ≡ done b)
>>=-eq-done (done a) f h = (a, refl, h)
>>=-eq-done panics f h = absurd (ground arith)
>>=-eq-done stuck f h = absurd (ground arith)

module _ {K N U : Type 0} (write_all : WriteAll) (machine : Machine K N U) where
  -- The configuration from the file, where one is given.
  unfoldable pub load_config :
      Bytes → (Config K N → Outcome (Launch K N U)) → Outcome (Launch K N U)
  load_config path k =
      if nat_eq (length path) 0 then k empty_config else elim (machine.open_file path) [
        | none ↦ done (fatal no_file)
        | some content ↦ elim (machine.decode_config empty_config content) [
          | none ↦ done (fatal bad_config)
          | some config ↦ k config
        ]
      ]

  -- `pln.tunnelTo(config.TunnelAddr, config.Path, config.TunnelPwd)`; `none` is an error.
  unfoldable pub dial_tunnel : Config K N → Option Tunneled
  dial_tunnel config = elim (machine.net_dial config.tunnel_addr) [
    | none ↦ none
    | some l ↦
        let t = tunnel_to write_all config.path config.tunnel_pwd l in
        if t.kept then some t else none
  ]

  unfoldable pub serve_on : Bytes → Registry K N → Config K N → Launch K N U
  serve_on addr servers config =
      let s : Served K N U = record {
        addr = addr;
        servers = servers;
        listener = new_proxy_listener machine.http_ch machine.jtrpc_ch;
        tunnel = none;
      } in
      if not (machine.listens addr)
      then fatal no_listener
      else if nat_eq (length config.tunnel_addr) 0
      then serving s
      else elim (dial_tunnel config) [
        | none ↦ fatal no_tunnel
        | some t ↦ serving (record s {
          tunnel = some t;
          listener = record (new_proxy_listener machine.http_ch machine.jtrpc_ch) {
            tunnel_conn = some t.link;
          };
        })
      ]

  -- `RunServer`, of the environment's JTRPC_PROXY_ADDR.
  unfoldable pub run_server : Bytes → ServerArgs → Outcome (Launch K N U)
  run_server env args = load_config args.config_path λ config.
      init_config (or_empty_map config.servers) >>= λ servers.
      done (serve_on (addr_of args.addr env config.addr) servers config)

  -- Every server that is found has its path, and clients to be asked with.
  abbrev pub AreReady : Registry K N → Type 0
  AreReady m =
      (path : Bytes) (s : Server K N)
      → lookup path m ≡ some (some s)
      → (s.path ≡ path) × ((ks : List K) × (s.clients ≡ some ks))

  init_config-AreReady :
      (m servers : Registry K N) → init_config m ≡ done servers → AreReady servers
  unfolding init_config lookup init
  init_config-AreReady [] servers h path s there = absurd (ground arith)
  init_config-AreReady ((p, none) ∷ more) servers h path s there = absurd (ground arith)
  init_config-AreReady ((p, some t) ∷ more) servers h path s there =
      let (rest, runs, whole) =
        >>=-eq-done (init_config more)
          (λ (rest : Registry K N). done ((p, some (record (init t) { path = p })) ∷ rest)) h in
      let ready : Server K N = record (init t) { path = p } in
      let all : (p, some ready) ∷ rest ≡ servers = cc in
      let found : lookup path ((p, some ready) ∷ rest) ≡ some (some s) =
        ap (lookup path) all ∙ there in
      elim (Bool-cases (bytes_eq p path)) [
        | inl same ↦
            let here : ready ≡ s = ground (arith, found, same) in
            (
              ap (λ x. x.path) (sym here) ∙ (bytes_eq_iff p path).0 same,
              rw (← here) (init_has_clients t),
            )
        | inr other ↦ init_config-AreReady more rest runs path s (ground (arith, found, other))
      ]

  -- The configuration that was used.
  load_config-serving :
      (path : Bytes) (k : Config K N → Outcome (Launch K N U)) (s : Served K N U)
      → load_config path k ≡ done (serving s)
      → (config : Config K N) × (k config ≡ done (serving s))
  unfolding load_config
  load_config-serving path k s h = elim (Bool-cases (nat_eq (length path) 0)) [
    | inl no_path ↦ (empty_config, ground (arith, h, no_path))
    | inr given ↦ elim (Option-cases (machine.open_file path)) [
      | inl e ↦ absurd (ground (arith, h, given, e))
      | inr (content, e) ↦ elim (Option-cases (machine.decode_config empty_config content)) [
        | inl d ↦ absurd (ground (arith, h, given, e, d))
        | inr (config, d) ↦ (config, ground (arith, h, given, e, d))
      ]
    ]
  ]

  -- If there is a tunnel, the other proxy accepted it.
  abbrev pub IsAccepted : Option Tunneled → Type 0
  IsAccepted o = (t : Tunneled) → o ≡ some t → is_accepted t.reply ≡ true

  kept-is_accepted :
      (path pwd : Bytes) (l : Link)
      → (tunnel_to write_all path pwd l).kept ≡ is_accepted (tunnel_to write_all path pwd l).reply
  unfolding tunnel_to
  kept-is_accepted path pwd l =
      elim (Option-cases (write_all l.sink (connect_msg tunnel_connect_initial pwd path)).failure) [
        | inl e ↦ rw e refl
        | inr (err, e) ↦ rw e refl
      ]

  dial_tunnel-IsAccepted : (config : Config K N) → IsAccepted (dial_tunnel config)
  unfolding dial_tunnel
  dial_tunnel-IsAccepted config t e = elim (Option-cases (machine.net_dial config.tunnel_addr)) [
    | inl n ↦ absurd (ground (arith, e, n))
    | inr (l, n) ↦ elim (Bool-cases (tunnel_to write_all config.path config.tunnel_pwd l).kept) [
      | inl kept ↦ ground (arith, e, n, kept, kept-is_accepted config.path config.tunnel_pwd l)
      | inr dropped ↦ absurd (ground (arith, e, n, dropped))
    ]
  ]

  -- The connection of a tunnel.
  abbrev pub link_of : Option Tunneled → Option Link
  link_of none = none
  link_of (some t) = some t.link

  -- What is known of a listener that is served on.
  abbrev pub Serves : Served K N U → Type 0
  Serves s =
      (machine.listens s.addr ≡ true)
      × (s.listener ≡ record (new_proxy_listener machine.http_ch machine.jtrpc_ch) {
        tunnel_conn = link_of s.tunnel;
      })
      × IsAccepted s.tunnel

  serve_on-serving :
      (addr : Bytes) (servers : Registry K N) (config : Config K N) (s : Served K N U)
      → serve_on addr servers config ≡ serving s
      → (s.servers ≡ servers) × (s.addr ≡ addr) × Serves s
  unfolding serve_on new_proxy_listener
  serve_on-serving addr servers config s h = elim (Bool-cases (machine.listens addr)) [
    | inr deaf ↦ absurd (ground (arith, h, deaf))
    | inl hears ↦ elim (Bool-cases (nat_eq (length config.tunnel_addr) 0)) [
      | inl none_ ↦
          let same : record {
            addr = addr;
            servers = servers;
            listener = new_proxy_listener machine.http_ch machine.jtrpc_ch;
            tunnel = none;
          }
              ≡ s =
            ground (arith, h, hears, none_) in
          rw (← same) (refl, refl, (hears, refl, λ t e. cc))
      | inr named ↦ elim (Option-cases (dial_tunnel config)) [
        | inl failed ↦ absurd (ground (arith, h, hears, named, failed))
        | inr (t, kept) ↦
            let same : record {
              addr = addr;
              servers = servers;
              listener = record (new_proxy_listener machine.http_ch machine.jtrpc_ch) {
                tunnel_conn = some t.link;
              };
              tunnel = some t;
            }
                ≡ s =
              ground (arith, h, hears, named, kept) in
            rw (← same)
              (refl, refl, (hears, refl, λ u e. dial_tunnel-IsAccepted config u (kept ∙ e)))
      ]
    ]
  ]

  init_config-Serves :
      (addr : Bytes) (config : Config K N) (m : Registry K N) (s : Served K N U)
      → (init_config m >>= λ servers. done (serve_on addr servers config)) ≡ done (serving s)
      → (s.addr ≡ addr) × Serves s × AreReady s.servers
  init_config-Serves addr config m s h =
      let (servers, ready, starts) =
        >>=-eq-done (init_config m) (λ servers. done (serve_on addr servers config)) h in
      let known = serve_on-serving addr servers config s (cc) in
      (known.1, known.2, rw known.0 (init_config-AreReady m servers ready))

  -- If `RunServer` comes to serve: every server that a path leads to in its map has that path, and a
  -- set of clients, as the handlers of the mux want it; there is a listener for its address, which
  -- is that of the flag if it was given; the proxy's listener is as new, but that it has the
  -- connection of the tunnel, if there is one; and this was accepted by the other proxy.
  pub run_server-Serves :
      (env : Bytes) (args : ServerArgs) (s : Served K N U)
      → run_server env args ≡ done (serving s)
      → Serves s × AreReady s.servers × ((a : Bytes) → args.addr ≡ some a → s.addr ≡ a)
  unfolding run_server
  run_server-Serves env args s h =
      let (config, used) = load_config-serving args.config_path _ s h in
      let known =
        init_config-Serves (addr_of args.addr env config.addr) config (or_empty_map config.servers)
          s used in
      (known.1, known.2, λ a given. known.0 ∙ ap (λ o. addr_of o env config.addr) given)
