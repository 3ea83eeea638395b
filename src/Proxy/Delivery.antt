-- ===== src/Proxy/Delivery.antt =====
-- A server that waits for a connection gets the one that comes through its tunnel.
use jtrpc.Common.{
  ℕ, ◌+◌, ◌-◌, ◌≤◌, ◌<◌, ◌^◌, ◌≡◌, refl, ◌∙◌, true, false, not, some, [], ◌∷◌, ◌++◌, Bytes,
  bytes_eq, length, drop, if◌then◌else◌, Outcome, done, arith,
}
use jtrpc.Common.Int.{pos, negsuc}
use jtrpc.Common.Maps.{lookup-insert_self, beq_refl, bytes_key}
use jtrpc.Wire.{get2}
use jtrpc.Wire.RoundTrip.{le2, get2-le2}
use jtrpc.Io.{Sink, WriteAll, WritesAll}
use jtrpc.Io.Laws.{copy_n-append, write_fits}
use jtrpc.Proxy.Paths.{codes}
use jtrpc.Proxy.Servers.{Server, Registry, tunnel_addr}
use jtrpc.Proxy.Tunnel.{tunnel_initial, Link, connect_msg, Taken, refuses, then_read}
use jtrpc.Proxy.Handshake.{connect_msg-head5, then_read-append}
use jtrpc.Proxy.Waiting.{
  inc32, dec32, expects, store, take_over, hand_over, handle_tunnel_conn, Made, waits, tunnel_msg,
  begin_client, receive_client,
}

-- A server with a tunnel, `k` goroutines that wait, and nothing in its channel.
abbrev pub tunneled : {K N : Type 0} → Server K N → N → ℕ → Server K N
tunneled s t k = record s {
  addr = tunnel_addr;
  tunnel_conn = some (some t);
  tch = some [];
  n_waiting = pos k;
}

abbrev lengths4 : Bytes → Bytes → Bytes
lengths4 pwd path = le2 (length pwd) ++ le2 (length path)

inc32_more : (k : ℕ) → k + 1 < 2 ^ 31 → inc32 (pos k) ≡ pos (k + 1)
unfolding inc32
inc32_more k h = ground arith

dec32_more : (k : ℕ) → dec32 (pos (k + 1)) ≡ pos k
unfolding dec32
dec32_more k = ground arith

expects_more :
    {K N : Type 0} (s : Server K N) (t : N) (k : ℕ) → expects (tunneled s t (k + 1)) ≡ true
unfolding expects
expects_more s t k = ground arith

module _ {K N : Type 0} where
  -- A connection that was taken, with room for the ready byte.
  abbrev pub taken : Registry K N → Link → Taken K N
  taken m l = record {
    servers = m;
    link = record l {
      sink = record { out = l.sink.out ++ tunnel_initial ∷ []; room = l.sink.room - 1 };
    };
    kept = true;
  }

  -- The message of a new connection is read up to the path, when the password is right.
  handle_tunnel_conn-connect_msg :
      (password path rest : Bytes) (m : Registry K N) (conn : N) (sink : Sink)
      → length password < 65536
      → length path < 65536
      → handle_tunnel_conn password m conn
          (record { input = connect_msg tunnel_initial password path ++ rest; sink = sink })
        ≡ hand_over m conn (record { input = rest; sink = sink }) path
  unfolding handle_tunnel_conn
  handle_tunnel_conn-connect_msg password path rest m conn sink hpwd hpath =
      rw
        (
          connect_msg-head5 tunnel_initial password path rest,
          copy_n-append (pos 1) (tunnel_initial ∷ [])
              (lengths4 password path ++ (password ++ (path ++ rest))) refl,
        )
        (then_read-append m sink 4 (lengths4 password path) (password ++ (path ++ rest))
            (λ l1 buf.
              then_read m l1 (get2 buf) (λ l2 given. compared (get2 (drop 2 buf)) l2 given))
            refl
          ∙ then_read-append m sink (get2 (lengths4 password path)) password (path ++ rest)
              (compared (get2 (le2 (length path))))
              (get2-le2 (length password) (le2 (length path)) hpwd)
          ∙ rw (beq_refl password, get2-le2 (length path) [] hpath)
              (then_read-append m sink (length path) path rest (λ l name. hand_over m conn l name)
                refl))
    where
      compared : ℕ → Link → Bytes → Outcome (Taken K N)
      compared n l given =
          if not (bytes_eq given password)
          then refuses m l (codes "incorrect password")
          else then_read m l n (λ l3 name. hand_over m conn l3 name)

  -- The server in the three steps: before, while one goroutine more waits, with the connection.
  hand_over-tunneled :
      (m : Registry K N) (s : Server K N) (t conn : N) (k : ℕ) (l : Link) (path : Bytes)
      → 1 ≤ l.sink.room
      → let asked = tunneled s t (k + 1) in
        hand_over (store m path asked) conn l path
        ≡ done (record {
          servers =
              store (store m path asked) path (record (tunneled s t k) { tch = some (conn ∷ []) });
          link = record l {
            sink = record { out = l.sink.out ++ tunnel_initial ∷ []; room = l.sink.room - 1 };
          };
          kept = true;
        })
  unfolding hand_over take_over
  hand_over-tunneled m s t conn k l path room = simp (
    hand_over,
    lookup-insert_self path (some (tunneled s t (k + 1))) m,
    write_fits l.sink (tunnel_initial ∷ []) room,
    expects_more s t k,
    dec32_more k,
  )

  -- A server behind a tunnel, whose channel is empty and whose counter of waiting goroutines can
  -- be counted up, needs a client. `newClient` counts, and writes the message with the server's
  -- path to the tunnel. A connection that then brings the right password and the path under which
  -- the server is in the map passes all checks of `handleTunnelConn` and is told so; `newClient`
  -- makes the client of just that connection, and the server is as it was before.
  pub receive_client-delivers :
      (write_all : WriteAll) (dial : Bytes → Made K) (with_rw : N → Made K)
      (password path rest : Bytes) (m : Registry K N) (s : Server K N) (t conn : N) (k : ℕ)
      (tunnel sink : Sink)
      → WritesAll write_all
      → length password < 65536
      → length path < 65536
      → k + 1 < 2 ^ 31
      → length (tunnel_msg s.path) ≤ tunnel.room
      → 1 ≤ sink.room
      → let before = tunneled s t k in
        (asked after : Server K N) × (begin_client write_all dial before tunnel
          ≡ done (
            asked,
            (
              record {
                out = tunnel.out ++ tunnel_msg s.path;
                room = tunnel.room - length (tunnel_msg s.path);
              },
              waits,
            ),
          ))
        × (handle_tunnel_conn password
              (store m path asked)
              conn
              (record { input = connect_msg tunnel_initial password path ++ rest; sink = sink })
            ≡ done (record {
              servers = store (store m path asked) path after;
              link = record {
                input = rest;
                sink = record { out = sink.out ++ tunnel_initial ∷ []; room = sink.room - 1 };
              };
              kept = true;
            }))
        × (receive_client with_rw after ≡ some (before, with_rw conn))
  unfolding begin_client receive_client bytes_eq tunnel_msg
  receive_client-delivers write_all dial with_rw password path rest m s t conn k tunnel sink total
        hpwd hpath hk fits room =
      (
        tunneled s t (k + 1),
        record (tunneled s t k) { tch = some (conn ∷ []) },
        simp (
          begin_client,
          total tunnel (tunnel_msg s.path),
          write_fits tunnel (tunnel_msg s.path) fits,
          inc32_more k hk,
        ),
        handle_tunnel_conn-connect_msg password path rest (store m path (tunneled s t (k + 1))) conn
              sink hpwd hpath
            ∙ hand_over-tunneled m s t conn k (record { input = rest; sink = sink }) path room,
        refl,
      )

  -- One goroutine waits, and two connections pass the check of `nWaiting` before either counts it
  -- down: both are taken, the counter is then -1, the check lets the next connection through
  -- although nobody waits, and once a goroutine waits again the check refuses every connection.
  pub take_over-overtaken :
      (m : Registry K N) (s : Server K N) (t c1 c2 : N) (l1 l2 : Link) (path : Bytes)
      → 1 ≤ l1.sink.room
      → 1 ≤ l2.sink.room
      → let s1 = tunneled s t 1 in
        let s2 : Server K N = record (tunneled s t 0) { tch = some (c1 ∷ []) } in
        let s3 : Server K N = record s2 { tch = some (c1 ∷ c2 ∷ []); n_waiting = negsuc 0 } in
        (expects s1 ≡ true)
        × (take_over m c1 l1 path s1 [] ≡ done (taken (store m path s2) l1))
        × (take_over (store m path s2) c2 l2 path s2 (c1 ∷ [])
            ≡ done (taken (store (store m path s2) path s3) l2))
        × (expects s3 ≡ true)
        × (expects (record s3 { n_waiting = inc32 s3.n_waiting }) ≡ false)
  unfolding take_over expects dec32 inc32
  take_over-overtaken m s t c1 c2 l1 l2 path room1 room2 = (
    refl,
    simp (take_over, write_fits l1.sink (tunnel_initial ∷ []) room1),
    simp (take_over, write_fits l2.sink (tunnel_initial ∷ []) room2),
    refl,
    refl,
  )
