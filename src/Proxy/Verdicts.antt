-- ===== src/Proxy/Verdicts.antt =====
-- The whole handshake of a tunnel, for every message that a proxy may send.
use jtrpc.Common.{
  ℕ, ◌≤◌, ◌<◌, ◌≡◌, refl, ap, ◌∙◌, not, Option, none, some, [], ◌∷◌, ◌++◌, Bytes, bytes_eq,
  Bool-cases, inl, inr, length, drop, if◌then◌else◌, Outcome, done, arith,
}
use jtrpc.Common.Maps.{lookup, bytes_key}
use jtrpc.Wire.{get2}
use jtrpc.Wire.RoundTrip.{le2, get2-le2}
use jtrpc.Io.{Sink}
use jtrpc.Io.Laws.{read_full-append}
use jtrpc.Proxy.Paths.{codes}
use jtrpc.Proxy.Servers.{Server, Registry, tunnel_addr}
use jtrpc.Proxy.Tunnel.{
  tunnel_connect_initial, Link, connect_msg, read_reply, Taken, refuses, then_read, connect_to,
  handle_tunnel_connect,
}
use jtrpc.Proxy.Handshake.{
  answer_of, read_reply-refused, head5, connect_msg-head5, write_err_msg_fits, tunnel_reply, Usable,
  entry_reply, verdict, concluded, connect_to-concluded, then_read-append,
}

module _ {K N : Type 0} where
  -- Every reply of a verdict is read back.
  read_reply-entry :
      (e : Option (Option (Server K N))) (more : Bytes)
      → Usable e
      → read_reply tunnel_connect_initial (answer_of (entry_reply e) ++ more) ≡ entry_reply e
  unfolding read_reply
  read_reply-entry none more u =
      read_reply-refused tunnel_connect_initial (codes "incorrect password") more (omega arith)
  read_reply-entry (some none) more u = absurd u
  read_reply-entry (some (some s)) more (t, e) = elim (Bool-cases (bytes_eq s.addr tunnel_addr)) [
    | inr other ↦
        rw other
          (read_reply-refused tunnel_connect_initial (codes "not a tunnel") more (omega arith))
    | inl is_tunnel ↦ simp (is_tunnel, e) (read_tunnel t)
  ]
    where
      read_tunnel :
          (t : Option N)
          → read_reply tunnel_connect_initial (answer_of (tunnel_reply (some t)) ++ more)
            ≡ tunnel_reply (some t)
      read_tunnel none = rw (read_full-append 1 (tunnel_connect_initial ∷ []) more refl) refl
      read_tunnel (some other) =
          read_reply-refused tunnel_connect_initial (codes "tunnel already connected") more
            (omega arith)

  -- The lengths and the password of the message are read, and compared.
  handle_tunnel_connect-head5 :
      (password pwd path rest : Bytes) (m : Registry K N) (conn : N) (sink : Sink)
      → length pwd < 65536
      → length path < 65536
      → let l : Link = record { input = path ++ rest; sink = sink } in
        handle_tunnel_connect password m conn
          (record { input = connect_msg tunnel_connect_initial pwd path ++ rest; sink = sink })
        ≡ (if not (bytes_eq pwd password)
            then refuses m l (codes "incorrect password")
            else then_read m l (length path) (λ l3 name. connect_to m conn l3 name))
  unfolding handle_tunnel_connect
  handle_tunnel_connect-head5 password pwd path rest m conn sink hpwd hpath =
      rw (connect_msg-head5 tunnel_connect_initial pwd path rest) (
        then_read-append m sink 5 (head5 tunnel_connect_initial (length pwd) (length path))
          (pwd ++ (path ++ rest))
          (λ l1 buf.
            then_read m l1 (get2 (drop 1 buf)) (λ l2 given. compared (get2 (drop 3 buf)) l2 given))
          refl
        ∙ then_read-append m sink (get2 (le2 (length pwd) ++ le2 (length path))) pwd (path ++ rest)
            (compared (get2 (le2 (length path)))) (get2-le2 (length pwd) (le2 (length path)) hpwd)
        ∙ ap (λ n. compared n (record { input = path ++ rest; sink = sink }) pwd)
            (get2-le2 (length path) [] hpath))
    where
      compared : ℕ → Link → Bytes → Outcome (Taken K N)
      compared n l given =
          if not (bytes_eq given password)
          then refuses m l (codes "incorrect password")
          else then_read m l n (λ l3 name. connect_to m conn l3 name)

  -- A proxy asks to become the tunnel of a path, with a message of `tunnelTo`, whose password and
  -- path are shorter than 2 ^ 16 bytes, to a proxy that has an initialised server or none at the
  -- path and room for the answer. `handleTunnelConnect` takes the connection for the server
  -- exactly if the password is right and the server is a tunnel without connection, and changes
  -- the map in no other way; otherwise it drops the connection with the text that says why; and
  -- `tunnelTo` reads the answer as it is meant, whatever comes behind it.
  pub handle_tunnel_connect-verdict :
      (password pwd path rest more : Bytes) (m : Registry K N) (conn : N) (sink : Sink)
      → length pwd < 65536
      → length path < 65536
      → 27 ≤ sink.room
      → Usable (lookup path m)
      → let reply = verdict password m pwd path in
        (left : Bytes) × (handle_tunnel_connect password m conn
            (record { input = connect_msg tunnel_connect_initial pwd path ++ rest; sink = sink })
          ≡ done (concluded m conn (record { input = left; sink = sink }) path reply))
        × (read_reply tunnel_connect_initial (answer_of reply ++ more) ≡ reply)
  handle_tunnel_connect-verdict password pwd path rest more m conn sink hpwd hpath room usable =
      elim (Bool-cases (bytes_eq pwd password)) [
        | inl right ↦ (
          rest,
          rw (handle_tunnel_connect-head5 password pwd path rest m conn sink hpwd hpath, right)
              (then_read-append m sink (length path) path rest
                  (λ l3 name. connect_to m conn l3 name) refl
                ∙ connect_to-concluded m conn (record { input = rest; sink = sink }) path usable
                    room),
          rw right (read_reply-entry (lookup path m) more usable),
        )
        | inr wrong ↦ (
          path ++ rest,
          rw
              (
                handle_tunnel_connect-head5 password pwd path rest m conn sink hpwd hpath,
                wrong,
                write_err_msg_fits (record { input = path ++ rest; sink = sink })
                    (codes "incorrect password") (omega arith),
              )
              refl,
          rw wrong (
              read_reply-refused tunnel_connect_initial (codes "incorrect password") more
                (omega arith)),
        )
      ]
