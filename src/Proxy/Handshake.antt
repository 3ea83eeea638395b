-- ===== src/Proxy/Handshake.antt =====
-- A proxy that asks to become the tunnel of a server, and what the other proxy makes of it.
use jtrpc.Common.{
  ℕ, ◌-◌, ◌≤◌, ◌<◌, ◌≡◌, refl, sym, ap, true, Option, none, some, [], ◌∷◌, ◌++◌, append_assoc,
  Bytes, bytes_eq, Bool-cases, Option-cases, inl, inr, length, if◌then◌else◌, Outcome, done, arith,
}
use jtrpc.Common.Maps.{lookup, insert, bytes_key}
use jtrpc.Wire.{append2}
use jtrpc.Wire.RoundTrip.{le2, get2-le2}
use jtrpc.Io.{Sink}
use jtrpc.Io.Laws.{read_full-append, write_fits}
use jtrpc.Proxy.Paths.{codes}
use jtrpc.Proxy.Servers.{Server, Registry, tunnel_addr}
use jtrpc.Proxy.Tunnel.{
  tunnel_connect_initial, error_initial, Link, write_err_msg, connect_msg, Reply, accepted, refused,
  unexpected, unreadable, read_reply, Taken, then_read, swap_in, connect_to, is_accepted,
}

-- What the answer says, for the bytes that are written.
abbrev pub answer_of : Reply → Bytes
answer_of accepted = tunnel_connect_initial ∷ []
answer_of (refused msg) = append2 (error_initial ∷ []) (length msg) ++ msg
answer_of (unexpected b) = b ∷ []
answer_of (unreadable e) = []

-- An error message is read back as it was written, if its length fits.
pub read_reply-refused :
    (kind : ℕ) (msg more : Bytes)
    → length msg < 65536
    → read_reply kind (answer_of (refused msg) ++ more) ≡ refused msg
unfolding read_reply
read_reply-refused kind msg more h =
    rw
      (
        read_full-append 1 (error_initial ∷ []) (le2 (length msg) ++ (msg ++ more)) refl,
        read_full-append 2 (le2 (length msg)) (msg ++ more) refl,
        get2-le2 (length msg) [] h,
        read_full-append (length msg) msg more refl,
      )
      refl

-- The head of the message.
abbrev pub head5 : ℕ → ℕ → ℕ → Bytes
head5 kind a b = kind ∷ le2 a ++ le2 b

pub connect_msg-head5 :
    (kind : ℕ) (pwd path rest : Bytes)
    → connect_msg kind pwd path ++ rest
      ≡ head5 kind (length pwd) (length path) ++ (pwd ++ (path ++ rest))
unfolding connect_msg
connect_msg-head5 kind pwd path rest = rw (append_assoc pwd path rest) refl

pub write_err_msg_fits :
    (l : Link) (msg : Bytes)
    → length (answer_of (refused msg)) ≤ l.sink.room
    → write_err_msg l msg ≡ record l {
      sink = record {
        out = l.sink.out ++ answer_of (refused msg);
        room = l.sink.room - length (answer_of (refused msg));
      };
    }
unfolding write_err_msg
write_err_msg_fits l msg h = rw (write_fits l.sink (answer_of (refused msg)) h) refl

-- The link after the answer, which had room for it.
abbrev pub answered : Link → Reply → Link
answered l reply = record l {
  sink = record {
    out = l.sink.out ++ answer_of reply;
    room = l.sink.room - length (answer_of reply);
  };
}

abbrev pub tunnel_reply : {N : Type 0} → Option (Option N) → Reply
tunnel_reply (some (some other)) = refused (codes "tunnel already connected")
tunnel_reply (some none) = accepted
tunnel_reply none = accepted

module _ {K N : Type 0} where
  -- An entry that is there is no nil pointer and was initialised.
  abbrev pub Usable : Option (Option (Server K N)) → Type 0
  Usable none = Unit {0}
  Usable (some none) = ⊥
  Usable (some (some s)) = (t : Option N) × (s.tunnel_conn ≡ some t)

  -- What a proxy that asks is to be told, with the right password.
  abbrev pub entry_reply : Option (Option (Server K N)) → Reply
  entry_reply none = refused (codes "incorrect password")
  entry_reply (some none) = refused []
  entry_reply (some (some s)) =
      if bytes_eq s.addr tunnel_addr
      then tunnel_reply s.tunnel_conn
      else refused (codes "not a tunnel")

  abbrev pub verdict : Bytes → Registry K N → Bytes → Bytes → Reply
  verdict password m pwd path =
      if bytes_eq pwd password
      then entry_reply (lookup path m)
      else refused (codes "incorrect password")

  -- The map afterwards: the tunnel's server has the connection.
  abbrev pub joined : Reply → Registry K N → N → Bytes → Registry K N
  joined accepted m conn path = elim (lookup path m) [
    | none ↦ m
    | some srvr ↦ elim srvr [
      | none ↦ m
      | some s ↦ insert path (some (record s { tunnel_conn = some (some conn) })) m
    ]
  ]
  joined (refused msg) m conn path = m
  joined (unexpected b) m conn path = m
  joined (unreadable e) m conn path = m

  abbrev pub concluded : Registry K N → N → Link → Bytes → Reply → Taken K N
  concluded m conn l path reply = record {
    servers = joined reply m conn path;
    link = answered l reply;
    kept = is_accepted reply;
  }

  joined_there :
      (m : Registry K N) (conn : N) (path : Bytes) (s : Server K N)
      → lookup path m ≡ some (some s)
      → joined accepted m conn path
        ≡ insert path (some (record s { tunnel_conn = some (some conn) })) m
  joined_there m conn path s there = rw (joined, there) refl

  swap_in-concluded :
      (m : Registry K N) (conn : N) (l : Link) (path : Bytes) (s : Server K N) (t : Option N)
      → s.tunnel_conn ≡ some t
      → lookup path m ≡ some (some s)
      → 27 ≤ l.sink.room
      → swap_in m conn l path s ≡ done (concluded m conn l path (tunnel_reply (some t)))
  unfolding swap_in
  swap_in-concluded m conn l path s none e there room =
      simp (swap_in, e, write_fits l.sink (tunnel_connect_initial ∷ []) (omega arith))
        (ap (λ r. done (record { servers = r; link = answered l accepted; kept = true }))
          (sym (joined_there m conn path s there)))
  swap_in-concluded m conn l path s (some other) e there room =
      simp (swap_in, e, write_err_msg_fits l (codes "tunnel already connected") room)

  pub connect_to-concluded :
      (m : Registry K N) (conn : N) (l : Link) (path : Bytes)
      → Usable (lookup path m)
      → 27 ≤ l.sink.room
      → connect_to m conn l path ≡ done (concluded m conn l path (entry_reply (lookup path m)))
  unfolding connect_to
  connect_to-concluded m conn l path usable room = elim (Option-cases (lookup path m)) [
    | inl absent ↦
        simp (connect_to, absent, write_err_msg_fits l (codes "incorrect password") (omega arith))
    | inr (none, there) ↦ absurd (rw there at usable)
    | inr (some s, there) ↦
        let (t, e) : (t : Option N) × (s.tunnel_conn ≡ some t) = rw there at usable in
        elim (Bool-cases (bytes_eq s.addr tunnel_addr)) [
          | inl is_tunnel ↦
              simp
                (connect_to, there, is_tunnel, e, swap_in-concluded m conn l path s t e there room)
          | inr other ↦
              simp (
                connect_to,
                there,
                other,
                write_err_msg_fits l (codes "not a tunnel") (omega arith),
              )
        ]
  ]

  pub then_read-append :
      (m : Registry K N) (sink : Sink) (n : ℕ) (b rest : Bytes)
      (k : Link → Bytes → Outcome (Taken K N))
      → n ≡ length b
      → then_read m (record { input = b ++ rest; sink = sink }) n k
        ≡ k (record { input = rest; sink = sink }) b
  then_read-append m sink n b rest k e = simp (then_read, read_full-append n b rest e)
