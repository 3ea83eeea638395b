-- ===== src/Proxy/Tunnel.antt =====
-- proxy/listeners.go: the messages by which one proxy tunnels to another, and handleTunnelConnect.
--
-- `N` is the identity of a connection, and `Link` what it carries: the bytes that the peer still
-- sends and the writer. A function that takes a connection over says in `kept` whether it leaves
-- it open.
use jtrpc.Common.{
  ℕ, Bool, true, false, not, none, some, [], ◌∷◌, ◌++◌, Bytes, bytes_eq, length, drop, nat_eq,
  if◌then◌else◌, Outcome, done, panics,
}
use jtrpc.Common.Maps.{lookup, insert, bytes_key}
use jtrpc.Wire.{append2, get2}
use jtrpc.Io.{Error, Reading, read_full, Sink, Written, WriteAll, write}
use jtrpc.Request.{byte_at}
use jtrpc.Proxy.Paths.{codes}
use jtrpc.Proxy.Servers.{Server, Registry, tunnel_addr}

abbrev pub jtrpc_initial : ℕ
jtrpc_initial = 0

abbrev pub tunnel_initial : ℕ
tunnel_initial = 1

abbrev pub tunnel_connect_initial : ℕ
tunnel_connect_initial = 2

abbrev pub error_initial : ℕ
error_initial = 255

pub record Link : Type 0 where
  pub input : Bytes
  pub sink : Sink

-- What is left of a link after a write.
abbrev pub wrote : Link → Written → Link
wrote l w = record l { sink = w.sink }

-- `writeErrMsg`; its callers do not read its error.
unfoldable pub write_err_msg : Link → Bytes → Link
write_err_msg l msg = wrote l (write l.sink (append2 (error_initial ∷ []) (length msg) ++ msg))

-- The message of `tunnelTo`, and that of a new connection of `runTunnel`: a kind, both lengths, the
-- password and the path.
unfoldable pub connect_msg : ℕ → Bytes → Bytes → Bytes
connect_msg kind pwd path =
    append2 (append2 (kind ∷ []) (length pwd)) (length path) ++ (pwd ++ path)

-- The answer to it, as `tunnelTo` and `runTunnel` read it.
pub data Reply : Type 0 where
  accepted : Reply
  refused : Bytes → Reply
  unexpected : ℕ → Reply
  unreadable : Error → Reply

abbrev pub reads : Reading → (Bytes → Bytes → Reply) → Reply
reads r k = elim r.failure [ some e ↦ unreadable e | none ↦ k r.got r.rest ]

unfoldable pub read_reply : ℕ → Bytes → Reply
read_reply kind input = reads (read_full 1 input) λ first rest.
    if nat_eq (byte_at first 0) error_initial
    then reads (read_full 2 rest)
        (λ len rest'. reads (read_full (get2 len) rest') (λ msg left. refused msg))
    else if nat_eq (byte_at first 0) kind
    then accepted
    else unexpected (byte_at first 0)

-- What becomes of a connection that was taken over, and of the map of servers.
pub record Taken (K N : Type 0) : Type 0 where
  pub servers : Registry K N
  pub link : Link
  pub kept : Bool

module _ {K N : Type 0} where
  -- The function returns, and the connection is closed.
  abbrev pub drops : Registry K N → Link → Outcome (Taken K N)
  drops m l = done (record { servers = m; link = l; kept = false })

  abbrev pub refuses : Registry K N → Link → Bytes → Outcome (Taken K N)
  refuses m l msg = drops m (write_err_msg l msg)

  -- Go on after a read of `n` bytes that gave no error.
  abbrev pub then_read :
      Registry K N → Link → ℕ → (Link → Bytes → Outcome (Taken K N)) → Outcome (Taken K N)
  then_read m l n k =
      let r = read_full n l.input in
      elim r.failure [
        | some e ↦ drops m (record l { input = r.rest })
        | none ↦ k (record l { input = r.rest }) r.got
      ]

  -- The connection becomes the tunnel of a server that has none.
  unfoldable pub swap_in : Registry K N → N → Link → Bytes → Server K N → Outcome (Taken K N)
  swap_in m conn l path s = elim s.tunnel_conn [
    | none ↦ panics
    | some (some other) ↦ refuses m l (codes "tunnel already connected")
    | some none ↦
        let w = write l.sink (tunnel_connect_initial ∷ []) in
        elim w.failure [
          | some e ↦ drops m (wrote l w)
          | none ↦ done (record {
            servers = insert path (some (record s { tunnel_conn = some (some conn) })) m;
            link = wrote l w;
            kept = true;
          })
        ]
  ]

  unfoldable pub connect_to : Registry K N → N → Link → Bytes → Outcome (Taken K N)
  connect_to m conn l path = elim (lookup path m) [
    | none ↦ refuses m l (codes "incorrect password")
    | some none ↦ panics
    | some (some s) ↦
        if not (bytes_eq s.addr tunnel_addr)
        then refuses m l (codes "not a tunnel")
        else swap_in m conn l path s
  ]

  -- `handleTunnelConnect`
  unfoldable pub handle_tunnel_connect : Bytes → Registry K N → N → Link → Outcome (Taken K N)
  handle_tunnel_connect password m conn l = then_read m l 5 λ l1 buf.
      then_read m l1 (get2 (drop 1 buf)) λ l2 pwd.
        if not (bytes_eq pwd password)
        then refuses m l2 (codes "incorrect password")
        else then_read m l2 (get2 (drop 3 buf)) (λ l3 path. connect_to m conn l3 path)

-- What the proxy that asks keeps, and what it was answered.
pub record Tunneled : Type 0 where
  pub link : Link
  pub kept : Bool
  pub reply : Reply

abbrev pub is_accepted : Reply → Bool
is_accepted accepted = true
is_accepted (refused msg) = false
is_accepted (unexpected b) = false
is_accepted (unreadable e) = false

-- The message was written: read the answer.
abbrev pub exchange : ℕ → Link → Written → Tunneled
exchange kind l w = elim w.failure [
  | some e ↦ record { link = wrote l w; kept = false; reply = unreadable e }
  | none ↦
      let reply = read_reply kind l.input in
      record { link = wrote l w; kept = is_accepted reply; reply = reply }
]

-- `tunnelTo` on a connection that was dialed. Where it keeps the connection, it stores it and the
-- password and starts runTunnel.
unfoldable pub tunnel_to : WriteAll → Bytes → Bytes → Link → Tunneled
tunnel_to write_all path pwd l =
    exchange tunnel_connect_initial l
      (write_all l.sink (connect_msg tunnel_connect_initial pwd path))

-- The goroutine of `runTunnel` on a connection that was dialed; where it keeps it, `handle` runs
-- on it.
unfoldable pub open_tunnel : Bytes → Bytes → Link → Tunneled
open_tunnel tunnel_pwd path l =
    exchange tunnel_initial l (write l.sink (connect_msg tunnel_initial tunnel_pwd path))
