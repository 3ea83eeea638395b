-- ===== src/Proxy/RunTunnel.antt =====
-- proxy/listeners.go, the loop of runTunnel: a proxy reads from its tunnel which paths need a new
-- connection.
use jtrpc.Common.{
  ℕ, ◌-◌, ◌<◌, ◌≡◌, refl, ap, ◌∙◌, not, none, some, [], ◌∷◌, ◌++◌, Bytes, length, take, drop,
  nat_eq, if◌then◌else◌, replicate,
}
use jtrpc.Wire.{get2}
use jtrpc.Wire.RoundTrip.{le2, get2-le2}
use jtrpc.Io.{Reading, read_full}
use jtrpc.Io.Laws.{read_full-append}
use jtrpc.Request.{byte_at}
use jtrpc.Proxy.Tunnel.{tunnel_initial}
use jtrpc.Proxy.Waiting.{tunnel_msg}

-- A round of the loop: it returns, goes on, or starts the goroutine for a path and goes on.
pub data Round : Type 0 where
  ends : Round
  skips : Bytes → Round
  dials : Bytes → Bytes → Round

abbrev pub path_read : Reading → Round
path_read r = elim r.failure [ some e ↦ ends | none ↦ dials r.got r.rest ]

-- What `Read` leaves in a new buffer of `n` bytes when it gives the first `k` bytes that are there.
unfoldable pub read_some : ℕ → ℕ → Bytes → Bytes
read_some n k input = let got = take k input in got ++ replicate (n - length got) 0

-- `k` is how many bytes `Read` gives: a reader may give fewer than there is room for.
unfoldable pub tunnel_round : ℕ → Bytes → Round
tunnel_round k [] = ends
tunnel_round k (b ∷ input) =
    let buf = read_some 3 k (b ∷ input) in
    let rest = drop k (b ∷ input) in
    if not (nat_eq (byte_at buf 0) tunnel_initial)
    then skips rest
    else path_read (read_full (get2 (drop 1 buf)) rest)

-- `newClient` asks for a path shorter than 2 ^ 16 bytes. A round whose `Read` gives all three bytes
-- of the head takes the message off the tunnel and dials for that path. A round whose `Read` gives
-- only the first byte dials for the empty path, and leaves the length and the path on the tunnel.
pub tunnel_round-tunnel_msg :
    (path rest : Bytes)
    → length path < 65536
    → (tunnel_round 3 (tunnel_msg path ++ rest) ≡ dials path rest)
      × (tunnel_round 1 (tunnel_msg path ++ rest) ≡ dials [] (le2 (length path) ++ (path ++ rest)))
unfolding tunnel_round tunnel_msg read_some get2
tunnel_round-tunnel_msg path rest h = (
  ap (λ n. path_read (read_full n (path ++ rest))) (get2-le2 (length path) [] h)
      ∙ ap path_read (read_full-append (length path) path rest refl),
  ap path_read (read_full-append 0 [] (le2 (length path) ++ (path ++ rest)) refl),
)
