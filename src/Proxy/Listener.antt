-- ===== src/Proxy/Listener.antt =====
-- proxy/listeners.go: ProxyListener, handle, and the closing of the listener and of its two sides.
--
-- A channel of connections is utils.UChan of github.com/johnietre/utils/go, which is not part of
-- this repository: `Chans` has its functions as parameters. `U` is the type of channels, `N` that
-- of connections. The calls of a listener take its mutexes one after the other, so each is one
-- step.
use jtrpc.Common.{ℕ, Bool, true, false, not, ◌&&◌, Option, none, some, Bytes, nat_eq, if◌then◌else◌}
use jtrpc.Io.{read_full}
use jtrpc.Request.{byte_at}
use jtrpc.Proxy.Tunnel.{Link, jtrpc_initial, tunnel_initial, tunnel_connect_initial}

-- Send, Recv (`none` is a closed channel), Close and IsClosed of UChan.
pub record Chans (U N : Type 0) : Type 0 where
  pub send : U → N → U × Bool
  pub recv : U → U × Option N
  pub close : U → U
  pub is_closed : U → Bool

-- The error that a listener keeps: `ErrClosed`, or the one of Accept.
pub data CloseError : Type 0 where
  err_closed : CloseError
  accept_error : Bytes → CloseError

-- A connection whose first bytes were read: Conn.
pub record Replayed : Type 0 where
  pub initial : Bytes
  pub read_initial : Bool
  pub input : Bytes

-- `tunnel_conn` is the connection that tunnelTo has made.
pub record Listener (U : Type 0) : Type 0 where
  pub http_ch : U
  pub jtrpc_ch : U
  pub closed : Bool
  pub err_val : Option CloseError
  pub ln_closed : Bool
  pub tunnel_conn : Option Link

-- `NewProxyListener`, of the two channels that it makes.
unfoldable pub new_proxy_listener : {U : Type 0} → U → U → Listener U
new_proxy_listener http jtrpc_ = record {
  http_ch = http;
  jtrpc_ch = jtrpc_;
  closed = false;
  err_val = none;
  ln_closed = false;
  tunnel_conn = none;
}

unfoldable pub new_conn : Bytes → Bytes → Replayed
new_conn input initial = record { initial = initial; read_initial = false; input = input }

-- Where `handle` sends a connection: it is closed, given to one of the channels, or to a goroutine.
pub data Directed (N : Type 0) : Type 0 where
  dropped : Directed N
  to_jtrpc to_http : N → Directed N
  tunnels connects : N → Directed N

-- What `Accept` of the two sides gives: a connection, or an error.
pub data Accepted (N : Type 0) : Type 0 where
  accepts : N → Accepted N
  fails : CloseError → Accepted N

abbrev pub error_or_closed : Option CloseError → CloseError
error_or_closed none = err_closed
error_or_closed (some e) = e

abbrev pub from_recv : {U N : Type 0} → Listener U → Option N → Accepted N
from_recv pl none = fails (error_or_closed pl.err_val)
from_recv pl (some conn) = accepts conn

module _ {U N : Type 0} (chans : Chans U N) (wraps : Replayed → N) where
  abbrev pub send_jtrpc : Listener U → N → Listener U × Directed N
  send_jtrpc pl conn =
      let (ch, ok) = chans.send pl.jtrpc_ch conn in
      (record pl { jtrpc_ch = ch }, if ok then to_jtrpc conn else dropped)

  abbrev pub send_http : Listener U → N → Listener U × Directed N
  send_http pl conn =
      let (ch, ok) = chans.send pl.http_ch conn in
      (record pl { http_ch = ch }, if ok then to_http conn else dropped)

  -- The initial byte says what the connection is for.
  abbrev pub direct : Listener U → ℕ → N → Listener U × Directed N
  direct pl kind conn =
      if nat_eq kind jtrpc_initial
      then send_jtrpc pl conn
      else if nat_eq kind tunnel_initial
      then (pl, tunnels conn)
      else if nat_eq kind tunnel_connect_initial
      then (pl, connects conn)
      else send_http pl conn

  -- `handle`; the Boolean says whether setting and clearing the deadline works.
  unfoldable pub handle : Bool → Listener U → Bytes → Listener U × Directed N
  handle deadlines_ok pl input =
      let r = read_full 1 input in
      if not deadlines_ok then (pl, dropped) else elim r.failure [
        | some e ↦ (pl, dropped)
        | none ↦ direct pl (byte_at r.got 0) (wraps (new_conn r.rest r.got))
      ]

module _ {U N : Type 0} (chans : Chans U N) where
  -- `closeHttp`
  unfoldable pub close_http : Bool → Listener U → Listener U
  close_http check pl =
      let pl' = record pl { http_ch = chans.close pl.http_ch } in
      if check && chans.is_closed pl.jtrpc_ch then record pl' { ln_closed = true } else pl'

  -- `closeJtrpc`
  unfoldable pub close_jtrpc : Bool → Listener U → Listener U
  close_jtrpc check pl =
      let pl' = record pl { jtrpc_ch = chans.close pl.jtrpc_ch } in
      if check && chans.is_closed pl.http_ch then record pl' { ln_closed = true } else pl'

  -- `closeWithErr`
  unfoldable pub close_with_err : Listener U → Option CloseError → Listener U
  close_with_err pl err =
      if pl.closed
      then record pl { ln_closed = true }
      else close_jtrpc false (
          close_http false
            (record pl { ln_closed = true; closed = true; err_val = some (error_or_closed err) }))

  -- `Close` of HTTPListener and of JtRPCListener.
  unfoldable pub http_listener_close : Listener U → Listener U
  http_listener_close pl = close_jtrpc true pl

  unfoldable pub jtrpc_listener_close : Listener U → Listener U
  jtrpc_listener_close pl = close_jtrpc true pl

  unfoldable pub http_accept : Listener U → Listener U × Accepted N
  http_accept pl =
      let (ch, o) = chans.recv pl.http_ch in (record pl { http_ch = ch }, from_recv pl o)

  unfoldable pub jtrpc_accept : Listener U → Listener U × Accepted N
  jtrpc_accept pl =
      let (ch, o) = chans.recv pl.jtrpc_ch in (record pl { jtrpc_ch = ch }, from_recv pl o)
