-- ===== src/Proxy/Waiting.antt =====
-- proxy/listeners.go, handleTunnelConn, and proxy/mux.go, newClient and sendReq: a server that needs
-- a new connection waits for one, which comes through its tunnel.
--
-- The channel `tch` is the list of the connections in it. Between the check of `nWaiting` and its
-- decrement other goroutines may run, so these are two definitions, `expects` and `take_over`.
use jtrpc.Common.{
  ℕ, zero, suc, ◌+◌, ◌-◌, ◌^◌, Bool, true, false, not, Option, none, some, List, [], ◌∷◌, ◌++◌,
  Bytes, bytes_eq, length, drop, nat_eq, ltb, if◌then◌else◌, Outcome, done, panics,
}
use jtrpc.Common.Int.{ℤ, pos, negsuc}
use jtrpc.Common.Maps.{lookup, insert, bytes_key}
use jtrpc.Wire.{append2, get2}
use jtrpc.Io.{Error, timed_out, copy_n, Sink, Written, WriteAll, write}
use jtrpc.Proxy.Paths.{codes}
use jtrpc.Proxy.Servers.{Server, Registry, tunnel_addr}
use jtrpc.Proxy.Tunnel.{tunnel_initial, Link, wrote, Taken, refuses, then_read}

-- Add(1) and Add(-1) of an atomic.Int32.
unfoldable pub inc32 : ℤ → ℤ
inc32 (pos n) = if nat_eq (n + 1) (2 ^ 31) then negsuc (2 ^ 31 - 1) else pos (n + 1)
inc32 (negsuc zero) = pos 0
inc32 (negsuc (suc n)) = negsuc n

unfoldable pub dec32 : ℤ → ℤ
dec32 (pos n) = if nat_eq n 0 then negsuc 0 else pos (n - 1)
dec32 (negsuc n) = if nat_eq (n + 1) (2 ^ 31) then pos (2 ^ 31 - 1) else negsuc (n + 1)

-- `if n := srvr.nWaiting.Add(-1); n < 0 { srvr.nWaiting.Add(1) }`
unfoldable pub stop_waiting : ℤ → ℤ
stop_waiting n = elim (dec32 n) [ pos k ↦ pos k | negsuc k ↦ inc32 (negsuc k) ]

abbrev pub tch_size : ℕ
tch_size = 15

-- `srvr.nWaiting.Load() == 0` fails.
unfoldable pub expects : {K N : Type 0} → Server K N → Bool
expects s = elim s.n_waiting [ pos k ↦ not (nat_eq k 0) | negsuc k ↦ true ]

module _ {K N : Type 0} where
  abbrev pub store : Registry K N → Bytes → Server K N → Registry K N
  store m path s = insert path (some s) m

  -- The ready byte was written, or not.
  abbrev pub handed : Registry K N → Link → Written → Taken K N
  handed m l w = record {
    servers = m;
    link = wrote l w;
    kept = elim w.failure [ some e ↦ false | none ↦ true ];
  }

  -- `handleTunnelConn` from the decrement on: the channel takes the connection if it is not full,
  -- and keeps it also if the ready byte cannot be written.
  unfoldable pub take_over :
      Registry K N → N → Link → Bytes → Server K N → List N → Outcome (Taken K N)
  take_over m conn l path s queue =
      let counted = record s { n_waiting = dec32 s.n_waiting } in
      if ltb (length queue) tch_size
      then done (
          handed (store m path (record counted { tch = some (queue ++ conn ∷ []) })) l
            (write l.sink (tunnel_initial ∷ [])))
      else refuses (store m path counted) l (codes "internal server error")

  -- From the map of servers to the check of `nWaiting`.
  unfoldable pub hand_over : Registry K N → N → Link → Bytes → Outcome (Taken K N)
  hand_over m conn l path = elim (lookup path m) [
    | none ↦ refuses m l (codes "server doesn't exist")
    | some none ↦ panics
    | some (some s) ↦ elim s.tch [
      | none ↦ refuses m l (codes "server doesn't exist")
      | some queue ↦
          if not (expects s)
          then refuses m l (codes "server not expecting new connections")
          else take_over m conn l path s queue
    ]
  ]

  -- `handleTunnelConn`, without a goroutine between the check and the decrement.
  unfoldable pub handle_tunnel_conn : Bytes → Registry K N → N → Link → Outcome (Taken K N)
  handle_tunnel_conn password m conn l =
      let l0 = record l { input = (copy_n (pos 1) l.input).rest } in
      then_read m l0 4 λ l1 buf. then_read m l1 (get2 buf) λ l2 pwd.
        if not (bytes_eq pwd password)
        then refuses m l2 (codes "incorrect password")
        else then_read m l2 (get2 (drop 2 buf)) (λ l3 path. hand_over m conn l3 path)

-- The errors of `newClient` and `sendReq`; `other_fault` is one of net.Dial, WithRW or Send.
pub data Fault : Type 0 where
  no_tunnel_conn max_attempts : Fault
  io_fault : Error → Fault
  other_fault : Bytes → Fault

pub data Made (K : Type 0) : Type 0 where
  made : K → Made K
  failed : Fault → Made K

-- What the first part of `newClient` gives: a client or an error, or it waits for a connection.
pub data Begun (K : Type 0) : Type 0 where
  begun : Made K → Begun K
  waits : Begun K

-- The message to the proxy behind a tunnel.
unfoldable pub tunnel_msg : Bytes → Bytes
tunnel_msg path = append2 (tunnel_initial ∷ []) (length path) ++ path

module _ {K N : Type 0} where
  -- `newClient` to the select; `sink` is the writer of the tunnel's connection.
  unfoldable pub begin_client :
      WriteAll → (Bytes → Made K) → Server K N → Sink → Outcome (Server K N × (Sink × Begun K))
  begin_client write_all dial s sink =
      if not (bytes_eq s.addr tunnel_addr)
      then done (s, (sink, begun (dial s.addr)))
      else elim s.tunnel_conn [
        | none ↦ panics
        | some none ↦ done (s, (sink, begun (failed no_tunnel_conn)))
        | some (some conn) ↦
            let waiting = inc32 s.n_waiting in
            let w = write_all sink (tunnel_msg s.path) in
            elim w.failure [
              | some e ↦ done (
                record s { n_waiting = stop_waiting waiting },
                (w.sink, begun (failed (io_fault e))),
              )
              | none ↦ done (record s { n_waiting = waiting }, (w.sink, waits))
            ]
      ]

  -- The select takes the next connection of the channel; `none` is a channel that has none.
  unfoldable pub receive_client : (N → Made K) → Server K N → Option (Server K N × Made K)
  receive_client with_rw s = elim s.tch [
    | none ↦ none
    | some [] ↦ none
    | some (c ∷ queue) ↦ some (record s { tch = some queue }, with_rw c)
  ]

  -- The select takes the timer.
  unfoldable pub expire_client : Server K N → Server K N × Made K
  expire_client s = (record s { n_waiting = stop_waiting s.n_waiting }, failed (io_fault timed_out))
