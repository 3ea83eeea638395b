-- ===== src/Proxy/Directed.antt =====
-- Where the listener sends a new connection, and what is read from it there.
use jtrpc.Common.{
  ℕ, ◌≡◌, ◌≢◌, refl, Bool, true, false, ◌⊎◌, List, [], ◌∷◌, ◌++◌, Bytes, Bool-cases, inl, inr,
  nat_eq, nat_eq_iff, arith,
}
use jtrpc.Io.{Reading}
use jtrpc.Io.Laws.{read_full-append}
use jtrpc.Proxy.Tunnel.{jtrpc_initial, tunnel_initial, tunnel_connect_initial}
use jtrpc.Proxy.Listener.{
  Chans, Listener, Replayed, new_conn, Directed, dropped, to_jtrpc, to_http, tunnels, connects,
  send_jtrpc, send_http, direct, handle,
}
use jtrpc.Proxy.Replay.{conn_reads, Reads, conn_reads-new_conn}

abbrev pub same_conn : Replayed → Replayed
same_conn c = c

module _ {U : Type 0} (chans : Chans U Replayed) (read : ℕ → Bytes → Reading) where
  -- All reads of the connection together, with what it still has, are these bytes.
  abbrev pub Gives : Bytes → Replayed → Type 0
  Gives whole c =
      (sizes : List ℕ)
      → (conn_reads read c sizes).1
          ++ ((conn_reads read c sizes).0.initial ++ (conn_reads read c sizes).0.input)
        ≡ whole

  abbrev pub IsOther : ℕ → Type 0
  IsOther b = (b ≢ jtrpc_initial) × (b ≢ tunnel_initial) × (b ≢ tunnel_connect_initial)

  -- Whether a connection that begins with the byte `b` may be dropped: the deadline cannot be set, or
  -- the channel to which it goes does not take it.
  abbrev pub MayDrop : Bool → Listener U → ℕ → Replayed → Type 0
  MayDrop deadlines_ok pl b c =
      (deadlines_ok ≡ false)
      ⊎ (((b ≡ jtrpc_initial) × ((chans.send pl.jtrpc_ch c).1 ≡ false))
          ⊎ (IsOther b × ((chans.send pl.http_ch c).1 ≡ false)))

  -- A connection that begins with this byte is given where the byte says, to a channel that takes it
  -- or to a goroutine, and gives all of these bytes; or it is dropped for one of these reasons.
  abbrev pub Directs : Bool → Listener U → ℕ → Bytes → Directed Replayed → Type 0
  Directs ok pl b rest dropped = MayDrop ok pl b (new_conn rest (b ∷ []))
  Directs ok pl b rest (to_jtrpc c) =
      (b ≡ jtrpc_initial) × ((chans.send pl.jtrpc_ch c).1 ≡ true) × Gives (b ∷ rest) c
  Directs ok pl b rest (tunnels c) = (b ≡ tunnel_initial) × Gives (b ∷ rest) c
  Directs ok pl b rest (connects c) = (b ≡ tunnel_connect_initial) × Gives (b ∷ rest) c
  Directs ok pl b rest (to_http c) =
      IsOther b × ((chans.send pl.http_ch c).1 ≡ true) × Gives (b ∷ rest) c

  send_jtrpc-Directs :
      (pl : Listener U) (b : ℕ) (rest : Bytes)
      → b ≡ jtrpc_initial
      → Gives (b ∷ rest) (new_conn rest (b ∷ []))
      → Directs true pl b rest (send_jtrpc chans same_conn pl (new_conn rest (b ∷ []))).1
  send_jtrpc-Directs pl b rest is0 gives =
      elim (Bool-cases (chans.send pl.jtrpc_ch (new_conn rest (b ∷ []))).1) [
        | inl takes ↦ rw takes (is0, takes, gives)
        | inr refuses ↦ rw refuses (inr (inl (is0, refuses)))
      ]

  send_http-Directs :
      (pl : Listener U) (b : ℕ) (rest : Bytes)
      → IsOther b
      → Gives (b ∷ rest) (new_conn rest (b ∷ []))
      → Directs true pl b rest (send_http chans same_conn pl (new_conn rest (b ∷ []))).1
  send_http-Directs pl b rest other gives =
      elim (Bool-cases (chans.send pl.http_ch (new_conn rest (b ∷ []))).1) [
        | inl takes ↦ rw takes (other, takes, gives)
        | inr refuses ↦ rw refuses (inr (inr (other, refuses)))
      ]

  direct-Directs :
      (pl : Listener U) (b : ℕ) (rest : Bytes)
      → Gives (b ∷ rest) (new_conn rest (b ∷ []))
      → Directs true pl b rest (direct chans same_conn pl b (new_conn rest (b ∷ []))).1
  direct-Directs pl b rest gives = elim (Bool-cases (nat_eq b jtrpc_initial)) [
    | inl is0 ↦ rw is0 (send_jtrpc-Directs pl b rest ((nat_eq_iff b jtrpc_initial).0 is0) gives)
    | inr not0 ↦ elim (Bool-cases (nat_eq b tunnel_initial)) [
      | inl is1 ↦ rw (not0, is1) ((nat_eq_iff b tunnel_initial).0 is1, gives)
      | inr not1 ↦ elim (Bool-cases (nat_eq b tunnel_connect_initial)) [
        | inl is2 ↦ rw (not0, not1, is2) ((nat_eq_iff b tunnel_connect_initial).0 is2, gives)
        | inr not2 ↦
            rw (not0, not1, not2)
              (send_http-Directs pl b rest
                (
                  ground (arith, nat_eq_iff b jtrpc_initial, not0),
                  ground (arith, nat_eq_iff b tunnel_initial, not1),
                  ground (arith, nat_eq_iff b tunnel_connect_initial, not2),
                )
                gives)
      ]
    ]
  ]

  handle_first :
      (pl : Listener U) (b : ℕ) (rest : Bytes)
      → handle chans same_conn true pl (b ∷ rest)
        ≡ direct chans same_conn pl b (new_conn rest (b ∷ []))
  unfolding handle
  handle_first pl b rest = simp (handle, read_full-append 1 (b ∷ []) rest refl)

  -- `handle` on a connection that sends at least one byte: it gives the connection to the JtRPC side
  -- for a 0 and to the HTTP side for a byte from 3 on, if the channel of that side takes it, to
  -- handleTunnelConn for a 1 and to handleTunnelConnect for a 2; it drops it only if that channel
  -- does not take it, or if the deadline cannot be set. Whoever gets it reads all that the peer
  -- sent, the first byte included, in whatever pieces. The connection's own reader is taken to give
  -- what is next.
  pub handle-Directs :
      (deadlines_ok : Bool) (pl : Listener U) (b : ℕ) (rest : Bytes)
      → Reads read
      → Directs deadlines_ok pl b rest (handle chans same_conn deadlines_ok pl (b ∷ rest)).1
  unfolding handle
  handle-Directs false pl b rest reads = inl refl
  handle-Directs true pl b rest reads =
      rw (handle_first pl b rest)
        (direct-Directs pl b rest (λ sizes. conn_reads-new_conn read rest (b ∷ []) sizes reads))
