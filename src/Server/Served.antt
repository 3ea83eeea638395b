-- ===== src/Server/Served.antt =====
-- The loop of a connection and its goroutines, in any order: no request is forgotten.
use jtrpc.Common.{◌≡◌, List, ◌∷◌, ◌++◌, Bytes}
use jtrpc.Common.Int.{ℤ}
use jtrpc.Common.Maps.{nat_key}
use jtrpc.Io.{WriteAll}
use jtrpc.Server.{Limits, Handler, MuxOps, Job, Conn, goes_on, run_job}
use jtrpc.Server.Requests.{frame}
use jtrpc.Server.Jobs.{AllServed, KeepsIds, run_job-AllServed}
use jtrpc.Server.Rounds.{frame-Keeps}

module _ {C S : Type 0} (write_all : WriteAll) (limits : Limits) (clone_slice : Bytes → Bytes)
    (sprint : ℤ → Bytes) (background : C) (addr : Bytes) (mux : MuxOps (Handler C) S) where
  -- The states that a connection can get into: the loop takes a round, or one of the goroutines a
  -- step, in any order.
  pub data Reaches (c : Conn C S) : Conn C S → Type 0 where
    here : Reaches c c
    reads :
        {d e : Conn C S}
        → Reaches c d
        → frame write_all limits clone_slice sprint background addr mux d ≡ goes_on e
        → Reaches c e
    works :
        {d : Conn C S} (js : List (Job C S)) (j : Job C S) (ks : List (Job C S))
        → Reaches c d
        → d.jobs ≡ js ++ j ∷ ks
        → KeepsIds j
        → Reaches c (run_job write_all (record d { jobs = js ++ ks }) j)

  -- Whatever a connection reads and in whatever order its goroutines run, no request of `reqs` is
  -- forgotten: each is in the hands of a goroutine that has not answered it. Handlers must leave
  -- the ids of the requests as they are.
  pub Reaches-AllServed : {c d : Conn C S} → Reaches c d → AllServed c → AllServed d
  Reaches-AllServed here h = h
  Reaches-AllServed (reads {d} {e} r step) h = rw step at (
      frame-Keeps write_all limits clone_slice sprint background addr mux d (Reaches-AllServed r h))
  Reaches-AllServed (works {d} js j ks r split keeps) h =
      run_job-AllServed write_all d js j ks keeps (rw split at (Reaches-AllServed r h))
