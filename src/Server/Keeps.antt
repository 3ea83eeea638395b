-- ===== src/Server/Keeps.antt =====
-- A message on a stream leaves the requests of a connection to the goroutines that have them.
use jtrpc.Common.{
  ℕ, sym, Option, none, some, List, [], ◌∷◌, ◌++◌, inl, inr, Bytes, Bool-cases, Option-cases,
  nat_eq, nat_eq_iff, Outcome, done, panics, stuck,
}
use jtrpc.Common.Int.{ℤ, pos, int64, gtz}
use jtrpc.Common.Maps.{insert, lookup-insert, nat_key}
use jtrpc.Wire.{get8}
use jtrpc.Flags.{has_close_flag}
use jtrpc.Io.{WriteAll, copy_n}
use jtrpc.Request.{Request}
use jtrpc.Stream.{Stream, ClosedError, Failure, of_closed, send, add_msg}
use jtrpc.Server.{Limits, Job, Conn, Next, goes_on, returns, crashed, discard, finish_with}
use jtrpc.Server.Messages.{too_large, handle_close, close_by_peer, added, handle_stream_msg}
use jtrpc.Server.Jobs.{Serves, Served, AllServed}

module _ {C S : Type 0} where
  -- If the loop goes on, no request is forgotten.
  abbrev pub Keeps : Next C S → Type 0
  Keeps (goes_on c) = AllServed c
  Keeps (returns c e) = Unit {0}
  Keeps crashed = Unit {0}

  pub discard-Keeps : (c : Conn C S) (n : ℤ) → AllServed c → Keeps (discard c n)
  discard-Keeps c n h = elim (Option-cases (copy_n n c.input).failure) [
    | inl ok ↦ rw ok h
    | inr (e, bad) ↦ rw bad tt
  ]

  pub finish_with-Keeps :
      (c : Conn C S) (e : Option Failure) → AllServed c → Keeps (finish_with c e)
  finish_with-Keeps c none h = h
  finish_with-Keeps c (some e) h = tt

  Served-append_right : (id : ℕ) (js ks : List (Job C S)) → Served id ks → Served id (js ++ ks)
  Served-append_right id [] ks h = h
  Served-append_right id (j ∷ js) ks h = inr (Served-append_right id js ks h)

  Served-append_first : (id : ℕ) (js ks : List (Job C S)) → Served id js → Served id (js ++ ks)
  Served-append_first id [] ks h = absurd h
  Served-append_first id (j ∷ js) ks (inl h) = inl h
  Served-append_first id (j ∷ js) ks (inr h) = inr (Served-append_first id js ks h)

  -- A new request comes with a new job.
  pub entered :
      (c : Conn C S) (req : Request C) (j : Job C S)
      → Serves req.id j
      → AllServed c
      → AllServed (record c { reqs = insert req.id req c.reqs; jobs = c.jobs ++ j ∷ [] })
  entered c req j own all id = elim (Bool-cases (nat_eq req.id id)) [
    | inl same ↦ inr (
        Served-append_right id c.jobs (j ∷ []) (inl (rw (sym ((nat_eq_iff req.id id).0 same)) own)))
    | inr other ↦ elim (all id) [
      | inl absent ↦ inl (rw (lookup-insert req.id id req c.reqs, other) absent)
      | inr there ↦ inr (Served-append_first id c.jobs (j ∷ []) there)
    ]
  ]

module _ {C S : Type 0} (write_all : WriteAll) (limits : Limits) (clone_slice : Bytes → Bytes) where
  added-Keeps :
      (c : Conn C S) (id : ℕ) (o : Outcome (Stream × Option ClosedError))
      → AllServed c
      → Keeps (added write_all limits clone_slice c id o)
  unfolding added
  added-Keeps c id (done (s, e)) h =
      finish_with-Keeps (record c { streams = insert id s c.streams }) (of_closed e) h
  added-Keeps c id panics h = tt
  added-Keeps c id stuck h = tt

  close_by_peer-Keeps :
      (c : Conn C S) (s : Stream) (flags : ℕ) (body : Option Bytes) (err : Option Failure)
      → AllServed c
      → Keeps (close_by_peer write_all limits clone_slice c s flags body err)
  unfolding close_by_peer
  close_by_peer-Keeps c s flags body err h = finish_with-Keeps _ err h

  handle_close-Keeps :
      (c : Conn C S) (s : Stream) (flags n : ℕ)
      → AllServed c
      → Keeps (handle_close write_all limits clone_slice c s flags n)
  unfolding handle_close
  handle_close-Keeps c s flags n h = elim (Bool-cases (nat_eq n 0)) [
    | inl zero_len ↦ rw zero_len (close_by_peer-Keeps c s flags none none h)
    | inr some_len ↦ rw some_len (elim (Bool-cases (gtz (int64 n) limits.max_stream_body_len)) [
      | inl large ↦ rw large (close_by_peer-Keeps _ s flags none _ h)
      | inr small ↦ rw small (elim (Option-cases (copy_n (int64 n) c.input).failure) [
        | inl ok ↦ rw ok (
            close_by_peer-Keeps (record c { input = (copy_n (int64 n) c.input).rest }) s flags
              (some (clone_slice (copy_n (int64 n) c.input).got)) none h)
        | inr (e, bad) ↦ rw bad tt
      ])
    ])
  ]

  -- The body of a message, and what it is added to.
  pub handle_stream_msg-Keeps :
      (c : Conn C S) (id : ℕ) (s : Stream) (flags : ℕ)
      → AllServed c
      → Keeps (handle_stream_msg write_all limits clone_slice c id s flags)
  unfolding handle_stream_msg
  handle_stream_msg-Keeps c id s flags h =
      let r = copy_n (pos 8) c.input in
      elim (Option-cases r.failure) [
        | inr (e, bad) ↦ rw bad tt
        | inl ok ↦ rw ok (elim (Bool-cases (has_close_flag flags)) [
          | inl closing ↦
              rw closing (handle_close-Keeps (record c { input = r.rest }) s flags (get8 r.got) h)
          | inr open_ ↦
              rw open_ (elim (Bool-cases (gtz (int64 (get8 r.got)) limits.max_stream_body_len)) [
                | inl large ↦ rw large (
                    discard-Keeps
                      (record c {
                        input = r.rest;
                        sink = (send write_all s (too_large limits s) c.sink).0;
                      })
                      (int64 (get8 r.got)) h)
                | inr small ↦
                    rw small (elim (Option-cases (copy_n (int64 (get8 r.got)) r.rest).failure) [
                      | inl there ↦ rw there (
                          added-Keeps
                            (record c { input = (copy_n (int64 (get8 r.got)) r.rest).rest }) id
                            (add_msg s (record {
                              req_id = s.req_id;
                              flags = flags;
                              body = some (clone_slice (copy_n (int64 (get8 r.got)) r.rest).got);
                            }))
                            h)
                      | inr (e, bad) ↦ rw bad tt
                    ])
              ])
        ])
      ]
