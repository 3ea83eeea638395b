-- ===== src/Server/Finishes.antt =====
-- The goroutines of a connection come to an end, and then every request is answered.
use jtrpc.Common.{
  ℕ, zero, suc, ◌+◌, ◌≤◌, ◌<◌, ◌≡◌, refl, Option, none, some, List, [], ◌∷◌, ◌++◌, All, inl, inr,
  Bytes, Bool-cases, nat_eq, arith,
}
use jtrpc.Common.Int.{ℤ}
use jtrpc.Common.Maps.{lookup, nat_key}
use jtrpc.Flags.{status_ok}
use jtrpc.Io.{WriteAll, Error}
use jtrpc.Request.{Request}
use jtrpc.Response.{write_response}
use jtrpc.Server.{
  Limits, Handler, MuxOps, Job, runs, opens, writes, answers, registers, Conn, registering, run_job,
}
use jtrpc.Server.Jobs.{AllServed, KeepsIds}
use jtrpc.Server.Served.{Reaches, here, works, Reaches-AllServed}

module _ {C S : Type 0} where
  -- How many steps a goroutine may still take.
  abbrev pub steps_of : Job C S → ℕ
  steps_of (runs h req resp) = 2
  steps_of (opens s h req resp) = 3
  steps_of (writes resp) = 1
  steps_of (answers s req resp) = 2
  steps_of (registers s req) = 1

  abbrev pub steps_left : List (Job C S) → ℕ
  steps_left [] = 0
  steps_left (j ∷ js) = steps_of j + steps_left js

  steps_left-append :
      (js ks : List (Job C S)) → steps_left (js ++ ks) ≡ steps_left js + steps_left ks
  steps_left-append [] ks = omega arith
  steps_left-append (j ∷ js) ks = omega (arith, steps_left-append js ks)

  registering-steps :
      (c : Conn C S) (failure : Option Error) (status : ℕ) (s : S) (req : Request C)
      → steps_left (registering c failure status s req).jobs ≤ steps_left c.jobs + 1
  registering-steps c (some e) status s req = omega arith
  registering-steps c none status s req = elim (Bool-cases (nat_eq status status_ok)) [
    | inl ok ↦ rw ok (omega (arith, steps_left-append c.jobs (registers s req ∷ [])))
    | inr other ↦ rw other (omega arith)
  ]

  -- A step is one less to take.
  run_job-steps :
      (write_all : WriteAll) (c : Conn C S) (j : Job C S) (ks : List (Job C S))
      → steps_left (run_job write_all (record c { jobs = ks }) j).jobs < steps_left (j ∷ ks)
  unfolding run_job
  run_job-steps write_all c (runs h req resp) ks =
      omega (arith, steps_left-append ks (writes (h req resp).1 ∷ []))
  run_job-steps write_all c (opens s h req resp) ks =
      omega (arith, steps_left-append ks (answers s (h req resp).0 (h req resp).1 ∷ []))
  run_job-steps write_all c (writes resp) ks = omega arith
  run_job-steps write_all c (answers s req resp) ks = omega (arith, registering-steps _ _ _ s _)
  run_job-steps write_all c (registers s req) ks = omega arith

  All-append_one :
      (js : List (Job C S)) (j : Job C S)
      → KeepsIds j
      → All KeepsIds js
      → All KeepsIds (js ++ j ∷ [])
  All-append_one [] j k h = (k, tt)
  All-append_one (i ∷ js) j k h = (h.0, All-append_one js j k h.1)

  registering-All :
      (c : Conn C S) (failure : Option Error) (status : ℕ) (s : S) (req : Request C)
      → All KeepsIds c.jobs
      → All KeepsIds (registering c failure status s req).jobs
  registering-All c (some e) status s req h = h
  registering-All c none status s req h = elim (Bool-cases (nat_eq status status_ok)) [
    | inl ok ↦ rw ok (All-append_one c.jobs (registers s req) tt h)
    | inr other ↦ rw other h
  ]

  run_job-All :
      (write_all : WriteAll) (c : Conn C S) (j : Job C S) (ks : List (Job C S))
      → All KeepsIds ks
      → All KeepsIds (run_job write_all (record c { jobs = ks }) j).jobs
  unfolding run_job
  run_job-All write_all c (runs h req resp) ks all =
      All-append_one ks (writes (h req resp).1) tt all
  run_job-All write_all c (opens s h req resp) ks all =
      All-append_one ks (answers s (h req resp).0 (h req resp).1) tt all
  run_job-All write_all c (writes resp) ks all = all
  run_job-All write_all c (answers s req resp) ks all =
      let w = (write_response write_all resp c.sink).1 in
      registering-All (record c { sink = w.sink; jobs = ks }) w.failure resp.status s
        (record req { body = some [] }) all
  run_job-All write_all c (registers s req) ks all = all

module _ {C S : Type 0} (write_all : WriteAll) (limits : Limits) (clone_slice : Bytes → Bytes)
    (sprint : ℤ → Bytes) (background : C) (addr : Bytes) (mux : MuxOps (Handler C) S) where
  -- Steps of goroutines alone: no round of the loop is among them.
  pub data Works (c : Conn C S) : Conn C S → Type 0 where
    still : Works c c
    then_works :
        {d : Conn C S} (js : List (Job C S)) (j : Job C S) (ks : List (Job C S))
        → Works c d
        → d.jobs ≡ js ++ j ∷ ks
        → KeepsIds j
        → Works c (run_job write_all (record d { jobs = js ++ ks }) j)

  Works-Reaches :
      {c d : Conn C S}
      → Works c d
      → Reaches write_all limits clone_slice sprint background addr mux c d
  Works-Reaches still = here
  Works-Reaches (then_works js j ks way split keeps) = works js j ks (Works-Reaches way) split keeps

  -- A state that the connection reaches by steps of its goroutines alone, in which no goroutine is left and no request waits.
  pub record Finishes (c : Conn C S) : Type 0 where
    pub final : Conn C S
    pub reaches : Works c final
    pub idle : final.jobs ≡ []
    pub answered : (id : ℕ) → lookup id final.reqs ≡ none

  -- A connection gets rid of its goroutines.
  Drained : Conn C S → Type 0
  Drained c = (d : Conn C S) × Works c d × (d.jobs ≡ [])

  drain :
      (n : ℕ) (c d : Conn C S) (js : List (Job C S))
      → Works c d
      → d.jobs ≡ js
      → All KeepsIds js
      → steps_left js < n
      → Drained c
  unfolding Drained
  drain zero c d js r e all h = absurd (omega arith)
  drain (suc n) c d [] r e all h = (d, r, e)
  drain (suc n) c d (j ∷ js) r e all h =
      drain n c (run_job write_all (record d { jobs = js }) j) _ (then_works [] j js r e all.0) refl
        (run_job-All write_all d j js all.1) (omega (arith, run_job-steps write_all d j js))

  -- From every state that a connection can reach there is a way on, by steps of its goroutines
  -- alone and however many requests it has, to a state without goroutines, in which `reqs` is
  -- empty. The handlers in hand must leave the ids of the requests as they are.
  pub Reaches-Finishes :
      {c d : Conn C S}
      → Reaches write_all limits clone_slice sprint background addr mux c d
      → AllServed c
      → All KeepsIds d.jobs
      → Finishes d
  unfolding Drained
  Reaches-Finishes {c} {d} r served all =
      let (e, way, idle) = drain (steps_left d.jobs + 1) d d d.jobs still refl all (omega arith) in
      record {
        final = e;
        reaches = way;
        idle = idle;
        answered = λ id.
            elim (Reaches-AllServed write_all limits clone_slice sprint background addr mux
              (Works-Reaches way)
              (Reaches-AllServed write_all limits clone_slice sprint background addr mux r served)
              id) [ inl absent ↦ absent | inr job ↦ absurd (rw idle at job) ];
      }
