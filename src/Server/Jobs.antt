-- ===== src/Server/Jobs.antt =====
-- What the rounds of the loop and the goroutines of a connection keep between them.
use jtrpc.Common.{
  ℕ, ◌≡◌, refl, ◌∙◌, Option, none, some, List, [], ◌∷◌, ◌++◌, ◌⊎◌, inl, inr, Bool-cases, nat_eq,
  nat_eq_iff, arith,
}
use jtrpc.Common.Maps.{lookup, delete, lookup-delete, nat_key}
use jtrpc.Io.{WriteAll}
use jtrpc.Io.{Error}
use jtrpc.Flags.{status_ok}
use jtrpc.Request.{Request}
use jtrpc.Response.{write_response}
use jtrpc.Server.{Job, runs, opens, writes, answers, registers, Conn, registering, run_job}

module _ {C S : Type 0} where
  -- A job has the request with this id in hand.
  abbrev pub Serves : ℕ → Job C S → Type 0
  Serves id (runs h req resp) = req.id ≡ id
  Serves id (opens s h req resp) = req.id ≡ id
  Serves id (writes resp) = ⊥
  Serves id (answers s req resp) = ⊥
  Serves id (registers s req) = ⊥

  -- One of the jobs has.
  abbrev pub Served : ℕ → List (Job C S) → Type 0
  Served id [] = ⊥
  Served id (j ∷ js) = Serves id j ⊎ Served id js

  -- Running the handler of a job leaves the ids of the request and of the response.
  abbrev pub KeepsIds : Job C S → Type 0
  KeepsIds (runs h req resp) = ((h req resp).0.id ≡ req.id) × ((h req resp).1.req_id ≡ resp.req_id)
  KeepsIds (opens s h req resp) =
      ((h req resp).0.id ≡ req.id) × ((h req resp).1.req_id ≡ resp.req_id)
  KeepsIds (writes resp) = Unit {0}
  KeepsIds (answers s req resp) = Unit {0}
  KeepsIds (registers s req) = Unit {0}

  -- No request of `reqs` is forgotten: it is in the hands of a job.
  abbrev pub AllServed : Conn C S → Type 0
  AllServed c = (id : ℕ) → (lookup id c.reqs ≡ none) ⊎ Served id c.jobs

  Served-append_left : (id : ℕ) (js ks : List (Job C S)) → Served id js → Served id (js ++ ks)
  Served-append_left id [] ks h = absurd h
  Served-append_left id (j ∷ js) ks (inl h) = inl h
  Served-append_left id (j ∷ js) ks (inr h) = inr (Served-append_left id js ks h)

  -- Taking one job out leaves the requests of the others served.
  Served-without :
      (id : ℕ) (js : List (Job C S)) (j : Job C S) (ks : List (Job C S))
      → Served id (js ++ j ∷ ks)
      → Serves id j ⊎ Served id (js ++ ks)
  Served-without id [] j ks (inl h) = inl h
  Served-without id [] j ks (inr h) = inr h
  Served-without id (i ∷ js) j ks (inl h) = inr (inl h)
  Served-without id (i ∷ js) j ks (inr h) = elim (Served-without id js j ks h) [
    | inl mine ↦ inl mine
    | inr other ↦ inr (inr other)
  ]

  -- A request that is taken out of `reqs` may lose its job.
  deleted :
      (gone id : ℕ) (reqs : List (ℕ × Request C)) (js ks : List (Job C S)) (j : Job C S)
      → (Serves id j → gone ≡ id)
      → (lookup id reqs ≡ none) ⊎ Served id (js ++ j ∷ ks)
      → (lookup id (delete gone reqs) ≡ none) ⊎ Served id (js ++ ks)
  deleted gone id reqs js ks j own before = elim (Bool-cases (nat_eq gone id)) [
    | inl same ↦ inl (rw (lookup-delete gone id reqs, same) refl)
    | inr other ↦ elim before [
      | inl absent ↦ inl (rw (lookup-delete gone id reqs, other) absent)
      | inr there ↦ elim (Served-without id js j ks there) [
        | inl mine ↦ absurd (ground (arith, nat_eq_iff gone id, own mine))
        | inr rest ↦ inr rest
      ]
    ]
  ]

  registering-Served :
      (c : Conn C S) (failure : Option Error) (status : ℕ) (s : S) (req : Request C) (id : ℕ)
      → (lookup id c.reqs ≡ none) ⊎ Served id c.jobs
      → (lookup id (registering c failure status s req).reqs ≡ none)
        ⊎ Served id (registering c failure status s req).jobs
  registering-Served c (some e) status s req id h = h
  registering-Served c none status s req id h = elim (Bool-cases (nat_eq status status_ok)) [
    | inr other ↦ rw other h
    | inl ok ↦ rw ok (elim h [
      | inl absent ↦ inl absent
      | inr there ↦ inr (Served-append_left id c.jobs (registers s req ∷ []) there)
    ])
  ]

  -- A goroutine that has no request in hand goes on.
  kept :
      (id : ℕ) (reqs : List (ℕ × Request C)) (js ks : List (Job C S)) (j : Job C S)
      → ¬ Serves id j
      → (lookup id reqs ≡ none) ⊎ Served id (js ++ j ∷ ks)
      → (lookup id reqs ≡ none) ⊎ Served id (js ++ ks)
  kept id reqs js ks j not_mine (inl absent) = inl absent
  kept id reqs js ks j not_mine (inr there) = elim (Served-without id js j ks there) [
    | inl mine ↦ absurd (not_mine mine)
    | inr rest ↦ inr rest
  ]

  with_next :
      (id : ℕ) (reqs : List (ℕ × Request C)) (js : List (Job C S)) (j : Job C S)
      → (lookup id reqs ≡ none) ⊎ Served id js
      → (lookup id reqs ≡ none) ⊎ Served id (js ++ j ∷ [])
  with_next id reqs js j (inl absent) = inl absent
  with_next id reqs js j (inr there) = inr (Served-append_left id js (j ∷ []) there)

  pub run_job-AllServed :
      (write_all : WriteAll) (c : Conn C S) (js : List (Job C S)) (j : Job C S)
      (ks : List (Job C S))
      → KeepsIds j
      → AllServed (record c { jobs = js ++ j ∷ ks })
      → AllServed (run_job write_all (record c { jobs = js ++ ks }) j)
  unfolding run_job
  run_job-AllServed write_all c js (runs h req resp) ks keeps all id =
      with_next id _ (js ++ ks) (writes (h req resp).1)
        (deleted (h req resp).0.id id c.reqs js ks (runs h req resp) (λ e. keeps.0 ∙ e) (all id))
  run_job-AllServed write_all c js (opens s h req resp) ks keeps all id =
      with_next id _ (js ++ ks) (answers s (h req resp).0 (h req resp).1)
        (deleted (h req resp).0.id id c.reqs js ks (opens s h req resp) (λ e. keeps.0 ∙ e) (all id))
  run_job-AllServed write_all c js (writes resp) ks keeps all id =
      kept id c.reqs js ks (writes resp) (λ mine. mine) (all id)
  run_job-AllServed write_all c js (answers s req resp) ks keeps all id =
      let w = (write_response write_all resp c.sink).1 in
      registering-Served (record c { sink = w.sink; jobs = js ++ ks }) w.failure resp.status s
        (record req { body = some [] }) id
        (kept id c.reqs js ks (answers s req resp) (λ mine. mine) (all id))
  run_job-AllServed write_all c js (registers s req) ks keeps all id =
      kept id c.reqs js ks (registers s req) (λ mine. mine) (all id)
