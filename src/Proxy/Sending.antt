-- ===== src/Proxy/Sending.antt =====
-- proxy/mux.go, sendReq: a request goes to the first client that the set of a server gives.
--
-- The set of clients (utils.SyncSet, which is not part of this repository) is a list of them, and a
-- client is one of go/client.go. A Range visits the set in some order: `order n cs` is the one in
-- which that of the attempt visits it when `n` more attempts are left. `fresh n` is what newClient gives when `n` more attempts are left. Other
-- goroutines do not use the clients meanwhile.
use jtrpc.Common.{ℕ, zero, suc, ◌≡◌, ap, ◌∙◌, true, false, Option, none, some, List, [], ◌∷◌, All}
use jtrpc.Common.Maps.{nat_key}
use jtrpc.Io.{WriteAll}
use jtrpc.Request.{Request}
use jtrpc.Client.{Client, RespChan, new_resp_chan, write_next, enter, send_request}
use jtrpc.Client.Dispatch.{send_request_open}
use jtrpc.Proxy.Waiting.{Fault, max_attempts, Made, made, failed}

abbrev pub max_req_attempts : ℕ
max_req_attempts = 5

-- What `sendReq` gives: the channel of the response, or an error.
pub data Sent (C : Type 0) : Type 0 where
  sent : RespChan C → Sent C
  not_sent : Fault → Sent C

-- `clients.Get()`, and a new client where it gives nil: the client, and the rest of the set.
abbrev pub get_or_make : {K : Type 0} → List K → Made K → Made (K × List K)
get_or_make (c ∷ cs) new = made (c, cs)
get_or_make [] (made c) = made (c, [])
get_or_make [] (failed f) = failed f

-- The set of clients, the request as it is left, and the result.
abbrev pub SendResult : Type 0 → Type 0
SendResult C = List (Client C) × (Request C × Sent C)

-- What a round of the loop does with the result of `Send`.
abbrev pub after_send :
    {C : Type 0}
    → List (Client C)
    → Client C × Option (RespChan C)
    → (List (Client C) → SendResult C)
    → SendResult C
after_send rest (c, some rc) again = (c ∷ rest, (rc.req, sent rc))
after_send rest (c, none) again = again (c ∷ rest)

module _ {C : Type 0} (write_all : WriteAll) (order : ℕ → List (Client C) → List (Client C))
    (fresh : ℕ → Made (Client C)) where
  -- The loop of `sendReq`, which has `n` attempts left. `Send` gives an error exactly if the
  -- client is closed, and then the loop goes on.
  unfoldable pub attempts : ℕ → List (Client C) → Request C → SendResult C
  attempts zero cs req = (cs, (req, not_sent max_attempts))
  attempts (suc n) cs req = elim (get_or_make (order n cs) (fresh n)) [
    | failed f ↦ (cs, (req, not_sent f))
    | made (c, rest) ↦ after_send rest (send_request write_all c req) λ cs'. attempts n cs' req
  ]

  -- `sendReq`
  unfoldable pub send_req : List (Client C) → Request C → SendResult C
  send_req cs req = attempts max_req_attempts cs req

  -- A client's `Send`, with the rest of the set behind it.
  abbrev pub sent_by : Client C → List (Client C) → Request C → SendResult C
  sent_by c rest req =
      let (c1, req') = write_next write_all c req in
      (enter c1 req' ∷ rest, (req', sent (new_resp_chan req')))

  abbrev pub IsClosed : Client C → Type 0
  IsClosed c = c.closed ≡ true

  -- A Range visits the clients of the set and no others: it finds one if there is one, and only
  -- closed ones if all are closed.
  abbrev pub Visits : Type 0
  Visits =
      (n : ℕ) (c : Client C) (cs : List (Client C))
      → All IsClosed (c ∷ cs)
      → (d : Client C) × (ds : List (Client C)) × (order n (c ∷ cs) ≡ d ∷ ds)
        × All IsClosed (d ∷ ds)

  -- `sendReq` when the first client that the first attempt finds is open.
  pub send_req-open :
      (cs : List (Client C)) (c : Client C) (rest : List (Client C)) (req : Request C)
      → order 4 cs ≡ c ∷ rest
      → c.closed ≡ false
      → send_req cs req ≡ sent_by c rest req
  unfolding send_req attempts new_resp_chan
  send_req-open cs c rest req first h =
      ap
        (λ o. elim (get_or_make o (fresh 4)) [
          | failed f ↦ (cs, (req, not_sent f))
          | made (d', ds) ↦ after_send ds (send_request write_all d' req) λ cs'. attempts 4 cs' req
        ])
        first
      ∙ ap (λ p. after_send rest p (λ cs'. attempts 4 cs' req))
          (send_request_open write_all c req h)
