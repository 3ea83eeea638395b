-- ===== src/Proxy/Told.antt =====
-- What the command of proxy/client.go makes of a response to a change.
use jtrpc.Common.{
  ℕ, ◌<◌, ◌≡◌, refl, ap, ◌∙◌, Bool, false, not, Option, none, some, [], ◌∷◌, Bytes, length,
  take_all, nat_eq, if◌then◌else◌, done, inl, inr, Bool-cases, arith,
}
use jtrpc.Common.Maps.{bytes_key}
use jtrpc.Flags.{status_ok, status_partial_error, status_bad_request}
use jtrpc.Io.{WriteAll}
use jtrpc.Request.{encoded_headers}
use jtrpc.Response.{Response, new_response, set_body, set_status_body, set_body_reader, from_reader}
use jtrpc.Response.ReadAll.{body_string-total}
use jtrpc.Response.RoundTrip.{response_body, received_body, suc_ne_zero}
use jtrpc.Client.{RespChan}
use jtrpc.Client.Dispatch.{response_to}
use jtrpc.Proxy.Paths.{codes}
use jtrpc.Proxy.Servers.{Errors, set_admin_srvrs_err, error_body}
use jtrpc.Proxy.Admin.{Json}
use jtrpc.Proxy.Command.{error_response, partial_error, Said, Host, refused, changed}

-- The response that the client's channel gives for one that the server wrote (Exchange).
abbrev pub delivered_to : {C : Type 0} → RespChan C → Response C → Response C
delivered_to rc resp =
    response_to rc resp.flags resp.status (encoded_headers resp.headers).0 (response_body resp.body)

received_body_lem :
    {C : Type 0} (r : Response C) (b : Bytes)
    → r.body ≡ none
    → response_body (received_body r b).body ≡ b
unfolding set_body_reader from_reader
received_body_lem r [] e = rw e refl
received_body_lem r (x ∷ b) e =
    rw (suc_ne_zero (length b)) (take_all (length (x ∷ b)) (x ∷ b) (omega arith))

status-received_body :
    {C : Type 0} (r : Response C) (b : Bytes) → (received_body r b).status ≡ r.status
unfolding set_body_reader
status-received_body r b = ground arith

delivered_to_status :
    {C : Type 0} (rc : RespChan C) (resp : Response C) → (delivered_to rc resp).status ≡ resp.status
delivered_to_status rc resp = status-received_body _ _

delivered_to_body :
    {C : Type 0} (rc : RespChan C) (resp : Response C)
    → response_body (delivered_to rc resp).body ≡ response_body resp.body
unfolding new_response
delivered_to_body rc resp = received_body_lem _ _ refl

set_status_body_lem :
    {C : Type 0} (r : Response C) (status : ℕ) (b : Bytes)
    → response_body (set_status_body r status b).body ≡ b
unfolding set_status_body set_body set_body_reader from_reader
set_status_body_lem r status b = take_all (length b) b (omega arith)

-- What the command says of the errors of a change of `n` entries.
abbrev pub told : (Errors → Option Bytes) → Errors → ℕ → Said
told marshal_errors errs n =
    if nat_eq (length errs) 0
    then ([], none)
    else if not (nat_eq n (length errs))
    then (
      partial_error (
            error_body marshal_errors errs
              (codes "partial error with request; error sending response"))
          ∷ [],
      none,
    )
    else (
      [],
      some (
          error_response status_bad_request
            (error_body marshal_errors errs (codes "error with request; error sending response"))),
    )

module _ {C K N : Type 0} (write_all : WriteAll) (reentrant : Bool) (background : C)
    (json : Json K N) (host : Host C) where
  module _ (pos : (k : ℕ) → 0 < host.room k) where
    changed-ok :
        (resp : Response C)
        → resp.status ≡ status_ok
        → changed write_all reentrant background json host resp ≡ done ([], none)
    unfolding changed
    changed-ok resp e = rw e refl

    changed-partial :
        (resp : Response C)
        → resp.status ≡ status_partial_error
        → changed write_all reentrant background json host resp
          ≡ done (partial_error (response_body resp.body) ∷ [], none)
    unfolding changed
    changed-partial resp e =
        let (after, reads, _) = body_string-total host.room resp pos in simp (e, reads)

    changed-error :
        (resp : Response C)
        → nat_eq resp.status status_partial_error ≡ false
        → nat_eq resp.status status_ok ≡ false
        → changed write_all reentrant background json host resp
          ≡ done ([], some (error_response resp.status (response_body resp.body)))
    unfolding changed refused
    changed-error resp e e' =
        let (after, reads, _) = body_string-total host.room resp pos in simp (e, e', reads)

    -- The same for a response that arrives as the server wrote it.
    changed-delivered_partial :
        (rc : RespChan C) (resp : Response C) (b : Bytes)
        → resp.status ≡ status_partial_error
        → response_body resp.body ≡ b
        → changed write_all reentrant background json host (delivered_to rc resp)
          ≡ done (partial_error b ∷ [], none)
    changed-delivered_partial rc resp b e f =
        changed-partial (delivered_to rc resp) (delivered_to_status rc resp ∙ e)
        ∙ ap (λ t. done (partial_error t ∷ [], none)) (delivered_to_body rc resp ∙ f)

    pub changed-delivered_error :
        (rc : RespChan C) (resp : Response C) (status : ℕ) (b : Bytes)
        → nat_eq status status_partial_error ≡ false
        → nat_eq status status_ok ≡ false
        → resp.status ≡ status
        → response_body resp.body ≡ b
        → changed write_all reentrant background json host (delivered_to rc resp)
          ≡ done ([], some (error_response status b))
    changed-delivered_error rc resp status b e e' f g =
        let same = delivered_to_status rc resp ∙ f in
        changed-error (delivered_to rc resp) (ap (λ s. nat_eq s status_partial_error) same ∙ e)
          (ap (λ s. nat_eq s status_ok) same ∙ e')
        ∙ ap (λ s. done ([], some (error_response s (response_body (delivered_to rc resp).body))))
            same
        ∙ ap (λ t. done ([], some (error_response status t))) (delivered_to_body rc resp ∙ g)

    -- What the command makes of an answer of `setAdminSrvrsErr`.
    pub changed-set_admin_srvrs_err :
        (rc : RespChan C) (resp : Response C) (errs : Errors) (n : ℕ)
        → resp.status ≡ status_ok
        → changed write_all reentrant background json host
            (delivered_to rc (set_admin_srvrs_err json.marshal_errors resp errs n))
          ≡ done (told json.marshal_errors errs n)
    unfolding set_admin_srvrs_err set_status_body set_body set_body_reader
    changed-set_admin_srvrs_err rc resp errs n ok = elim (Bool-cases (nat_eq (length errs) 0)) [
      | inl none_ ↦ rw none_ (changed-ok _ (delivered_to_status rc resp ∙ ok))
      | inr some_ ↦ elim (Bool-cases (nat_eq n (length errs))) [
        | inl all ↦
            changed-delivered_error rc (set_admin_srvrs_err json.marshal_errors resp errs n)
              status_bad_request
              (error_body json.marshal_errors errs
                (codes "error with request; error sending response"))
              refl refl (rw (some_, all) refl)
              (rw (some_, all) (set_status_body_lem resp status_bad_request _))
            ∙ rw (some_, all) refl
        | inr part ↦
            changed-delivered_partial rc (set_admin_srvrs_err json.marshal_errors resp errs n)
              (error_body json.marshal_errors errs
                (codes "partial error with request; error sending response"))
              (rw (some_, part) refl)
              (rw (some_, part) (set_status_body_lem resp status_partial_error _))
            ∙ rw (some_, part) refl
      ]
    ]
