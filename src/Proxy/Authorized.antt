-- ===== src/Proxy/Authorized.antt =====
-- The requests of proxy/client.go as the proxy gets them, and whether adminHandler of proxy/mux.go
-- admits them.
use jtrpc.Common.{
  ℕ, ◌+◌, ◌≡◌, refl, ap, ◌∙◌, Bool, true, false, Option, none, some, [], ◌∷◌, Bytes, length, leb,
  inl, inr, if◌then◌else◌, done, arith,
}
use jtrpc.Common.Maps.{lookup, insert, lookup-insert_self, bytes_key}
use jtrpc.Headers.{Headers, raw_headers, new_headers, max_headers_len, encode}
use jtrpc.Headers.Access.{get_checked, get_loop, set}
use jtrpc.Headers.Refinement.{
  Represents, set_new-Represents, encode-Represents, get_checked-Represents,
}
use jtrpc.Headers.ParseEncode.{counted_len}
use jtrpc.Request.{Request, new_request, make_request, encoded_headers, body_bytes}
use jtrpc.Proxy.Admin.{password_key}
use jtrpc.Proxy.Command.{new_client_req, with_body_bytes}

-- A request as the server makes it from what the client writes (Exchange has that way).
abbrev pub arrived : {C : Type 0} → C → ℕ → Bytes → Request C → Request C
arrived background id addr req =
    record (make_request background id addr req.flags req.path (encoded_headers req.headers).0) {
      body = some (body_bytes req.body);
    }

-- The password that the proxy finds: the headers take no pair of more than MaxHeadersLen bytes.
abbrev pub carried : Bytes → Option Bytes
carried password = if leb (12 + length password) max_headers_len then some password else none

empty-Represents : Represents (new_headers false) []
unfolding new_headers
empty-Represents = record { form = inr (refl, tt); distinct = tt }

-- The headers with the password.
record Carries (password : Bytes) : Type 0 where
  headers : Headers
  ok : Bool
  sets : set (new_headers false) password_key password ≡ done (headers, ok)
  gets :
      get_checked (raw_headers (encoded_headers (some headers)).0) password_key
      ≡ done (carried password)

set-Carries : (password : Bytes) → Carries password
unfolding new_headers lookup insert counted_len
set-Carries password =
    elim (set_new-Represents (new_headers false) [] password_key password empty-Represents refl) [
      | inl (h, room, sets, r) ↦ elim (encode-Represents h (insert password_key password []) r) [
        | inl (b, e, r') ↦ record {
          headers = h;
          ok = true;
          sets = sets;
          gets =
              ap
                (λ r.
                  get_checked (raw_headers (elim r.1 [ none ↦ [] | some b' ↦ b' ])) password_key)
                e
              ∙ get_checked-Represents (raw_headers b) _ password_key r'
              ∙ ap done (lookup-insert_self password_key password [] ∙ ground arith);
        }
        | inr (e, over) ↦ absurd (ground arith)
      ]
      | inr (full, sets) ↦ record {
        headers = new_headers false;
        ok = false;
        sets = sets;
        gets = unfold get_checked get_loop encode in ground arith;
      }
    ]

-- What the proxy is asked by a request of the command.
pub record Asks {C : Type 0} (background : C) (password path body : Bytes) : Type 0 where
  pub req : Request C
  pub headers : Headers
  pub made : new_client_req background password path body ≡ done req
  pub to_path : req.path ≡ path
  pub with_flags : req.flags ≡ 0
  pub with_headers : req.headers ≡ some headers
  pub with_body : body_bytes req.body ≡ body
  pub password_found :
      get_checked (raw_headers (encoded_headers req.headers).0) password_key
      ≡ done (carried password)

body_bytes-with_body_bytes :
    {C : Type 0} (req : Request C) (body : Bytes)
    → req.body ≡ none
    → body_bytes (with_body_bytes req body).body ≡ body
body_bytes-with_body_bytes req [] e = rw e refl
body_bytes-with_body_bytes req (x ∷ xs) e = ground arith

pub new_client_req-Asks :
    {C : Type 0} (background : C) (password path body : Bytes) → Asks background password path body
unfolding new_client_req new_request
new_client_req-Asks background password path body =
    let c = set-Carries password in
    record {
      req =
          with_body_bytes (record (new_request background path) { headers = some c.headers }) body;
      headers = c.headers;
      made = rw c.sets refl;
      to_path = ground arith;
      with_flags = ground arith;
      with_headers = ground arith;
      with_body =
          body_bytes-with_body_bytes
            (record (new_request background path) { headers = some c.headers }) body refl;
      password_found = ground (arith, c.gets);
    }
