-- ===== src/Proxy/Admin.antt =====
-- proxy/mux.go, adminHandler. A request has to give the password of the configuration in a header.
use jtrpc.Common.{
  Bool, true, false, Option, none, some, List, Bytes, bytes_eq, if◌then◌else◌, Outcome, done,
  panics, stuck, ◌>>=◌,
}
use jtrpc.Common.Maps.{bytes_key}
use jtrpc.Flags.{status_unauthorized}
use jtrpc.Headers.Access.{get_checked}
use jtrpc.Request.{Request}
use jtrpc.Response.{Response, set_body}
use jtrpc.Proxy.Paths.{codes}
use jtrpc.Proxy.Servers.{
  Registry, Errors, Decoded, get_servers_handler, new_servers_handler, del_servers_handler,
  replace_servers_handler,
}
use jtrpc.Proxy.Routing.{Info, Handled, ProxyHandler, internal_error}

-- The encoding/json functions that the handlers call.
pub record Json (K N : Type 0) : Type 0 where
  pub decode_servers : Bytes → Decoded (Registry K N)
  pub decode_paths : Bytes → Decoded (List Bytes)
  pub marshal_servers : Registry K N → Option Bytes
  pub marshal_errors : Errors → Option Bytes

abbrev pub password_key : Bytes
password_key = codes "password"

abbrev pub servers_path : Bytes
servers_path = codes "/servers"

-- `!ok || pwd != config.Password` fails.
abbrev pub authed : Option Bytes → Bytes → Bool
authed none password = false
authed (some pwd) password = bytes_eq pwd password

-- The result of an admin handler.
abbrev pub with_request :
    {C K N : Type 0} → Request C → Outcome (Registry K N × Response C) → Handled C K N
with_request req (done (m, resp)) = done (m, (req, resp))
with_request req panics = panics
with_request req stuck = stuck

module _ {C K N : Type 0} (info_of : C → Option (Info K N)) (json : Json K N) where
  -- The switch at the end of `adminHandler`.
  unfoldable pub admin_route : Bytes → ProxyHandler C K N
  admin_route rest m req resp =
      if bytes_eq rest servers_path
      then with_request req (get_servers_handler json.marshal_servers true m resp)
      else if bytes_eq rest (codes "/servers/new")
      then with_request req (new_servers_handler json.marshal_errors json.decode_servers m req resp)
      else if bytes_eq rest (codes "/servers/del")
      then with_request req (del_servers_handler json.marshal_errors json.decode_paths m req resp)
      else if bytes_eq rest (codes "/servers/replace")
      then with_request req
          (replace_servers_handler json.marshal_errors json.decode_servers m req resp)
      else done (m, (req, resp))

  -- The answer to a request without the password.
  unfoldable pub unauthorized : Bytes → ProxyHandler C K N
  unauthorized rest m req resp =
      if bytes_eq rest servers_path
      then with_request req (get_servers_handler json.marshal_servers false m resp)
      else done (
        m,
        (
          req,
          set_body (record resp { status = status_unauthorized }) (codes "invalid credentials"),
        ),
      )

  -- `adminHandler`; reading a header of nil headers panics.
  unfoldable pub admin_handler : Bytes → ProxyHandler C K N
  admin_handler password m req resp = elim (info_of req.ctx) [
    | none ↦ done (m, (req, internal_error resp))
    | some info ↦ elim req.headers [
      | none ↦ panics
      | some h ↦ get_checked h password_key >>= λ pwd.
          if authed pwd password
          then admin_route info.rest m req resp
          else unauthorized info.rest m req resp
    ]
  ]
