-- ===== src/Proxy/Servers.antt =====
-- proxy/mux.go: the type Server, its init, and the handlers that read and change the map of servers.
--
-- The map is `Registry`: what a path leads to is a pointer, and `none` is nil. `C` is the type of
-- contexts, `K` that of clients, `N` that of network connections. What encoding/json makes of a
-- body, and of a value, is a parameter.
use jtrpc.Common.{
  ℕ, Bool, true, false, not, Option, none, some, List, [], ◌∷◌, Bytes, bytes_eq, length, nat_eq,
  if◌then◌else◌, Outcome, done, panics, ◌>>=◌,
}
use jtrpc.Common.Int.{ℤ}
use jtrpc.Common.Maps.{lookup, insert, delete, bytes_key}
use jtrpc.Flags.{status_partial_error, status_bad_request, status_internal_server_error}
use jtrpc.Request.{Request}
use jtrpc.Response.{Response, set_body, set_status_body}
use jtrpc.Proxy.Paths.{codes, split_path}

pub record Server (K N : Type 0) : Type 0 where
  pub name : Bytes
  pub path : Bytes
  pub addr : Bytes
  pub hidden : Bool
  pub clients : Option (List K)
  pub tunnel_conn : Option (Option N)
  pub tch : Option (List N)
  pub n_waiting : ℤ

abbrev pub tunnel_addr : Bytes
tunnel_addr = codes "tunnel"

abbrev pub admin : Bytes
admin = codes "/admin"

abbrev pub Registry : Type 0 → Type 0 → Type 0
Registry K N = List (Bytes × Option (Server K N))

-- The map from paths to error texts.
abbrev pub Errors : Type 0
Errors = List (Bytes × Bytes)

-- What a JSON decoder gives: a value, or the text of its error.
pub data Decoded (A : Type 0) : Type 0 where
  decoded : A → Decoded A
  malformed : Bytes → Decoded A

abbrev pub is_admin : Bytes → Bool
is_admin path = bytes_eq (split_path path).0 admin

-- `if x == nil { x = a }`
abbrev pub or_new : {A : Type 0} → Option A → A → Option A
or_new none a = some a
or_new (some b) a = some b

module _ {K N : Type 0} where
  -- `init` of a server that is not nil.
  unfoldable pub init : Server K N → Server K N
  init s = record s {
    clients = or_new s.clients [];
    tunnel_conn = or_new s.tunnel_conn none;
    tch = if bytes_eq s.addr tunnel_addr then some [] else s.tch;
  }

  -- `init` of the configuration (proxy/server.go), on its servers: each gets its path, too.
  unfoldable pub init_config : Registry K N → Outcome (Registry K N)
  init_config [] = done []
  init_config ((path, none) ∷ more) = panics
  init_config ((path, some s) ∷ more) = do
    rest ← init_config more
    done ((path, some (record (init s) { path = path })) ∷ rest)

  -- One round of the loop of `newServersHandler`.
  unfoldable pub new_entry :
      Bytes → Option (Server K N) → Registry K N → Errors → Outcome (Registry K N × Errors)
  new_entry path srvr m errs =
      if is_admin path
      then done (m, insert path (codes "First path segment cannot be /admin") errs)
      else elim (lookup path m) [
        | some _ ↦ done (m, insert path (codes "Already exists") errs)
        | none ↦ elim srvr [ none ↦ panics | some s ↦ done (insert path (some (init s)) m, errs) ]
      ]

  unfoldable pub new_servers :
      Registry K N → Registry K N → Errors → Outcome (Registry K N × Errors)
  new_servers [] m errs = done (m, errs)
  new_servers ((path, srvr) ∷ more) m errs = do
    r ← new_entry path srvr m errs
    new_servers more r.0 r.1

  -- The loop of `delServersHandler`.
  unfoldable pub del_servers : List Bytes → Registry K N → Errors → Registry K N × Errors
  del_servers [] m errs = (m, errs)
  del_servers (path ∷ more) m errs = elim (lookup path m) [
    | some _ ↦ del_servers more (delete path m) errs
    | none ↦ del_servers more m (insert path (codes "Path doesn't exist") errs)
  ]

  -- One round of the loop of `replaceServersHandler`: what becomes of the entry, and its error.
  unfoldable pub check_entry :
      Bytes → Option (Server K N) → Errors → Outcome (Option (Server K N) × Errors)
  check_entry path srvr errs =
      if is_admin path
      then done (srvr, insert path (codes "First path segment cannot be /admin") errs)
      else elim srvr [ none ↦ panics | some s ↦ done (some (init s), errs) ]

  -- The loop: the new map, which has the refused entries, too.
  unfoldable pub replace_servers : Registry K N → Errors → Outcome (Registry K N × Errors)
  replace_servers [] errs = done ([], errs)
  replace_servers ((path, srvr) ∷ more) errs = do
    r ← check_entry path srvr errs
    rest ← replace_servers more r.1
    done ((path, r.0) ∷ rest.0, rest.1)

  -- Whether `getServersHandler` shows an entry; a nil pointer is only looked into without `authed`.
  unfoldable pub shows : Bool → Option (Server K N) → Outcome Bool
  shows true srvr = done true
  shows false none = panics
  shows false (some s) = done (not s.hidden)

  -- The loop of `getServersHandler`: `servers` is the nil map, and a write to it panics.
  unfoldable pub visible_servers : Bool → Registry K N → Outcome (Registry K N)
  visible_servers authed [] = done []
  visible_servers authed ((path, srvr) ∷ more) = do
    shown ← shows authed srvr
    if shown then panics else visible_servers authed more

-- A handler of the admin interface: the map, and the response.
abbrev pub Answered : Type 0 → Type 0 → Type 0 → Type 0
Answered C K N = Outcome (Registry K N × Response C)

-- The decoder reads a nil buffer of a request without a body, which panics.
abbrev pub with_body :
    {A C K N : Type 0}
    → (Bytes → Decoded A)
    → Registry K N
    → Request C
    → Response C
    → (A → Answered C K N)
    → Answered C K N
with_body decode m req resp k = elim req.body [
  | none ↦ panics
  | some b ↦ elim (decode b) [
    | malformed e ↦ done (m, set_status_body resp status_bad_request e)
    | decoded a ↦ k a
  ]
]

-- The body of an error answer, or the text that stands for it.
abbrev pub error_body : (Errors → Option Bytes) → Errors → Bytes → Bytes
error_body marshal_errors errs other = elim (marshal_errors errs) [ some b ↦ b | none ↦ other ]

-- `setAdminSrvrsErr`
unfoldable pub set_admin_srvrs_err :
    {C : Type 0} → (Errors → Option Bytes) → Response C → Errors → ℕ → Response C
set_admin_srvrs_err marshal_errors resp errs other_len =
    if nat_eq (length errs) 0
    then resp
    else if not (nat_eq other_len (length errs))
    then set_status_body resp status_partial_error (
        error_body marshal_errors errs (codes "partial error with request; error sending response"))
    else set_status_body resp status_bad_request
        (error_body marshal_errors errs (codes "error with request; error sending response"))

unfoldable pub get_servers_handler :
    {C K N : Type 0}
    → (Registry K N → Option Bytes)
    → Bool
    → Registry K N
    → Response C
    → Answered C K N
get_servers_handler marshal authed m resp = do
  shown ← visible_servers authed m
  done (
    m,
    elim (marshal shown) [
      | some b ↦ set_body resp b
      | none ↦ record resp { status = status_internal_server_error }
    ],
  )

module _ {C K N : Type 0} (marshal_errors : Errors → Option Bytes) where
  unfoldable pub new_servers_handler :
      (Bytes → Decoded (Registry K N)) → Registry K N → Request C → Response C → Answered C K N
  new_servers_handler decode m req resp = with_body decode m req resp λ servers. do
    r ← new_servers servers m []
    done (r.0, set_admin_srvrs_err marshal_errors resp r.1 (length servers))

  unfoldable pub del_servers_handler :
      (Bytes → Decoded (List Bytes)) → Registry K N → Request C → Response C → Answered C K N
  del_servers_handler decode m req resp = with_body decode m req resp λ paths.
      let r = del_servers paths m [] in
      done (r.0, set_admin_srvrs_err marshal_errors resp r.1 (length paths))

  unfoldable pub replace_servers_handler :
      (Bytes → Decoded (Registry K N)) → Registry K N → Request C → Response C → Answered C K N
  replace_servers_handler decode m req resp = with_body decode m req resp λ servers. do
    r ← replace_servers servers []
    done (r.0, set_admin_srvrs_err marshal_errors resp r.1 (length servers))
