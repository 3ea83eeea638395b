-- ===== src/Proxy/Routes.antt =====
-- What the proxy makes of a regular request: the middleware, the handlers and newMux together.
use jtrpc.Common.{◌≡◌, refl, ap, ◌∙◌, true, false, Option, none, some, List, Bytes, bytes_eq, done}
use jtrpc.Common.Maps.{lookup, bytes_key}
use jtrpc.Flags.{status_not_found, status_unauthorized, status_internal_server_error}
use jtrpc.Headers.{Headers}
use jtrpc.Headers.Access.{get_checked}
use jtrpc.Request.{Request}
use jtrpc.Response.{Response, set_body}
use jtrpc.Mux.{
  MapMux, new_map_mux, add_global, add_stream, add_middleware, get_middleware_for, combine,
}
use jtrpc.Server.Requests.{regular_chain}
use jtrpc.Mux.Chain.{mux_ops}
use jtrpc.Proxy.Paths.{codes, split_path}
use jtrpc.Proxy.Servers.{Server, Registry, admin}
use jtrpc.Proxy.Routing.{
  Info, Asked, send_failed, canceled, answered, ProxyHandler, restore, informed, middleware,
}
use jtrpc.Proxy.Admin.{Json, authed, password_key, servers_path, unauthorized, admin_handler}
use jtrpc.Proxy.Handlers.{proxy_handler, new_mux}

-- What the proxy's information about a request has for a server.
abbrev pub info_for : {K N : Type 0} → Bytes → Option (Server K N) → Info K N
info_for path server =
    let (first, rest) = split_path path in
    record { server = server; first = first; rest = rest; stream = none; timer = false }

-- `S` is the type of the stream handlers that a user of the mux may add.
module _ {C K N : Type 0} (S : Type 0) (info_of : C → Option (Info K N))
    (with_info : C → Info K N → C) (json : Json K N)
    (ask : Server K N → Request C → List K × (Request C × Asked C)) (password : Bytes)
    (clone_slice : Bytes → Bytes) where
  -- What a server with the proxy's mux runs for a regular request.
  unfoldable pub serve_regular : ProxyHandler C K N
  serve_regular m req resp =
      let mm : MapMux (ProxyHandler C K N) S =
        new_mux info_of with_info json ask password clone_slice in
      regular_chain (mux_ops mm) req.path
        (proxy_handler info_of with_info json ask password mm req.path) m req resp

  -- The context of a request keeps the information that was put into it.
  abbrev pub Keeps : Request C → Info K N → Type 0
  Keeps req i = info_of (with_info req.ctx i) ≡ some i

  pub proxy_handler-admin :
      (path : Bytes)
      → bytes_eq (split_path path).0 admin ≡ true
      → proxy_handler info_of with_info json ask password
          (new_mux {S = S} info_of with_info json ask password clone_slice)
          path
        ≡ admin_handler info_of json password
  unfolding proxy_handler
  proxy_handler-admin path same = rw same refl

  -- Only the global middleware of the mux concerns a regular request.
  pub serve_regular-middleware :
      (m : Registry K N) (req : Request C) (resp : Response C)
      → serve_regular m req resp
        ≡ middleware info_of with_info
            (proxy_handler info_of with_info json ask password
              (new_mux {S = S} info_of with_info json ask password clone_slice)
              req.path)
            m
            req
            resp
  unfolding serve_regular new_mux new_map_mux add_global add_stream add_middleware combine
      get_middleware_for mux_ops lookup
  serve_regular-middleware m req resp = refl

  -- `adminHandler` behind the middleware, without the password.
  admin_handler_refuses :
      (m : Registry K N) (req : Request C) (resp : Response C) (info : Info K N) (h : Headers)
      (given : Option Bytes)
      → bytes_eq info.rest servers_path ≡ false
      → info_of req.ctx ≡ some info
      → req.headers ≡ some h
      → get_checked h password_key ≡ done given
      → authed given password ≡ false
      → admin_handler info_of json password m req resp
        ≡ done (
          m,
          (
            req,
            set_body (record resp { status = status_unauthorized }) (codes "invalid credentials"),
          ),
        )
  unfolding admin_handler unauthorized
  admin_handler_refuses m req resp info h given other e has reads wrong =
      simp (admin_handler, unauthorized, e, has, reads, wrong, other)

  -- What the response is, in each of the cases.
  abbrev pub Answers : Asked C → Response C → Response C → Type 0
  Answers send_failed resp r =
      (r.status ≡ status_internal_server_error) × (r.req_id ≡ resp.req_id) × (r.body ≡ resp.body)
  Answers canceled resp r =
      (r.status ≡ status_internal_server_error) × (r.req_id ≡ resp.req_id) × (r.body ≡ resp.body)
  Answers (answered pr) resp r =
      (r.status ≡ pr.status)
      × (r.req_id ≡ resp.req_id)
      × (r.flags ≡ pr.flags)
      × (r.headers ≡ pr.headers)
      × (r.body ≡ pr.body)
      × (r.body_len ≡ pr.body_len)

  -- A path that leads to no server and does not begin with /admin is answered with NotFound: no
  -- server is asked, and the map and the request stay as they are.
  pub serve_regular-not_found :
      (m : Registry K N) (req : Request C) (resp : Response C)
      → bytes_eq (split_path req.path).0 admin ≡ false
      → lookup (split_path req.path).0 m ≡ none
      → serve_regular m req resp ≡ done (m, (req, record resp { status = status_not_found }))
  unfolding middleware
  serve_regular-not_found m req resp other absent =
      serve_regular-middleware m req resp ∙ rw (other, absent) refl

  -- An admin request whose headers lack the password or have another one, to any path of the admin
  -- interface but /admin/servers: it is answered with Unauthorized, and the map of servers and the
  -- request's path stay as they are.
  pub serve_regular-unauthorized :
      (m : Registry K N) (req : Request C) (resp : Response C) (h : Headers) (given : Option Bytes)
      → bytes_eq (split_path req.path).0 admin ≡ true
      → bytes_eq (split_path req.path).1 servers_path ≡ false
      → Keeps req (info_for req.path none)
      → req.headers ≡ some h
      → get_checked h password_key ≡ done given
      → authed given password ≡ false
      → serve_regular m req resp
        ≡ done (
          m,
          (
            record req { ctx = with_info req.ctx (info_for req.path none) },
            set_body (record resp { status = status_unauthorized }) (codes "invalid credentials"),
          ),
        )
  unfolding middleware
  serve_regular-unauthorized m req resp h given same other keeps has reads wrong =
      serve_regular-middleware m req resp
      ∙ rw (same, proxy_handler-admin req.path same)
          (ap (restore req.path) (
            admin_handler_refuses m (informed info_of with_info req none) resp
              (info_for req.path none) h given other keeps has reads wrong))
