-- ===== src/Proxy/Added.antt =====
-- A request to the admin interface that adds servers.
use jtrpc.Common.{
  ◌≡◌, refl, ap, ◌∙◌, true, Option, none, some, List, [], Bytes, bytes_eq, length, done,
}
use jtrpc.Common.Maps.{bytes_key}
use jtrpc.Headers.{Headers}
use jtrpc.Headers.Access.{get_checked}
use jtrpc.Request.{Request}
use jtrpc.Response.{Response}
use jtrpc.Proxy.Paths.{codes, split_path}
use jtrpc.Proxy.Servers.{
  Server, Registry, Errors, decoded, admin, new_servers, with_body, new_servers_handler,
  set_admin_srvrs_err,
}
use jtrpc.Proxy.Routing.{Info, Asked, restore, informed, middleware}
use jtrpc.Proxy.Admin.{Json, password_key, admin_route, admin_handler}
use jtrpc.Proxy.Routes.{info_for, serve_regular, proxy_handler-admin, serve_regular-middleware}

abbrev pub new_path : Bytes
new_path = codes "/servers/new"

module _ {C K N : Type 0} (S : Type 0) (info_of : C → Option (Info K N))
    (with_info : C → Info K N → C) (json : Json K N)
    (ask : Server K N → Request C → List K × (Request C × Asked C)) (password : Bytes)
    (clone_slice : Bytes → Bytes) where
  -- The password is right and the body is a map of servers.
  new_servers_handler_adds :
      (m es after : Registry K N) (errors : Errors) (req : Request C) (resp : Response C)
      (b : Bytes)
      → req.body ≡ some b
      → json.decode_servers b ≡ decoded es
      → new_servers es m [] ≡ done (after, errors)
      → new_servers_handler json.marshal_errors json.decode_servers m req resp
        ≡ done (after, set_admin_srvrs_err json.marshal_errors resp errors (length es))
  unfolding new_servers_handler
  new_servers_handler_adds m es after errors req resp b has reads runs =
      simp (new_servers_handler, with_body, has, reads, runs)

  admin_route_adds :
      (rest : Bytes) (m es after : Registry K N) (errors : Errors) (req : Request C)
      (resp : Response C) (b : Bytes)
      → rest ≡ new_path
      → req.body ≡ some b
      → json.decode_servers b ≡ decoded es
      → new_servers es m [] ≡ done (after, errors)
      → admin_route info_of json rest m req resp
        ≡ done (after, (req, set_admin_srvrs_err json.marshal_errors resp errors (length es)))
  unfolding admin_route bytes_eq
  admin_route_adds rest m es after errors req resp b e has reads runs =
      rw (e, new_servers_handler_adds m es after errors req resp b has reads runs) refl

  -- `adminHandler` behind the middleware, with the password.
  admin_handler_adds :
      (m es after : Registry K N) (errors : Errors) (req : Request C) (resp : Response C)
      (b given : Bytes) (h : Headers) (info : Info K N)
      → info_of req.ctx ≡ some info
      → info.rest ≡ new_path
      → req.headers ≡ some h
      → get_checked h password_key ≡ done (some given)
      → bytes_eq given password ≡ true
      → req.body ≡ some b
      → json.decode_servers b ≡ decoded es
      → new_servers es m [] ≡ done (after, errors)
      → admin_handler info_of json password m req resp
        ≡ done (after, (req, set_admin_srvrs_err json.marshal_errors resp errors (length es)))
  unfolding admin_handler
  admin_handler_adds m es after errors req resp b given h info e rest has reads right body dec
        runs =
      simp (admin_handler, e, has, reads, right)
        (admin_route_adds info.rest m es after errors req resp b rest body dec runs)

  -- A request to /admin/servers/new with the right password.
  pub serve_regular-new_servers :
      (es m after : Registry K N) (errors : Errors) (adds : Request C) (resp : Response C)
      (b given : Bytes) (h : Headers)
      → bytes_eq (split_path adds.path).0 admin ≡ true
      → (split_path adds.path).1 ≡ new_path
      → info_of (with_info adds.ctx (info_for adds.path none)) ≡ some (info_for adds.path none)
      → adds.headers ≡ some h
      → get_checked h password_key ≡ done (some given)
      → bytes_eq given password ≡ true
      → adds.body ≡ some b
      → json.decode_servers b ≡ decoded es
      → new_servers es m [] ≡ done (after, errors)
      → serve_regular S info_of with_info json ask password clone_slice m adds resp
        ≡ done (
          after,
          (
            record adds { ctx = with_info adds.ctx (info_for adds.path none) },
            set_admin_srvrs_err json.marshal_errors resp errors (length es),
          ),
        )
  unfolding middleware
  serve_regular-new_servers es m after errors adds resp b given h same rest keeps has reads right
        body dec runs =
      serve_regular-middleware S info_of with_info json ask password clone_slice m adds resp
      ∙ rw
          (
            same,
            proxy_handler-admin S info_of with_info json ask password clone_slice adds.path same,
          )
          (ap (restore adds.path) (
            admin_handler_adds m es after errors (informed info_of with_info adds none) resp b given
              h (info_for adds.path none) keeps rest has reads right body dec runs))
