-- ===== src/Proxy/Routing.antt =====
-- proxy/mux.go: the middleware of the proxy, its handlers, and newMux.
--
-- A handler gets the map of servers as it is when it runs, and gives the map that it leaves. What
-- context.Context keeps under the proxy's key is read and set by two parameters. `ask` stands for
-- sending a request to a server and waiting for the answer (Proxy/Sending has the sending): the set
-- of clients that it leaves the server with, the request as the client leaves it, and what came of it.
use jtrpc.Common.{
  ℕ, Bool, true, false, Option, none, some, List, Bytes, bytes_eq, if◌then◌else◌, Outcome, done,
  panics, stuck,
}
use jtrpc.Common.Maps.{lookup, insert, bytes_key}
use jtrpc.Flags.{status_not_found, status_internal_server_error}
use jtrpc.Request.{Request, clone_request, set_stream}
use jtrpc.Response.{Response, shallow_copy_from}
use jtrpc.Mux.{Middleware}
use jtrpc.Proxy.Paths.{split_path}
use jtrpc.Proxy.Servers.{Server, Registry, admin}

-- MiddlewareInfo; `stream` is the stream to the server, by its id, and `timer` says whether there
-- is a timer.
pub record Info (K N : Type 0) : Type 0 where
  pub server : Option (Server K N)
  pub first : Bytes
  pub rest : Bytes
  pub stream : Option ℕ
  pub timer : Bool

-- What `sendReq` and the receive from the channel give.
pub data Asked (C : Type 0) : Type 0 where
  send_failed : Asked C
  canceled : Asked C
  answered : Response C → Asked C

-- The map with this server, whose set of clients sendReq has changed, under its path.
abbrev pub with_clients : {K N : Type 0} → Registry K N → Bytes → Server K N → List K → Registry K N
with_clients m first s ks = insert first (some (record s { clients = some ks })) m

-- The result of a handler: the map, the request and the response.
abbrev pub Handled : Type 0 → Type 0 → Type 0 → Type 0
Handled C K N = Outcome (Registry K N × (Request C × Response C))

abbrev pub ProxyHandler : Type 0 → Type 0 → Type 0 → Type 0
ProxyHandler C K N = Registry K N → Request C → Response C → Handled C K N

abbrev pub internal_error : {C : Type 0} → Response C → Response C
internal_error resp = record resp { status = status_internal_server_error }

-- `req.Path = path`, the deferred call.
abbrev pub restore : {C K N : Type 0} → Bytes → Handled C K N → Handled C K N
restore path (done (m, (req, resp))) = done (m, (record req { path = path }, resp))
restore path panics = panics
restore path stuck = stuck

-- The server and its information, where nothing of it is nil.
abbrev pub ready : {K N : Type 0} → Option (Info K N) → Option (Info K N × Server K N)
ready none = none
ready (some info) = elim info.server [
  | none ↦ none
  | some s ↦ elim s.clients [ none ↦ none | some _ ↦ some (info, s) ]
]

abbrev pub copy_answer : {C : Type 0} → Response C → Asked C → Response C
copy_answer resp send_failed = internal_error resp
copy_answer resp canceled = internal_error resp
copy_answer resp (answered pr) = shallow_copy_from resp pr

abbrev pub copy_over : {C K N : Type 0} → Response C → Handled C K N → Handled C K N
copy_over pr (done (m, (req, resp))) = done (m, (req, shallow_copy_from resp pr))
copy_over pr panics = panics
copy_over pr stuck = stuck

-- The request for a stream of the server.
abbrev pub stream_request : {C : Type 0} → (Bytes → Bytes) → Request C → Bytes → Request C
stream_request clone_slice req rest =
    set_stream (record (clone_request clone_slice req req.ctx) { path = rest }) true

module _ {C K N : Type 0} (info_of : C → Option (Info K N)) (with_info : C → Info K N → C) where
  abbrev pub informed : Request C → Option (Server K N) → Request C
  informed req server =
      let (first, rest) = split_path req.path in
      record req {
        ctx =
            with_info req.ctx (record {
              server = server;
              first = first;
              rest = rest;
              stream = none;
              timer = false;
            });
      }

  -- `middleware`
  unfoldable pub middleware : Middleware (ProxyHandler C K N)
  middleware next m req resp =
      if bytes_eq (split_path req.path).0 admin
      then restore req.path (next m (informed req none) resp)
      else elim (lookup (split_path req.path).0 m) [
        | none ↦ done (m, (req, record resp { status = status_not_found }))
        | some server ↦ restore req.path (next m (informed req server) resp)
      ]

  module _ (ask : Server K N → Request C → List K × (Request C × Asked C)) where
    -- `jtrpcHandler`
    unfoldable pub jtrpc_handler : ProxyHandler C K N
    jtrpc_handler m req resp = elim (ready (info_of req.ctx)) [
      | none ↦ done (m, (req, internal_error resp))
      | some (info, s) ↦
          let (ks, (req', asked)) = ask s (record req { path = info.rest }) in
          done (with_clients m info.first s ks, (req', copy_answer resp asked))
    ]

    -- `streamMiddleware` from the answer of the server on.
    abbrev pub with_stream :
        ProxyHandler C K N
        → Registry K N
        → Request C
        → Response C
        → Info K N
        → Asked C
        → Handled C K N
    with_stream next m req resp info send_failed = done (m, (req, internal_error resp))
    with_stream next m req resp info canceled = done (m, (req, internal_error resp))
    with_stream next m req resp info (answered pr) = elim pr.stream [
      | none ↦ done (m, (req, internal_error resp))
      | some stream ↦
          let info' = record info { stream = some stream; timer = true } in
          copy_over pr (next m (record req { ctx = with_info req.ctx info' }) resp)
    ]

    unfoldable pub stream_middleware : (Bytes → Bytes) → Middleware (ProxyHandler C K N)
    stream_middleware clone_slice next m req resp = elim (info_of req.ctx) [
      | none ↦
          if bytes_eq (split_path req.path).0 admin
          then next m req resp
          else done (m, (req, internal_error resp))
      | some info ↦ elim (ready (some info)) [
        | none ↦ done (m, (req, internal_error resp))
        | some (_, s) ↦
            let (ks, (_, asked)) = ask s (stream_request clone_slice req info.rest) in
            with_stream next (with_clients m info.first s ks) req resp info asked
      ]
    ]
