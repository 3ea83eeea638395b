-- ===== src/Proxy/Handlers.antt =====
-- proxy/mux.go, newMux, and GetHandler and GetStreamHandler of its Mux.
use jtrpc.Common.{List, Option, none, some, [], ◌∷◌, Bytes, bytes_eq, if◌then◌else◌}
use jtrpc.Common.Maps.{bytes_key}
use jtrpc.Request.{Request}
use jtrpc.Mux.{MapMux, new_map_mux, add_global, add_stream, get_handler, get_stream_handler}
use jtrpc.Proxy.Paths.{split_path}
use jtrpc.Proxy.Servers.{Server, admin}
use jtrpc.Proxy.Routing.{Info, ProxyHandler, Asked, middleware, stream_middleware, jtrpc_handler}
use jtrpc.Proxy.Admin.{Json, admin_handler}

-- The stream handlers of the proxy: its own, or one of the mux.
pub data StreamHandler (S : Type 0) : Type 0 where
  pipes : StreamHandler S
  own : S → StreamHandler S

module _ {C K N S : Type 0} (info_of : C → Option (Info K N)) (with_info : C → Info K N → C)
    (json : Json K N) (ask : Server K N → Request C → List K × (Request C × Asked C))
    (password : Bytes) where
  -- `GetHandler` of the proxy's mux.
  unfoldable pub proxy_handler : MapMux (ProxyHandler C K N) S → Bytes → ProxyHandler C K N
  proxy_handler mm path =
      if bytes_eq (split_path path).0 admin
      then admin_handler info_of json password
      else elim (get_handler mm path) [ some h ↦ h | none ↦ jtrpc_handler info_of with_info ask ]

  -- `GetStreamHandler`
  unfoldable pub proxy_stream_handler :
      MapMux (ProxyHandler C K N) S → Bytes → Option (StreamHandler S)
  proxy_stream_handler mm path =
      if bytes_eq (split_path path).0 admin
      then none
      else elim (get_stream_handler mm path) [ some h ↦ some (own h) | none ↦ some pipes ]

  -- `newMux`
  unfoldable pub new_mux : (Bytes → Bytes) → MapMux (ProxyHandler C K N) S
  new_mux clone_slice =
      add_stream (add_global new_map_mux (middleware info_of with_info ∷ []))
        (stream_middleware info_of with_info ask clone_slice ∷ [])
