-- ===== src/Mux.antt =====
-- go/mux.go: CombineMiddleware and MapMux.
--
-- A handler is a value of a type `H` and a stream handler one of `S`: MapMux stores and returns
-- them, and a middleware is a function on handlers. `none` is the nil handler or middleware.
pub mod Chain
use jtrpc.Common.{Option, none, some, List, [], ◌∷◌, Bytes}
use jtrpc.Common.Maps.{lookup, insert, bytes_key}

abbrev pub Middleware : Type 0 → Type 0
Middleware H = H → H

-- `CombineMiddleware(m, ms...)`: each round closes over the `m` so far.
unfoldable pub combine : {H : Type 0} → Middleware H → List (Middleware H) → Middleware H
combine m [] = m
combine m (mid ∷ ms) = combine (λ next. m (mid next)) ms

pub record MapMux (H S : Type 0) : Type 0 where
  pub global : Option (Middleware H)
  pub middleware : Option (Middleware H)
  pub stream_middleware : Option (Middleware H)
  pub handlers : List (Bytes × H)
  pub middlewares : List (Bytes × Middleware H)
  pub stream_middlewares : List (Bytes × Middleware H)
  pub stream_handlers : List (Bytes × S)

-- The entry that `Handle` and `HandleStream` make for the middlewares that they are given.
unfoldable pub register :
    {H : Type 0}
    → Bytes
    → List (Middleware H)
    → List (Bytes × Middleware H)
    → List (Bytes × Middleware H)
register path [] table = table
register path (m ∷ ms) table = insert path (combine m ms) table

-- The field that GlobalMiddleware, Middleware and StreamMiddleware add to.
unfoldable pub add_middleware :
    {H : Type 0} → Option (Middleware H) → List (Middleware H) → Option (Middleware H)
add_middleware o [] = o
add_middleware none (m ∷ ms) = some (combine m ms)
add_middleware (some f) (m ∷ ms) = some (combine f (m ∷ ms))

module _ {H S : Type 0} where
  unfoldable pub new_map_mux : MapMux H S
  new_map_mux = record {
    global = none;
    middleware = none;
    stream_middleware = none;
    handlers = [];
    middlewares = [];
    stream_middlewares = [];
    stream_handlers = [];
  }

  -- `Handle` and `HandleFunc`
  unfoldable pub handle : MapMux H S → Bytes → H → List (Middleware H) → MapMux H S
  handle mm path h ms = record mm {
    middlewares = register path ms mm.middlewares;
    handlers = insert path h mm.handlers;
  }

  -- `HandleStream` and `HandleStreamFunc`
  unfoldable pub handle_stream : MapMux H S → Bytes → S → List (Middleware H) → MapMux H S
  handle_stream mm path h ms = record mm {
    stream_middlewares = register path ms mm.stream_middlewares;
    stream_handlers = insert path h mm.stream_handlers;
  }

  unfoldable pub add_global : MapMux H S → List (Middleware H) → MapMux H S
  add_global mm ms = record mm { global = add_middleware mm.global ms }

  unfoldable pub add_regular : MapMux H S → List (Middleware H) → MapMux H S
  add_regular mm ms = record mm { middleware = add_middleware mm.middleware ms }

  unfoldable pub add_stream : MapMux H S → List (Middleware H) → MapMux H S
  add_stream mm ms = record mm { stream_middleware = add_middleware mm.stream_middleware ms }

  -- SetGlobalMiddleware, SetMiddleware, SetStreamMiddleware
  unfoldable pub set_global : MapMux H S → Option (Middleware H) → MapMux H S
  set_global mm m = record mm { global = m }

  unfoldable pub set_regular : MapMux H S → Option (Middleware H) → MapMux H S
  set_regular mm m = record mm { middleware = m }

  unfoldable pub set_stream : MapMux H S → Option (Middleware H) → MapMux H S
  set_stream mm m = record mm { stream_middleware = m }

  unfoldable pub get_handler : MapMux H S → Bytes → Option H
  get_handler mm path = lookup path mm.handlers

  unfoldable pub get_middleware_for : MapMux H S → Bytes → Option (Middleware H)
  get_middleware_for mm path = lookup path mm.middlewares

  unfoldable pub get_stream_handler : MapMux H S → Bytes → Option S
  get_stream_handler mm path = lookup path mm.stream_handlers

  unfoldable pub get_stream_middleware_for : MapMux H S → Bytes → Option (Middleware H)
  get_stream_middleware_for mm path = lookup path mm.stream_middlewares
