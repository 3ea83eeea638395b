-- ===== src/Mux/Chain.antt =====
-- The order in which middleware runs.
use jtrpc.Common.{
  ◌≡◌, refl, ap, ◌∙◌, Option, none, some, List, [], ◌∷◌, ◌++◌, Bytes, bytes_eq, if◌then◌else◌,
}
use jtrpc.Common.Maps.{bytes_key}
use jtrpc.Mux.{
  Middleware, MapMux, handle, handle_stream, add_global, add_regular, add_stream, get_handler,
  get_middleware_for, get_stream_handler, get_stream_middleware_for,
}
use jtrpc.Server.{MuxOps, wrap}
use jtrpc.Server.Requests.{regular_chain, stream_chain}

module _ {H : Type 0} where
  -- The handler that runs the middlewares from the first to the last, and then `next`.
  abbrev pub apply_all : List (Middleware H) → H → H
  apply_all [] next = next
  apply_all (m ∷ ms) next = m (apply_all ms next)

  -- Those of the middlewares that are not nil.
  abbrev pub given : List (Option (Middleware H)) → List (Middleware H)
  given [] = []
  given (none ∷ os) = given os
  given (some m ∷ os) = m ∷ given os

  given-wrap :
      (o : Option (Middleware H)) (os : List (Option (Middleware H))) (next : H)
      → wrap o (apply_all (given os) next) ≡ apply_all (given (o ∷ os)) next
  given-wrap none os next = refl
  given-wrap (some m) os next = refl

-- The middlewares of a call, or those from before if the call has none.
abbrev pub or_keep : {H : Type 0} → List (Middleware H) → List (Middleware H) → List (Middleware H)
or_keep [] old = old
or_keep (m ∷ ms) old = m ∷ ms

-- The calls that set a mux up.
pub data Call (H S : Type 0) : Type 0 where
  regular : Bytes → H → List (Middleware H) → Call H S
  stream : Bytes → S → List (Middleware H) → Call H S
  globals : List (Middleware H) → Call H S
  regulars : List (Middleware H) → Call H S
  streams : List (Middleware H) → Call H S

module _ {H S : Type 0} where
  abbrev pub step : MapMux H S → Call H S → MapMux H S
  step mm (regular path h ms) = handle mm path h ms
  step mm (stream path h ms) = handle_stream mm path h ms
  step mm (globals ms) = add_global mm ms
  step mm (regulars ms) = add_regular mm ms
  step mm (streams ms) = add_stream mm ms

  unfoldable pub run : MapMux H S → List (Call H S) → MapMux H S
  run mm [] = mm
  run mm (c ∷ cs) = run (step mm c) cs

  -- The global middlewares of the calls, in the order of the calls.
  abbrev pub all_globals : List (Call H S) → List (Middleware H)
  all_globals [] = []
  all_globals (globals ms ∷ cs) = ms ++ all_globals cs
  all_globals (_ ∷ cs) = all_globals cs

  abbrev pub all_regulars : List (Call H S) → List (Middleware H)
  all_regulars [] = []
  all_regulars (regulars ms ∷ cs) = ms ++ all_regulars cs
  all_regulars (_ ∷ cs) = all_regulars cs

  -- The handler of the last call for a path.
  abbrev pub last_handler : Bytes → Option H → List (Call H S) → Option H
  last_handler path o [] = o
  last_handler path o (regular p h ms ∷ cs) =
      last_handler path (if bytes_eq p path then some h else o) cs
  last_handler path o (_ ∷ cs) = last_handler path o cs

  -- The middlewares of the last call for a path that had any.
  abbrev pub last_middlewares : Bytes → List (Middleware H) → List (Call H S) → List (Middleware H)
  last_middlewares path old [] = old
  last_middlewares path old (regular p h ms ∷ cs) =
      last_middlewares path (if bytes_eq p path then or_keep ms old else old) cs
  last_middlewares path old (_ ∷ cs) = last_middlewares path old cs

  -- MapMux as an implementation of the interface Mux.
  unfoldable pub mux_ops : MapMux H S → MuxOps H S
  mux_ops mm = record {
    handler_at = get_handler mm;
    middleware_at = get_middleware_for mm;
    stream_handler_at = get_stream_handler mm;
    stream_middleware_at = get_stream_middleware_for mm;
    global_middleware = mm.global;
    regular_middleware = mm.middleware;
    all_stream_middleware = mm.stream_middleware;
  }

  -- The global middleware around the one for all regular requests, around that of the path, around
  -- the handler, as far as there are such.
  abbrev pub inside : MuxOps H S → Bytes → H → H
  inside mux path h =
      apply_all
        (given (mux.global_middleware ∷ mux.regular_middleware ∷ mux.middleware_at path ∷ [])) h

  -- The same for a stream request.
  abbrev pub inside_stream : MuxOps H S → Bytes → H → H
  inside_stream mux path h =
      apply_all
        (given
          (mux.global_middleware ∷ mux.all_stream_middleware ∷ mux.stream_middleware_at path ∷ []))
        h

  -- What is run for a regular request.
  pub regular_chain_lem :
      (mux : MuxOps H S) (path : Bytes) (h : H) → regular_chain mux path h ≡ inside mux path h
  regular_chain_lem mux path h =
      ap (λ k. wrap mux.global_middleware (wrap mux.regular_middleware k))
        (given-wrap (mux.middleware_at path) [] h)
      ∙ ap (wrap mux.global_middleware)
          (given-wrap mux.regular_middleware (mux.middleware_at path ∷ []) h)
      ∙ given-wrap mux.global_middleware (mux.regular_middleware ∷ mux.middleware_at path ∷ []) h

  -- And for a stream request.
  pub stream_chain_lem :
      (mux : MuxOps H S) (path : Bytes) (h : H) → stream_chain mux path h ≡ inside_stream mux path h
  stream_chain_lem mux path h =
      ap (λ k. wrap mux.global_middleware (wrap mux.all_stream_middleware k))
        (given-wrap (mux.stream_middleware_at path) [] h)
      ∙ ap (wrap mux.global_middleware)
          (given-wrap mux.all_stream_middleware (mux.stream_middleware_at path ∷ []) h)
      ∙ given-wrap mux.global_middleware
          (mux.all_stream_middleware ∷ mux.stream_middleware_at path ∷ []) h
