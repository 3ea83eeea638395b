-- ===== src/Lib.antt =====
-- JtRPC: the Go implementation of the protocol in SPEC.v2.md.
--
-- A client sends requests over one connection, each with an id, flags, a path, headers and a body;
-- the server looks the path up in its mux, runs middleware around the handler and answers with a
-- response of the same id. A request may ask for a stream: both sides then exchange messages with
-- that id, in any number and in both directions, until one of them closes the stream.
--
-- The files, and what of go/ they model:
-- - Wire: go/other.go, little-endian numbers.
-- - Headers and its children: the type Headers of go/req_resp.go. It is either raw bytes as they
--   came from the wire or a map. Headers has creation, Parse, Encode, EncodeP and EncodedLen;
--   Headers/Access has Get, GetChecked, Set, SetAll, SetAllP, Remove, RemoveChecked and Range;
--   Headers/Http has the conversions from an http.Header, and Clone. Headers/Pairs describes the
--   wire form of a map, and the other children have the proofs.
-- - Io: what the code relies on of Go's package io and of utils.WriteAll.
-- - Flags: the flags and statuses of go/req_resp.go and go/stream.go, and StatusToHTTP.
-- - Request, Response, Message: the types of these names in go/req_resp.go and go/stream.go,
--   with reading and writing; Response has ReadCloseCounter, the reader of a response's body, too.
-- - Mux: MapMux and CombineMiddleware of go/mux.go.
-- - Stream: the type Stream of go/stream.go, with its channel of 50 messages and the buffer
--   behind it.
-- - Server: the connection of a server in go/server.go, and the goroutines of its requests;
--   Server/Requests and Server/Messages have the loop that reads it.
-- - Server/Http: ServeHTTP and wsStreamHandler of go/server.go; Server/HttpPaths and WsStreams have
--   what they do.
-- - Client: go/client.go; Client/Receive has the loop that reads responses and messages, and
--   Client/Close the closing of a client and of a server's connection.
-- - Exchange: a client and a connection of a server together, from Send to the response in the
--   channel that Send gave; Exchange/Messages and what it uses have the messages of a stream
--   between them, both ways.
-- - Proxy: the proxy of proxy/mux.go and proxy/listeners.go. It keeps a map from the first
--   segment of a path to a server, and sends a request on to that server with the rest of the
--   path; requests for /admin change the map. Proxy/Paths, Servers, Routing, Admin and Handlers
--   have the mux, Proxy/Registry, Replaced, Routes and Added what it does; Proxy/Sending has
--   sendReq, Proxy/Piping the streams, and Proxy/Relayed a stream from a server through the
--   proxy to a client. A server may stand behind another proxy that keeps a connection open as
--   its tunnel: Proxy/Tunnel, RunTunnel and Waiting have both sides of that, Proxy/Handshake,
--   Verdicts, Delivery and Chained how they fit. Proxy/Listener, Replay, Directed and Closes
--   have the listener that both protocols share. Proxy/Command and RunClient have the command of
--   proxy/client.go, Proxy/Authorized, Told and Answered what passes between it and the proxy;
--   and Proxy/RunServer has RunServer of proxy/server.go.
-- - Common: lists, Booleans, maps, integers and Go's panics. Tests: small runs, and the theorems
--   applied to them.
--
-- How the code is read. A byte is a number below 256, an unsigned integer is a number, and a
-- conversion to fewer bits is written as a remainder; where the code converts a length to `int64`
-- the model has an integer (Common/Int). A Go map is an association list with the first entry of a
-- key valid; Go's iteration order is left open there by leaving the order of the list open. A
-- function that may panic gives an Outcome. A loop that reads on in a byte slice runs on fuel, the
-- length of the slice: each round reads at least four bytes, so that it suffices; `stuck` says
-- that the fuel ran out. A reader is the bytes that are still to come, a writer is what it has
-- taken and how much more it takes; writers and readers fail at the end of these only. What Go
-- does under a mutex or as one atomic operation is one step, and another goroutine may act between
-- two steps: Stream says where.
--
-- Not modelled: the clock but for its effect on a receive, contexts (a parameter type), logging,
-- the error strings, sync.Pool, and sharing of memory between slices (where the code clones a
-- slice the model has a parameter for utils.CloneSlice). Code outside the repository is a
-- parameter: utils.UChan, what encoding/json and a context make of a value, net/http, and whether
-- a mutex can be taken twice. The flags of the proxy's commands are given as parsed. Not modelled are
-- also the older prototype in ntwk/, which does not compile (ntwk/req_resp.go uses the package fmt
-- without importing it) and is not used, the compiler and the Rust and Julia implementations.
pub mod Common
pub mod Wire
pub mod Headers
pub mod Io
pub mod Flags
pub mod Request
pub mod Message
pub mod Response
pub mod Mux
pub mod Stream
pub mod Server
pub mod Client
pub mod Exchange
pub mod Proxy
mod Tests
