-- ===== src/Proxy.antt =====
-- proxy/: the proxy, which routes a request by the first segment of its path to one of the servers
-- that it knows. Each child has a part of it; Proxy/Paths and Proxy/Servers are what the others use.
pub mod Paths
pub mod Servers
pub mod Registry
pub mod Replaced
pub mod Routing
pub mod Admin
pub mod Handlers
pub mod Routes
pub mod Added
pub mod Command
pub mod Answered
pub mod Authorized
pub mod RunClient
pub mod RunServer
pub mod Told
pub mod Tunnel
pub mod Handshake
pub mod Verdicts
pub mod Waiting
pub mod Sending
pub mod RunTunnel
pub mod Delivery
pub mod Chained
pub mod Listener
pub mod Replay
pub mod Directed
pub mod Closes
pub mod Piping
pub mod Relayed
