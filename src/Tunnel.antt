-- ===== src/Tunnel.antt =====
-- internal/tunnel: the registry of tunnels, the requests in flight on one, and reconnection.
pub mod Protocol
pub mod Sends
pub mod Hub
pub mod Backoff
pub mod Local
pub mod Serve
pub mod Client
mod Tests
