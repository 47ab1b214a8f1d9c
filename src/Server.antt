-- ===== src/Server.antt =====
-- src/server.cpp and src/server.h: the proxy, which ties the clients, the cache and the sockets
-- together. `State` holds its state; the other modules one group of its methods each.
pub mod State
pub mod Connect
pub mod Requests
pub mod Discard
pub mod Sharing
pub mod Response
pub mod Sending
pub mod Events
pub mod Safety
pub mod Stable
pub mod Synced
pub mod Delivery
mod Discarding
pub mod Leaving
pub mod Gone
pub mod Orphans
pub mod Latecomer
pub mod Mixed
pub mod Lingering
pub mod Stopping
pub mod Descriptors
pub mod Errors
pub mod Broadcast
pub mod Caching
pub mod Fallen
pub mod Fallback
pub mod Stranded
pub mod Takeover
pub mod Tests
