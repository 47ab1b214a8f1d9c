-- ===== src/Http.antt =====
-- src/http: the request that the proxy forwards, and the key of the cache.
pub mod Parser
pub mod HttpRequest
pub mod Order
pub mod HeaderMap
pub mod Text
pub mod Headers
pub mod Tests
