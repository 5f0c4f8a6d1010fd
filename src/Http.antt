-- ===== src/Http.antt =====
-- http/: the transport's policies and the request loop.
pub mod CircuitBreaker
pub mod Retry
pub mod RestClient
