-- ===== src/Remote.antt =====
-- internal/remote: what the responder asks of the zeus API and tells it.
pub mod Backoff
pub mod Url
pub mod Client
pub mod Sse
pub mod Stream
pub mod Reporter
pub mod Goroutines
pub mod Sending
pub mod Refetch
pub mod Reconnect
