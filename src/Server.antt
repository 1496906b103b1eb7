-- ===== src/Server.antt =====
-- internal/server: the parts of the HTTP server that keep state or guard something.
pub mod Access
pub mod Accounts
pub mod Limiter
pub mod RunRequests
