-- ===== src/Api.antt =====
-- internal/api: the middlewares of the REST server.
pub mod RateLimit
pub mod Access
pub mod Contracts
pub mod Events
pub mod Routes
pub mod Lifecycle
