-- ===== src/Api.antt =====
-- internal/api: the HTTP endpoints and their middleware.
pub mod Ingest
pub mod RateLimiter
pub mod Middleware
pub mod Queries
pub mod Monitoring
mod Tests
