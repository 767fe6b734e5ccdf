-- ===== src/Api.antt =====
-- internal/api: the HTTP handlers, and what stands in front of them.
pub mod Service
pub mod Response
pub mod Paging
pub mod Handlers
pub mod RateLimit
