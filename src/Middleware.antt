-- ===== src/Middleware.antt =====
-- pkg/middleware: authentication and the request budget of a tenant.
pub mod Auth
pub mod RateLimit
pub mod RequestId
mod Tests
