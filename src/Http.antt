-- ===== src/Http.antt =====
-- internal/http: the handlers, as functions from a request to a response.
pub mod Messages
pub mod Handlers
pub mod Admin
pub mod Middleware
pub mod Router
pub mod Logged
mod Tests
