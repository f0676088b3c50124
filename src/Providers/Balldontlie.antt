-- ===== src/Providers/Balldontlie.antt =====
-- internal/providers/balldontlie: the client of the upstream API.
pub mod Mapping
pub mod Headers
pub mod Dedupe
pub mod Client
mod Tests
