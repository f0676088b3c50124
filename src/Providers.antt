-- ===== src/Providers.antt =====
-- internal/providers: what wraps a provider of games, and the providers.
pub mod Provider
pub mod Retry
pub mod Fixture
pub mod Limited
pub mod Balldontlie
mod Tests
