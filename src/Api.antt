-- ===== src/Api.antt =====
-- api/leaderboard.go: the handlers of the API over a service.
pub mod Defs
pub mod Middleware
pub mod Endpoints
pub mod Ready
pub mod Start
pub mod Configure
pub mod Configured
pub mod Again
pub mod Upsert
pub mod Remove
pub mod Single
pub mod Many
pub mod NotFound
pub mod Expired
pub mod Found
