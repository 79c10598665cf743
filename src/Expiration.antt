-- ===== src/Expiration.antt =====
-- leaderboard/expiration: when a leaderboard expires, read off its name.
pub mod Errors
pub mod Date
pub mod Calendar
pub mod Pattern
pub mod Name
pub mod Future
pub mod Unix
pub mod Periods
pub mod Weeks
