-- ===== src/Service.antt =====
-- leaderboard/service: the type Service over a database, a clock and the expirations of names.
pub mod Errors
pub mod Defs
pub mod Members
pub mod Pages
pub mod Around
pub mod Reads
pub mod Writes
