-- ===== src/Database.antt =====
-- leaderboard/database: the interfaces Database and Expiration, their errors, and the
-- implementation over a redis client.
pub mod Errors
pub mod Defs
pub mod Order
pub mod Ranks
pub mod Scores
pub mod Expiring
pub mod Redis
pub mod Open
pub mod Served
