-- ===== src/Redis.antt =====
-- leaderboard/database/redis: the client interface, its two implementations over go-redis, and a
-- server in memory on which the assumptions about go-redis can be met.
pub mod Defs
pub mod Errors
pub mod Standalone
pub mod Cluster
pub mod Same
pub mod Sorted
pub mod Answers
pub mod Removes
pub mod Expiry
pub mod Increments
pub mod Server
