-- ===== src/Tests.antt =====
-- The leaderboard that the examples run on, and the examples of each part.
pub mod Board
mod Parts
mod Database
mod Service
mod Writes
mod Expiration
mod Worker
mod Api
mod Client
mod Run
mod Middleware
mod Refines
mod Cmd
mod Configured
mod Again
mod Periods
