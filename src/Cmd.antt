-- ===== src/Cmd.antt =====
-- The commands: cmd/smoke.go, cmd/start.go and cmd/worker.go.
pub mod Smoke
pub mod Passes
pub mod Start
pub mod Served
