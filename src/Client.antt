-- ===== src/Client.antt =====
-- client/client.go: the HTTP client of the API, with net/http as a parameter.
pub mod Defs
pub mod Urls
pub mod Answers
pub mod Calls
pub mod Setup
pub mod Ids
pub mod Places
pub mod Sent
pub mod Asked
