-- ===== src/Server.antt =====
-- cmd/dapr-mcp-server/main.go: the start of the server.
pub mod Connect
pub mod Components
pub mod Authentication
pub mod Start
pub mod Offered
pub mod Instructions
pub mod Packages
pub mod Main
pub mod Http
