-- ===== src/Registration.antt =====
-- The tools that `RegisterTools` of each package hands to the MCP server, in the order of its calls
-- of `mcp.AddTool`: one child for a package.
pub mod Tool
pub mod State
pub mod Lock
pub mod Pubsub
pub mod Secrets
pub mod Crypto
pub mod Invoke
pub mod Bindings
pub mod Actors
pub mod Metadata
pub mod Conversation
pub mod Workflow
