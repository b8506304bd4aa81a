-- ===== src/Workflow.antt =====
-- pkg/workflow: Dapr Workflow management as MCP tools, over one client for each workflow app.
pub mod Client
pub mod Config
pub mod Registry
pub mod Instance
pub mod History
pub mod Listing
