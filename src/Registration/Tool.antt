-- ===== src/Registration/Tool.antt =====
-- The arguments of `mcp.AddTool`: the types of the MCP SDK as the packages under pkg use them.
use dapr_mcp.Base.{String, Bool, Option}

-- `mcp.ToolAnnotations`; a pointer that is not set is `none`.
pub record Annotations : Type 0 where
  pub read_only_hint : Bool
  pub destructive_hint : Option Bool
  pub idempotent_hint : Bool
  pub open_world_hint : Option Bool

-- `mcp.Tool` with its handler, which takes the arguments and acts on the world.
pub record Tool (W : Type 0) : Type 1 where
  pub name : String
  pub title : String
  pub description : String
  pub annotations : Annotations
  pub Args : Type 0
  pub Reply : Type 0
  pub handler : Args → W → Reply × W
