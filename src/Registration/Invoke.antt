-- ===== src/Registration/Invoke.antt =====
-- pkg/invoke/tools.go: the tools that `RegisterTools` registers.
use dapr_mcp.Base.{true, false, List, [], ◌∷◌, some, format}
use dapr_mcp.Registration.Tool.{Tool}
use dapr_mcp.Mcp.{ToolResult}
use dapr_mcp.Invoke.{InvokeClient, Json, InvokeServiceArgs, invoke_service_tool}

module _ {W : Type 0} (client : InvokeClient W) (json : Json) where
  unfoldable pub invoke_service_entry : Tool W
  invoke_service_entry = record {
    name = "invoke_service";
    title = "Execute Inter-Service Request";
    description = format (
        "Calls a method (endpoint) on another Dapr-enabled service. **This is a SIDE-EFFECT action that can be DESTRUCTIVE and is NOT IDEMPOTENT for POST/PUT calls.** Use this tool to perform transactional business logic (e.g., updating data, creating resources, triggering workflows).\n\n"
        ∷ "**GUIDANCE:**\n" ∷ "1. Use `get_components` to find the `AppID` of the target service.\n"
        ∷ "2. For `HTTPVerb`, use 'GET' for read-only status checks, 'POST' for creation, and 'DELETE' for removal. Default is 'POST'.\n\n"
        ∷ "**ARGUMENT RULES:**\n"
        ∷ "1. **REQUIRED INPUTS**: You MUST provide non-empty values for `AppID`, `Method`, and `HTTPVerb`.\n"
        ∷ "2. **NEVER INVENT**: You must NOT invent `AppID` or `Method` names; they must be provided by the user or discovered.\n"
        ∷ "3. **CLARIFICATION**: If any required input is missing, you MUST ask the user for clarification.\n\n"
        ∷ "**SECURITY WARNING**: This tool bypasses the standard Resource/Tool abstraction and directly executes service logic. Ensure user intent is clear and the operation is authorized."
        ∷ []);
    annotations = record {
      read_only_hint = false;
      destructive_hint = some true;
      idempotent_hint = false;
      open_world_hint = some true;
    };
    Args = InvokeServiceArgs;
    Reply = ToolResult;
    handler = invoke_service_tool client json;
  }

  unfoldable pub invoke_tools : List (Tool W)
  unfolding invoke_service_entry
  invoke_tools = invoke_service_entry ∷ []
