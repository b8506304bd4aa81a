-- ===== src/Registration/Actors.antt =====
-- pkg/actors/tools.go: the tools that `RegisterTools` registers.
use dapr_mcp.Base.{true, false, List, [], ◌∷◌, some, format}
use dapr_mcp.Registration.Tool.{Tool}
use dapr_mcp.Mcp.{ToolResult}
use dapr_mcp.Actors.{ActorClient, InvokeActorMethodArgs, invoke_actor_method_tool}

module _ {W : Type 0} (client : ActorClient W) where
  unfoldable pub invoke_actor_method_entry : Tool W
  invoke_actor_method_entry = record {
    name = "invoke_actor_method";
    title = "Execute Stateful Actor Method";
    description = format (
        "Executes a method on a Dapr Virtual Actor instance, providing durability and concurrency control. **This is a SIDE-EFFECT action that alters state (e.g., creating an order, updating a payment status).** Use this tool exclusively for requests that require stateful, single-threaded execution.\n\n"
        ∷ "**GUIDANCE:**\n" ∷ "1. Use `get_components` to find the `ActorType` of the actor.\n"
        ∷ "2. Ensure `ActorID` and `Method` are explicitly provided by the user.\n\n"
        ∷ "**ARGUMENT RULES:**\n"
        ∷ "1. **REQUIRED INPUTS**: You MUST provide non-empty values for `ActorType`, `ActorID`, `Method`, and `Data`.\n"
        ∷ "2. **NEVER INVENT**: You must NOT invent the `ActorType`, `ActorID`, or `Method` names; they must be provided by the user or discovered via another tool.\n"
        ∷ "3. **CLARIFICATION**: If any required input is missing, you MUST ask the user for clarification before generating the tool call.\n\n"
        ∷ "**DATA FORMAT**: The `Data` payload MUST be a single string (often JSON) representing the input parameters for the actor method."
        ∷ []);
    annotations = record {
      read_only_hint = false;
      destructive_hint = some true;
      idempotent_hint = false;
      open_world_hint = some true;
    };
    Args = InvokeActorMethodArgs;
    Reply = ToolResult;
    handler = invoke_actor_method_tool client;
  }

  unfoldable pub actors_tools : List (Tool W)
  unfolding invoke_actor_method_entry
  actors_tools = invoke_actor_method_entry ∷ []
