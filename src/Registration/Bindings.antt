-- ===== src/Registration/Bindings.antt =====
-- pkg/bindings/tools.go: the tools that `RegisterTools` registers.
use dapr_mcp.Base.{true, false, List, [], ◌∷◌, Option, some, format}
use dapr_mcp.Registration.Tool.{Tool}
use dapr_mcp.Mcp.{ToolResult, Inject}
use dapr_mcp.Invoke.{Json}
use dapr_mcp.Bindings.{BindingsClient, InvokeBindingArgs, invoke_output_binding_tool}

module _ {W : Type 0} (client : BindingsClient W) (inject : Inject) (json : Json) where
  unfoldable pub invoke_output_binding_entry : Tool W
  invoke_output_binding_entry = record {
    name = "invoke_output_binding";
    title = "Interact with External System via Binding";
    description = format (
        "Invokes an operation on a Dapr output binding component to interact with external systems (e.g., queues, databases, webhooks). **This is a SIDE-EFFECT action that can be DESTRUCTIVE.** Use this tool to perform I/O actions.\n\n"
        ∷ "**GUIDANCE:**\n"
        ∷ "1. Use `get_components` to find the `BindingName` of the output binding.\n"
        ∷ "2. Ensure `Operation` and `Data` are explicitly provided by the user.\n\n"
        ∷ "**ARGUMENT RULES:**\n"
        ∷ "1. **REQUIRED INPUTS**: You MUST provide non-empty values for `BindingName`, `Operation`, and the `Data` payload.\n"
        ∷ "2. **NEVER INVENT**: You must NOT invent `BindingName` or `Operation` names; they must be provided by the user or discovered.\n"
        ∷ "3. **CLARIFICATION**: If any required input is missing, you MUST ask the user for clarification before generating the tool call.\n\n"
        ∷ "**METADATA**: The `Metadata` field MUST be used to pass headers or component-specific settings (e.g., overriding the target URL for an HTTP binding)."
        ∷ []);
    annotations = record {
      read_only_hint = false;
      destructive_hint = some true;
      idempotent_hint = false;
      open_world_hint = some true;
    };
    Args = InvokeBindingArgs;
    Reply = Option ToolResult;
    handler = invoke_output_binding_tool client inject json;
  }

  unfoldable pub bindings_tools : List (Tool W)
  unfolding invoke_output_binding_entry
  bindings_tools = invoke_output_binding_entry ∷ []
