-- ===== src/Registration/Conversation.antt =====
-- pkg/conversation/tools.go: the tools that `RegisterTools` registers.
use dapr_mcp.Base.{String, true, false, List, [], ◌∷◌, some, format}
use dapr_mcp.Registration.Tool.{Tool}
use dapr_mcp.Mcp.{ToolResult, Act}
use dapr_mcp.Conversation.{ConversationClient, ConverseArgs, Temperatures, Printing, converse_tool}

module _ {F W : Type 0} (client : ConversationClient F W) (temperatures : Temperatures F)
    (json : Printing) (new_random : Act W String) where
  unfoldable pub converse_with_llm_entry : Tool W
  converse_with_llm_entry = record {
    name = "converse_with_llm";
    title = "Delegate Task to External Reasoning Engine";
    description = format (
        "Delegates a single, immediate reasoning or text generation task to a secondary LLM component. The server handles complex message history formatting internally, accepting only the user's direct prompt, the component name, and an optional context ID for session continuity.\n\n"
        ∷ "**GUIDANCE:**\n" ∷ "1. Use `get_components` to find the `name` of the LLM component.\n"
        ∷ "2. For `Temperature`, use a value between 0.0 (deterministic) and 1.0 (creative). Default is 0.7.\n\n"
        ∷ "**ARGUMENT RULES:**\n"
        ∷ "1. **REQUIRED INPUTS**: You MUST provide the Dapr component `name` and the user's `prompt`.\n"
        ∷ "2. **NEVER INVENT**: You must NOT invent the component `name`; it must be provided by the user or discovered via the `get_components` tool.\n"
        ∷ "3. **CONTEXT**: If provided, the `contextId` is used to maintain history. If omitted, a new session is started."
        ∷ []);
    annotations = record {
      read_only_hint = true;
      destructive_hint = some false;
      idempotent_hint = true;
      open_world_hint = some true;
    };
    Args = ConverseArgs F;
    Reply = ToolResult;
    handler = converse_tool temperatures json new_random client;
  }

  unfoldable pub conversation_tools : List (Tool W)
  unfolding converse_with_llm_entry
  conversation_tools = converse_with_llm_entry ∷ []
