-- ===== src/Registration/State.antt =====
-- pkg/state/tool.go: the tools that `RegisterTools` registers.
use dapr_mcp.Base.{true, false, List, [], ◌∷◌, none, some, format}
use dapr_mcp.Registration.Tool.{Tool}
use dapr_mcp.Mcp.{ToolResult, Inject}
use dapr_mcp.State.{
  StateClient, SaveStateArgs, GetStateArgs, GetBulkStateArgs, DeleteStateArgs,
  ExecuteTransactionArgs, save_state_tool, get_state_tool, get_bulk_state_tool, delete_state_tool,
  execute_transaction_tool,
}

module _ {W : Type 0} (client : StateClient W) (inject : Inject) where
  unfoldable pub save_state_entry : Tool W
  save_state_entry = record {
    name = "save_state";
    title = "Save Single Key-Value State";
    description = format (
        "Saves a single key-value pair to a Dapr state store. **This is a SIDE-EFFECT action that alters application state and IS IDEMPOTENT.** Use only when the agent needs to persist data or update an entity.\n\n"
        ∷ "**GUIDANCE:**\n"
        ∷ "1. Use `get_components` to find the `StoreName` of the state store.\n"
        ∷ "2. For `Key`, use a meaningful identifier (e.g., `<AppID>:<ResourceURI>:<Index>`).\n\n"
        ∷ "**ARGUMENT RULES:**\n"
        ∷ "1. **REQUIRED INPUTS**: You MUST provide non-empty values for `StoreName`, `Key`, and `Value`.\n"
        ∷ "2. **KEY RULE**: The key SHOULD follow `<AppID>||<ResourceURI>||<Index>` when possible for discoverability.\n"
        ∷ "3. **VALUE RULE**: The `Value` must be a string (plain or JSON-encoded).\n"
        ∷ "4. **CLARIFICATION**: If any required input is missing, you MUST ask the user for clarification."
        ∷ []);
    annotations = record {
      read_only_hint = false;
      destructive_hint = some false;
      idempotent_hint = true;
      open_world_hint = none;
    };
    Args = SaveStateArgs;
    Reply = ToolResult;
    handler = save_state_tool client;
  }

  unfoldable pub get_state_entry : Tool W
  get_state_entry = record {
    name = "get_state";
    title = "Retrieve Single Key State";
    description = format (
        "Retrieves the value for a single key from a Dapr state store. **This is a Data Retrieval operation and IS IDEMPOTENT.** Use to access current application state or previously saved context.\n\n"
        ∷ "**GUIDANCE:**\n"
        ∷ "1. Use `get_components` to find the `StoreName` of the state store.\n"
        ∷ "2. Ensure `Key` is explicitly provided by the user or use the key previously used for save.\n\n"
        ∷ "**ARGUMENT RULES:**\n"
        ∷ "1. **REQUIRED INPUTS**: You MUST provide non-empty values for `StoreName` and `Key`.\n"
        ∷ "2. **NEVER INVENT**: Never invent a `Key`; it must be provided by the user or discovered.\n"
        ∷ "3. **CLARIFICATION**: If any required input is missing, you MUST ask the user for clarification."
        ∷ []);
    annotations = record {
      read_only_hint = true;
      destructive_hint = none;
      idempotent_hint = true;
      open_world_hint = none;
    };
    Args = GetStateArgs;
    Reply = ToolResult;
    handler = get_state_tool client;
  }

  unfoldable pub get_bulk_state_entry : Tool W
  get_bulk_state_entry = record {
    name = "get_bulk_state";
    title = "Retrieve Multiple Keys' State in Bulk";
    description = format (
        "Retrieves the values for multiple keys from a Dapr state store in a single call. **This is a Data Retrieval operation and IS IDEMPOTENT.** Use to efficiently fetch several pieces of application state at once instead of issuing repeated `get_state` calls.\n\n"
        ∷ "**GUIDANCE:**\n"
        ∷ "1. Use `get_components` to find the `StoreName` of the state store.\n"
        ∷ "2. Provide the full list of `Keys` to retrieve; each result includes its `key`, `value`, and `etag`.\n\n"
        ∷ "**ARGUMENT RULES:**\n"
        ∷ "1. **REQUIRED INPUTS**: You MUST provide a non-empty `StoreName` and a non-empty list of `Keys`.\n"
        ∷ "2. **NEVER INVENT**: Never invent a `Key`; each must be provided by the user or discovered.\n"
        ∷ "3. **PARALLELISM**: `Parallelism` is optional; leave it at 0 to let Dapr choose a default.\n"
        ∷ "4. **CLARIFICATION**: If any required input is missing, you MUST ask the user for clarification."
        ∷ []);
    annotations = record {
      read_only_hint = true;
      destructive_hint = none;
      idempotent_hint = true;
      open_world_hint = none;
    };
    Args = GetBulkStateArgs;
    Reply = ToolResult;
    handler = get_bulk_state_tool client;
  }

  unfoldable pub delete_state_entry : Tool W
  delete_state_entry = record {
    name = "delete_state";
    title = "Delete State Key";
    description = format (
        "Deletes a key-value pair from a Dapr state store. **This is a critical, DESTRUCTIVE SIDE-EFFECT action that IS IDEMPOTENT.** Use only when instructed to remove specific, whitelisted application data.\n\n"
        ∷ "**GUIDANCE:**\n"
        ∷ "1. Use `get_components` to find the `StoreName` of the state store.\n"
        ∷ "2. Ensure `Key` is explicitly provided by the user or use the key previously used for save.\n\n"
        ∷ "**ARGUMENT RULES:**\n"
        ∷ "1. **REQUIRED INPUTS**: You MUST provide non-empty values for `StoreName` and `Key`.\n"
        ∷ "2. **SECURITY WARNING**: This operation can cause data loss. Ensure user intent is clear and the key is authorized for deletion."
        ∷ []);
    annotations = record {
      read_only_hint = false;
      destructive_hint = some true;
      idempotent_hint = true;
      open_world_hint = none;
    };
    Args = DeleteStateArgs;
    Reply = ToolResult;
    handler = delete_state_tool client;
  }

  unfoldable pub execute_transaction_entry : Tool W
  execute_transaction_entry = record {
    name = "execute_transaction";
    title = "Execute Atomic State Transaction";
    description = format (
        "Executes multiple save and/or delete operations atomically (all or nothing) on state stores that support transactions. **This is a complex, high-impact DESTRUCTIVE SIDE-EFFECT action that is NOT IDEMPOTENT.** Use only for batch updates or when strict data consistency is required across multiple keys.\n\n"
        ∷ "**GUIDANCE:**\n"
        ∷ "1. Use `get_components` to find the `StoreName` of the state store.\n"
        ∷ "2. Ensure `Items` contains valid save/delete operations.\n\n" ∷ "**ARGUMENT RULES:**\n"
        ∷ "1. **REQUIRED INPUTS**: You MUST provide a non-empty `StoreName` and a non-empty list of `Items`.\n"
        ∷ "2. **SECURITY WARNING**: Due to the complexity and potential for destructive operations within the transaction, ensure all actions are fully understood and authorized."
        ∷ []);
    annotations = record {
      read_only_hint = false;
      destructive_hint = some true;
      idempotent_hint = false;
      open_world_hint = none;
    };
    Args = ExecuteTransactionArgs;
    Reply = ToolResult;
    handler = execute_transaction_tool client inject;
  }

  unfoldable pub state_tools : List (Tool W)
  unfolding save_state_entry get_state_entry get_bulk_state_entry delete_state_entry
      execute_transaction_entry
  state_tools =
      save_state_entry ∷ get_state_entry ∷ get_bulk_state_entry ∷ delete_state_entry
      ∷ execute_transaction_entry ∷ []
