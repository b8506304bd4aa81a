-- ===== src/Registration/Lock.antt =====
-- pkg/lock/tools.go: the tools that `RegisterTools` registers.
use dapr_mcp.Base.{true, false, List, [], ◌∷◌, some, format}
use dapr_mcp.Registration.Tool.{Tool}
use dapr_mcp.Mcp.{ToolResult}
use dapr_mcp.Lock.{
  LockClient, AcquireLockArgs, ReleaseLockArgs, acquire_lock_tool, release_lock_tool,
}

module _ {W : Type 0} (client : LockClient W) where
  unfoldable pub acquire_lock_entry : Tool W
  acquire_lock_entry = record {
    name = "acquire_lock";
    title = "Acquire Resource Coordination Lock";
    description = format (
        "Tries to acquire a distributed lock on a named resource for exclusive access. **This is a SIDE-EFFECT action that IS IDEMPOTENT.** Use only when the agent must ensure no other entity is concurrently modifying a shared resource (e.g., before writing to a database).\n\n"
        ∷ "**GUIDANCE:**\n" ∷ "1. Use `get_components` to find the `Lock Store Name`.\n"
        ∷ "2. For `Resource ID`, use a unique identifier for the resource (e.g., 'client-file-lock').\n"
        ∷ "3. For `Lock Owner`, use a unique identifier for the entity (e.g., 'ai-agent-42').\n"
        ∷ "4. For `Expiry Time`, don't set expiry if unsure.\n\n" ∷ "**ARGUMENT RULES:**\n"
        ∷ "1. **REQUIRED INPUTS**: You MUST provide non-empty values for `storeName`, `resourceID`, `lockOwner`, and `expiryInSeconds`.\n"
        ∷ "2. **NEVER INVENT**: You must NOT invent lock owners or resource IDs.\n"
        ∷ "3. **CLARIFICATION**: If any required input is missing, you MUST ask the user for clarification.\n\n"
        ∷ "**SECURITY WARNING**: Misuse can cause system-wide deadlocks or race conditions. Ensure the lock is released promptly."
        ∷ []);
    annotations = record {
      read_only_hint = false;
      destructive_hint = some false;
      idempotent_hint = true;
      open_world_hint = some true;
    };
    Args = AcquireLockArgs;
    Reply = ToolResult;
    handler = acquire_lock_tool client;
  }

  unfoldable pub release_lock_entry : Tool W
  release_lock_entry = record {
    name = "release_lock";
    title = "Release Resource Coordination Lock";
    description = format (
        "Releases a previously acquired distributed lock on a resource. **This is a SIDE-EFFECT action that is NOT IDEMPOTENT.** It MUST be called immediately after the critical section of code is complete to prevent deadlocks.\n\n"
        ∷ "**GUIDANCE:**\n" ∷ "1. Use `get_components` to find the `Lock Store Name`.\n"
        ∷ "2. Ensure the `Resource ID` and `Lock Owner` match the values used during acquisition.\n\n"
        ∷ "**ARGUMENT RULES:**\n"
        ∷ "1. **REQUIRED INPUTS**: You MUST provide `storeName`, `resourceID`, and the correct `lockOwner`.\n"
        ∷ "2. **OWNERSHIP**: Only the entity that acquired the lock can release it.\n"
        ∷ "3. **CLARIFICATION**: If any required input is missing, you MUST ask the user for clarification.\n\n"
        ∷ "**WORKFLOW RULE**: This tool must be used as the final step in a critical concurrency workflow."
        ∷ []);
    annotations = record {
      read_only_hint = false;
      destructive_hint = some false;
      idempotent_hint = false;
      open_world_hint = some true;
    };
    Args = ReleaseLockArgs;
    Reply = ToolResult;
    handler = release_lock_tool client;
  }

  unfoldable pub lock_tools : List (Tool W)
  unfolding acquire_lock_entry release_lock_entry
  lock_tools = acquire_lock_entry ∷ release_lock_entry ∷ []
