-- ===== src/Registration/Secrets.antt =====
-- pkg/secrets/tools.go: the tools that `RegisterTools` registers.
use dapr_mcp.Base.{String, true, false, List, [], ◌∷◌, none, some, format, Dict}
use dapr_mcp.Registration.Tool.{Tool}
use dapr_mcp.Mcp.{ToolResult, Inject}
use dapr_mcp.Secrets.{
  SecretsClient, GetSecretArgs, GetBulkSecretArgs, get_secret_tool, get_bulk_secret_tool,
}

module _ {W : Type 0} (client : SecretsClient W) (inject : Inject)
    (print_secret : Dict String → String) (print_secrets : Dict (Dict String) → String) where
  unfoldable pub get_secret_entry : Tool W
  get_secret_entry = record {
    name = "get_secret";
    title = "Retrieve Single Authorized Secret";
    description = format (
        "Retrieves a single, whitelisted secret (e.g., API key, credential) from a configured Dapr secret store. **This is a highly SENSITIVE Data Retrieval operation.** Use ONLY when the user explicitly requests a specific secret.\n\n"
        ∷ "**GUIDANCE:**\n"
        ∷ "1. Use `get_components` to find the `StoreName` of the secret store.\n"
        ∷ "2. Ensure `SecretName` is explicitly provided by the user.\n\n" ∷ "**ARGUMENT RULES:**\n"
        ∷ "1. **REQUIRED INPUTS**: You MUST provide non-empty values for `StoreName` and `SecretName`.\n"
        ∷ "2. **NEVER INVENT**: You must NOT invent `SecretName` or `StoreName` names; they must be provided by the user or discovered.\n"
        ∷ "3. **CLARIFICATION**: If any required input is missing, you MUST ask the user for clarification.\n\n"
        ∷ "**SECURITY WARNING**: This tool provides access to critical credentials. NEVER guess secret names, and NEVER store retrieved secrets without explicit authorization."
        ∷ []);
    annotations = record {
      read_only_hint = true;
      destructive_hint = some false;
      idempotent_hint = true;
      open_world_hint = none;
    };
    Args = GetSecretArgs;
    Reply = ToolResult;
    handler = get_secret_tool client inject print_secret;
  }

  unfoldable pub get_bulk_secrets_entry : Tool W
  get_bulk_secrets_entry = record {
    name = "get_bulk_secrets";
    title = "Retrieve All Secrets (HIGHLY RESTRICTED)";
    description = format (
        "Attempts to retrieve ALL secrets the application has access to from a specific Dapr secret store. **This operation is HIGHLY RESTRICTED and extremely high-risk.**\n\n"
        ∷ "**GUIDANCE:**\n"
        ∷ "1. Use `get_components` to find the `StoreName` of the secret store.\n"
        ∷ "2. Ensure the user explicitly requests bulk retrieval and understands the risks.\n\n"
        ∷ "**ARGUMENT RULES:**\n"
        ∷ "1. **REQUIRED INPUTS**: You MUST provide a non-empty value for `StoreName`.\n"
        ∷ "2. **RISK WARNING**: Avoid this tool unless the user explicitly requests enumeration of all accessible secrets, as it provides a broad view of the system's credentials."
        ∷ []);
    annotations = record {
      read_only_hint = true;
      destructive_hint = some false;
      idempotent_hint = true;
      open_world_hint = none;
    };
    Args = GetBulkSecretArgs;
    Reply = ToolResult;
    handler = get_bulk_secret_tool client inject print_secrets;
  }

  unfoldable pub secrets_tools : List (Tool W)
  unfolding get_secret_entry get_bulk_secrets_entry
  secrets_tools = get_secret_entry ∷ get_bulk_secrets_entry ∷ []
