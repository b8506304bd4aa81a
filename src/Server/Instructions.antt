-- ===== src/Server/Instructions.antt =====
-- cmd/dapr-mcp-server/main.go: the instructions that the server gives, and its completion handler.
use dapr_mcp.Base.{String, ℕ, List, [], ◌∷◌, ◌++◌, join, format}

abbrev first_instructions : List String
first_instructions =
    "You are an expert AI assistant for Dapr microservices. Your role is to translate user requests into precise, deterministic, and safe Dapr MCP tool calls.\n\n"
    ∷ "### Global Safety Rules\n"
    ∷ "- **Clarity Before Acting**: If ANY required argument is missing (store name, key, topic, etc.), you **MUST run the get_components tool to enrich the information before proceeding**. If arguments are still missing first try the tool with sensible defaults, if this fails ask the user for clarification.\n"
    ∷ "- **Serialization**: Metadata fields MUST be a dictionary/map (e.g., `{}`) and NEVER a quoted string (e.g., `\"{}\"`).\n"
    ∷ "- **Multi-Step Workflow**: When multiple operations are requested, execute them sequentially — **one tool call at a time**.\n"
    ∷ "- **Forbidden Actions**: NEVER invent component names, keys, topics, or cryptographic parameters.\n"
    ∷ []

-- The line about the workflow apps, if there are any.
abbrev app_instruction : List String → List String
app_instruction [] = []
app_instruction (id ∷ ids) =
    "- **Workflow Apps**: Multiple workflow apps are configured ("
    ∷ join (id ∷ ids) ", "
    ∷ "). Every workflow tool except `list_workflows` REQUIRES `appID`; run `list_workflows` without `appID` to see which app owns which instance.\n"
    ∷ []

abbrev last_instructions : List String
last_instructions =
    "\n" ∷ "### Tool Call Validity\n"
    ∷ "Consult the tool's Description for specific component rules (e.g., key formatting, security warnings).\n"
    ∷ []

-- The instructions, for the app-ids of `Server.Start.instruction_ids`.
unfoldable pub instructions : List String → String
instructions ids = format (first_instructions ++ (app_instruction ids ++ last_instructions))

-- `mcp.CompletionResultDetails` as far as it is set.
pub record Completion : Type 0 where
  pub total : ℕ
  pub values : List String

-- `complete`, for the value of the argument.
abbrev pub complete : String → Completion
complete value = record { total = 1; values = format (value ∷ "x" ∷ []) ∷ [] }
