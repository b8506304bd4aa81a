-- ===== src/Registration/Pubsub.antt =====
-- pkg/pubsub/tools.go: the tools that `RegisterTools` registers.
use dapr_mcp.Base.{true, false, List, [], ◌∷◌, some, format}
use dapr_mcp.Registration.Tool.{Tool}
use dapr_mcp.Mcp.{ToolResult, Inject}
use dapr_mcp.Pubsub.{
  PubSubClient, PublishArgs, PublishWithMetadataArgs, publish_event_tool,
  publish_event_with_metadata_tool,
}

module _ {W : Type 0} (client : PubSubClient W) (inject : Inject) where
  unfoldable pub publish_event_entry : Tool W
  publish_event_entry = record {
    name = "publish_event";
    title = "Publish Event (Simple)";
    description = format (
        "Publishes a message to a topic using the Dapr Pub/Sub building block. **This is a SIDE-EFFECT action that triggers decoupled, asynchronous workflows.** Publishing is additive (non-destructive) but NOT IDEMPOTENT (sending twice results in two messages).\n\n"
        ∷ "**GUIDANCE:**\n"
        ∷ "1. Use the `get_components` tool to discover available pubsub components and their names before invoking this tool.\n"
        ∷ "2. Ensure the `PubsubName` matches a valid pubsub component name.\n\n"
        ∷ "**ARGUMENT RULES:**\n"
        ∷ "1. **REQUIRED INPUTS**: You MUST provide non-empty values for `PubsubName`, `Topic`, and `Message`.\n"
        ∷ "2. **NEVER INVENT**: You must NOT invent `PubsubName` or `Topic` names.\n"
        ∷ "3. **MESSAGE RULE**: The `Message` MUST be the content the user wishes to publish and should reflect user intent.\n"
        ∷ "4. **CLARIFICATION**: If any required input is missing, you MUST ask the user for clarification."
        ∷ []);
    annotations = record {
      read_only_hint = false;
      destructive_hint = some false;
      idempotent_hint = false;
      open_world_hint = some true;
    };
    Args = PublishArgs;
    Reply = ToolResult;
    handler = publish_event_tool client inject;
  }

  unfoldable pub publish_event_with_metadata_entry : Tool W
  publish_event_with_metadata_entry = record {
    name = "publish_event_with_metadata";
    title = "Publish Event (With Metadata)";
    description = format (
        "Publishes a message to a topic including optional metadata/headers (e.g., routing headers, 'ttlInSeconds'). **This is a SIDE-EFFECT action.** Use this tool when you need granular control over message delivery or routing.\n\n"
        ∷ "**GUIDANCE:**\n"
        ∷ "1. Use the `get_components` tool to discover available pubsub components and their names before invoking this tool.\n"
        ∷ "2. Ensure the `PubsubName` matches a valid pubsub component name.\n\n"
        ∷ "**ARGUMENT RULES:**\n"
        ∷ "1. **REQUIRED INPUTS**: You MUST provide non-empty values for `PubsubName`, `Topic`, and `Message`.\n"
        ∷ "2. **METADATA RULE**: The `Metadata` field MUST be a dictionary/map containing valid key-value pairs for the pubsub component (e.g., message time-to-live).\n"
        ∷ "3. **DEFAULTS**: If `Metadata` is empty, the message will be published without additional headers or routing data."
        ∷ []);
    annotations = record {
      read_only_hint = false;
      destructive_hint = some false;
      idempotent_hint = false;
      open_world_hint = some true;
    };
    Args = PublishWithMetadataArgs;
    Reply = ToolResult;
    handler = publish_event_with_metadata_tool client;
  }

  unfoldable pub pubsub_tools : List (Tool W)
  unfolding publish_event_entry publish_event_with_metadata_entry
  pubsub_tools = publish_event_entry ∷ publish_event_with_metadata_entry ∷ []
