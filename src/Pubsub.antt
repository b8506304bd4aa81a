-- ===== src/Pubsub.antt =====
-- pkg/pubsub/tools.go: the tools that publish a message to a topic.
pub mod Flags
use dapr_mcp.Base.{
  String, true, false, none, List, [], ◌∷◌, ◌++◌, length, if◌then◌else◌, nat_eq, Dict, pos, decimal,
  format, Result, ok, err,
}
use dapr_mcp.Mcp.{
  ToolResult, tool_success, text_value, number_value, Act, Inject, pure, call, ◌>>=◌, ◌>>◌, answer,
}

-- `dapr.PublishEventOption`.
pub data PublishEventOption : Type 0 where
  with_content_type : String → PublishEventOption
  with_metadata : Dict String → PublishEventOption

pub record PubSubClient (W : Type 0) : Type 0 where
  pub publish_event : String → String → String → List PublishEventOption → Act W (Unit {0})

pub record PublishArgs : Type 0 where
  pub pubsub_name : String
  pub topic : String
  pub message : String

pub record PublishWithMetadataArgs : Type 0 where
  pub pubsub_name : String
  pub topic : String
  pub message : String
  pub metadata : Dict String

abbrev pub json_type : PublishEventOption
json_type = with_content_type "application/json"

-- The result of `publishEventTool`; a failure is told by the text only.
abbrev pub published : {W : Type 0} → PublishArgs → Result String (Unit {0}) × W → ToolResult × W
published args (err e, w) = (
  record {
    text = format (
        "Failed to publish event to topic '" ∷ args.topic ∷ "' on pubsub '" ∷ args.pubsub_name
        ∷ "'. Dapr Error: " ∷ e ∷ []);
    is_error = false;
    structured = none;
  },
  w,
)
published args (ok u, w) = (
  tool_success
      (format (
        "Successfully published message to topic '" ∷ args.topic ∷ "' on pubsub component '"
        ∷ args.pubsub_name ∷ "'." ∷ []))
      (("status", text_value "published")
        ∷ ("pubsub_name", text_value args.pubsub_name)
        ∷ ("topic", text_value args.topic)
        ∷ []),
  w,
)

abbrev pub metadata_options : Dict String → List PublishEventOption
metadata_options metadata =
    (if nat_eq (length metadata) 0 then [] else with_metadata metadata ∷ []) ++ json_type ∷ []

module _ {W : Type 0} (client : PubSubClient W) where
  unfoldable pub publish_event_tool : Inject → PublishArgs → W → ToolResult × W
  publish_event_tool inject args w = published args (
      client.publish_event args.pubsub_name args.topic args.message
        (json_type ∷ with_metadata (inject []) ∷ []) w)

  unfoldable pub publish_event_with_metadata_tool : PublishWithMetadataArgs → W → ToolResult × W
  publish_event_with_metadata_tool args w = answer (
      (do
        call
            (client.publish_event args.pubsub_name args.topic args.message
              (metadata_options args.metadata))
            λ e. format (
              "failed to publish event to topic '" ∷ args.topic ∷ "' on pubsub '" ∷ args.pubsub_name
              ∷ "' with metadata. Dapr Error: " ∷ e ∷ [])
        pure (
            tool_success
              (format (
                "Successfully published message with "
                ∷ decimal (length args.metadata)
                ∷ " metadata key(s) to topic '"
                ∷ args.topic
                ∷ "' on pubsub component '"
                ∷ args.pubsub_name
                ∷ "'."
                ∷ []))
              (("status", text_value "published_with_metadata")
                ∷ ("pubsub_name", text_value args.pubsub_name)
                ∷ ("topic", text_value args.topic)
                ∷ ("metadata_keys", number_value (pos (length args.metadata)))
                ∷ [])))
        w)
