-- ===== src/Pubsub/Flags.antt =====
-- How the two publishing tools report a failure.
use dapr_mcp.Base.{Bool, true, false, Option, none, some, [], ◌∷◌, ◌≡◌, arith}
use dapr_mcp.Mcp.{ToolResult, Inject, Act}
use dapr_mcp.Mcp.Calls.{is_err}
use dapr_mcp.Pubsub.{PubSubClient, PublishArgs, json_type, with_metadata, publish_event_tool}

abbrev pub is_none {ℓ} : {A : Type ℓ} → Option A → Bool
is_none none = true
is_none (some a) = false

-- The run makes the call `m`, never reports an error, and has no structured result exactly when the
-- call failed.
abbrev pub MakesSilently : {W A : Type 0} → Act W A → W → ToolResult × W → Type 0
MakesSilently m w r =
    (r.1 ≡ (m w).1) × (r.0.is_error ≡ false) × (is_none r.0.structured ≡ is_err (m w).0)

module _ {W : Type 0} (client : PubSubClient W) where
  -- `publish_event` publishes once, as JSON and with the trace context for metadata. Its result is
  -- never marked as an error: a publication that failed can be told from one that succeeded only by
  -- the missing structured result and the text.
  pub publish_event_tool-MakesSilently :
      (inject : Inject) (args : PublishArgs) (w : W)
      → MakesSilently
          (client.publish_event args.pubsub_name args.topic args.message
            (json_type ∷ with_metadata (inject []) ∷ []))
          w
          (publish_event_tool client inject args w)
  unfolding publish_event_tool
  publish_event_tool-MakesSilently inject args w = ground arith
