-- ===== src/Actors.antt =====
-- pkg/actors/tools.go: the tool that invokes a method of an actor.
use dapr_mcp.Base.{String, [], ◌∷◌, format}
use dapr_mcp.Mcp.{ToolResult, tool_success, text_value, Act, pure, call, ◌>>=◌, answer}

-- `dapr.InvokeActorRequest`; of the response, the data.
pub record InvokeActorRequest : Type 0 where
  pub actor_type : String
  pub actor_id : String
  pub method : String
  pub payload : String

pub record ActorClient (W : Type 0) : Type 0 where
  pub invoke_actor : InvokeActorRequest → Act W String

pub record InvokeActorMethodArgs : Type 0 where
  pub actor_type : String
  pub actor_id : String
  pub method : String
  pub payload : String

abbrev pub actor_request : InvokeActorMethodArgs → InvokeActorRequest
actor_request args = record {
  actor_type = args.actor_type;
  actor_id = args.actor_id;
  method = args.method;
  payload = args.payload;
}

module _ {W : Type 0} (client : ActorClient W) where
  unfoldable pub invoke_actor_method_tool : InvokeActorMethodArgs → W → ToolResult × W
  invoke_actor_method_tool args w = answer (
      (do
        payload ←
            call (client.invoke_actor (actor_request args))
              λ e. format ("dapr InvokeActor failed: " ∷ e ∷ [])
        pure (
            tool_success
              (format (
                "Successfully invoked method '" ∷ args.method ∷ "' on actor type '"
                ∷ args.actor_type ∷ "' with ID '" ∷ args.actor_id
                ∷ "'. Actor responded with data/status.\n\nResponse:\n" ∷ payload ∷ []))
              (("actor_type", text_value args.actor_type)
                ∷ ("actor_id", text_value args.actor_id)
                ∷ ("actor_method", text_value args.method)
                ∷ ("actor_response", text_value payload)
                ∷ [])))
        w)
