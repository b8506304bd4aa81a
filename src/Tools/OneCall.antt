-- ===== src/Tools/OneCall.antt =====
-- The one call that each tool of a building block makes of its client.
use dapr_mcp.Base.{String, [], ◌∷◌, map, Dict, arith}
use dapr_mcp.Mcp.{Inject, with_context, ◌>>=◌}
use dapr_mcp.Mcp.Calls.{Makes}
use dapr_mcp.State.{
  StateClient, SaveStateArgs, GetStateArgs, GetBulkStateArgs, DeleteStateArgs,
  ExecuteTransactionArgs, state_result, state_operation, save_state_tool, get_state_tool,
  get_bulk_state_tool, delete_state_tool, execute_transaction_tool,
}
use dapr_mcp.Lock.{
  LockClient, AcquireLockArgs, ReleaseLockArgs, acquire_lock_tool, release_lock_tool,
}
use dapr_mcp.Pubsub.{
  PubSubClient, PublishWithMetadataArgs, metadata_options, publish_event_with_metadata_tool,
}
use dapr_mcp.Pubsub.{PublishArgs, json_type, with_metadata, publish_event_tool}
use dapr_mcp.Pubsub.Flags.{MakesSilently, publish_event_tool-MakesSilently}
use dapr_mcp.Bindings.{
  BindingsClient, InvokeBindingArgs, binding_request, invoke_output_binding_tool,
}
use dapr_mcp.Bindings.Outcome.{Ends, invoke_output_binding_tool-Ends}
use dapr_mcp.Secrets.{
  SecretsClient, GetSecretArgs, GetBulkSecretArgs, get_secret_tool, get_bulk_secret_tool,
}
use dapr_mcp.Crypto.{
  CryptoClient, EncryptArgs, DecryptArgs, encrypt_options, decrypt_options, encrypt_tool,
  decrypt_tool,
}
use dapr_mcp.Invoke.{InvokeClient, Json, InvokeServiceArgs, verb_of, invoke_service_tool}
use dapr_mcp.Actors.{ActorClient, InvokeActorMethodArgs, actor_request, invoke_actor_method_tool}

-- The clients that `main` hands to the packages, and the functions outside the repository.
pub record Clients (W : Type 0) : Type 0 where
  pub state : StateClient W
  pub lock : LockClient W
  pub pubsub : PubSubClient W
  pub bindings : BindingsClient W
  pub secrets : SecretsClient W
  pub crypto : CryptoClient W
  pub invoke : InvokeClient W
  pub actors : ActorClient W
  pub inject : Inject
  pub json : Json
  pub print_secret : Dict String → String
  pub print_secrets : Dict (Dict String) → String

-- The call of each tool, with the arguments that it passes on.
module _ {W : Type 0} (c : Clients W) where
  pub record MakesOneCall : Type 0 where
    pub save_state :
        (args : SaveStateArgs) (w : W)
        → Makes
            (c.state.save_state args.store_name args.key args.value)
            w
            (save_state_tool c.state args w)
    pub get_state :
        (args : GetStateArgs) (w : W)
        → Makes (c.state.get_state args.store_name args.key) w (get_state_tool c.state args w)
    pub get_bulk_state :
        (args : GetBulkStateArgs) (w : W)
        → Makes
            (c.state.get_bulk_state args.store_name args.keys args.parallelism)
            w
            (get_bulk_state_tool c.state args w)
    pub delete_state :
        (args : DeleteStateArgs) (w : W)
        → Makes (c.state.delete_state args.store_name args.key) w (delete_state_tool c.state args w)
    pub execute_transaction :
        (args : ExecuteTransactionArgs) (w : W)
        → Makes
            (c.state.execute_state_transaction args.store_name
              (c.inject [])
              (map state_operation args.items))
            w
            (execute_transaction_tool c.state c.inject args w)
    pub acquire_lock :
        (args : AcquireLockArgs) (w : W)
        → Makes
            (c.lock.try_lock_alpha1 args.store_name (record {
              lock_owner = args.lock_owner;
              resource_id = args.resource_id;
              expiry_in_seconds = args.expiry_in_seconds;
            }))
            w
            (acquire_lock_tool c.lock args w)
    pub release_lock :
        (args : ReleaseLockArgs) (w : W)
        → Makes
            (c.lock.unlock_alpha1 args.store_name
              (record { lock_owner = args.lock_owner; resource_id = args.resource_id }))
            w
            (release_lock_tool c.lock args w)
    pub publish_event_with_metadata :
        (args : PublishWithMetadataArgs) (w : W)
        → Makes
            (c.pubsub.publish_event args.pubsub_name args.topic args.message
              (metadata_options args.metadata))
            w
            (publish_event_with_metadata_tool c.pubsub args w)
    pub publish_event :
        (args : PublishArgs) (w : W)
        → MakesSilently
            (c.pubsub.publish_event args.pubsub_name args.topic args.message
              (json_type ∷ with_metadata (c.inject []) ∷ []))
            w
            (publish_event_tool c.pubsub c.inject args w)
    pub invoke_output_binding :
        (args : InvokeBindingArgs) (w : W)
        → Ends args
            (c.bindings.invoke_binding (binding_request c.inject args) w)
            (invoke_output_binding_tool c.bindings c.inject c.json args w)
    pub get_secret :
        (args : GetSecretArgs) (w : W)
        → Makes
            (c.secrets.get_secret args.store_name args.secret_name
              (with_context c.inject args.metadata))
            w
            (get_secret_tool c.secrets c.inject c.print_secret args w)
    pub get_bulk_secret :
        (args : GetBulkSecretArgs) (w : W)
        → Makes
            (c.secrets.get_bulk_secret args.store_name (with_context c.inject args.metadata))
            w
            (get_bulk_secret_tool c.secrets c.inject c.print_secrets args w)
    pub encrypt :
        (args : EncryptArgs) (w : W)
        → Makes
            (c.crypto.encrypt args.plain_text (encrypt_options args) >>= λ stream. stream)
            w
            (encrypt_tool c.crypto args w)
    pub decrypt :
        (args : DecryptArgs) (w : W)
        → Makes
            (c.crypto.decrypt args.cipher_text (decrypt_options args) >>= λ stream. stream)
            w
            (decrypt_tool c.crypto args w)
    pub invoke_service :
        (args : InvokeServiceArgs) (w : W)
        → Makes
            (c.invoke.invoke_method_with_content args.app_id args.method
              (verb_of args)
              (record { content_type = "application/json"; payload = args.payload }))
            w
            (invoke_service_tool c.invoke c.json args w)
    pub invoke_actor_method :
        (args : InvokeActorMethodArgs) (w : W)
        → Makes
            (c.actors.invoke_actor (actor_request args))
            w
            (invoke_actor_method_tool c.actors args w)

  get_state_once :
      (args : GetStateArgs) (w : W)
      → Makes (c.state.get_state args.store_name args.key) w (get_state_tool c.state args w)
  unfolding get_state_tool state_result
  get_state_once args w = ground arith

  pub MakesOneCall-of_Clients : MakesOneCall
  unfolding save_state_tool get_state_tool get_bulk_state_tool delete_state_tool
      execute_transaction_tool acquire_lock_tool release_lock_tool publish_event_with_metadata_tool
      get_secret_tool get_bulk_secret_tool encrypt_tool decrypt_tool invoke_service_tool
      invoke_actor_method_tool
  MakesOneCall-of_Clients = record {
    save_state = λ args w. ground arith;
    get_state = get_state_once;
    get_bulk_state = λ args w. ground arith;
    delete_state = λ args w. ground arith;
    execute_transaction = λ args w. ground arith;
    acquire_lock = λ args w. ground arith;
    release_lock = λ args w. ground arith;
    publish_event_with_metadata = λ args w. ground arith;
    publish_event = publish_event_tool-MakesSilently c.pubsub c.inject;
    invoke_output_binding = invoke_output_binding_tool-Ends c.bindings c.inject c.json;
    get_secret = λ args w. ground arith;
    get_bulk_secret = λ args w. ground arith;
    encrypt = λ args w. ground arith;
    decrypt = λ args w. ground arith;
    invoke_service = λ args w. ground arith;
    invoke_actor_method = λ args w. ground arith;
  }
