-- ===== src/Lock.antt =====
-- pkg/lock/tools.go: the tools that acquire and release a distributed lock.
pub mod Reports
pub mod Exclusion
use dapr_mcp.Base.{String, Bool, true, false, [], ◌∷◌, if◌then◌else◌, ℤ, show, format, ◌==◌}
use dapr_mcp.Mcp.{ToolResult, tool_success, text_value, flag_value, Act, pure, call, ◌>>=◌, answer}

-- `dapr.LockRequest` and `dapr.UnlockRequest`.
pub record LockRequest : Type 0 where
  pub lock_owner : String
  pub resource_id : String
  pub expiry_in_seconds : ℤ

pub record UnlockRequest : Type 0 where
  pub lock_owner : String
  pub resource_id : String

-- The responses are a flag, `Success`, and a text, `Status`. The deadline of five seconds for
-- `TryLockAlpha1` is the client's.
pub record LockClient (W : Type 0) : Type 0 where
  pub try_lock_alpha1 : String → LockRequest → Act W Bool
  pub unlock_alpha1 : String → UnlockRequest → Act W String

pub record AcquireLockArgs : Type 0 where
  pub store_name : String
  pub resource_id : String
  pub lock_owner : String
  pub expiry_in_seconds : ℤ

pub record ReleaseLockArgs : Type 0 where
  pub store_name : String
  pub resource_id : String
  pub lock_owner : String

abbrev acquire_message : AcquireLockArgs → Bool → String
acquire_message args true = format (
    "Successfully **acquired** lock for resource **'"
    ∷ args.resource_id
    ∷ "'** on store '"
    ∷ args.store_name
    ∷ "'. Owner: "
    ∷ args.lock_owner
    ∷ ". Expires in "
    ∷ show args.expiry_in_seconds
    ∷ " seconds."
    ∷ [])
acquire_message args false = format (
    "Failed to acquire lock for resource **'" ∷ args.resource_id ∷ "'** on store '"
    ∷ args.store_name ∷ "'. The lock is currently held by another entity." ∷ [])

-- The `switch` over the status of an unlock.
unfoldable pub status_message : String → String → String
status_message owner status =
    if status == "SUCCESS"
    then "SUCCESS: The lock was successfully released."
    else if status == "LOCK_UNEXIST"
    then "LOCK_UNEXIST: The lock specified by ResourceID does not exist."
    else if status == "LOCK_BELONG_TO_OTHERS"
    then format (
        "LOCK_BELONG_TO_OTHERS: The lock is held by a different owner. Cannot be released by owner '"
        ∷ owner ∷ "'." ∷ [])
    else if status == "INTERNAL_ERROR"
    then "INTERNAL_ERROR: An internal error occurred in the lock component."
    else format ("UNKNOWN_STATUS: " ∷ status ∷ [])

module _ {W : Type 0} (client : LockClient W) where
  unfoldable pub acquire_lock_tool : AcquireLockArgs → W → ToolResult × W
  acquire_lock_tool args w = answer (
      (do
        success ←
            call
              (client.try_lock_alpha1 args.store_name (record {
                lock_owner = args.lock_owner;
                resource_id = args.resource_id;
                expiry_in_seconds = args.expiry_in_seconds;
              }))
              λ e. format ("dapr API error while trying to acquire lock: " ∷ e ∷ [])
        pure (
            tool_success (acquire_message args success) (
              ("lock_acquired", flag_value success)
              ∷ ("resource_id", text_value args.resource_id)
              ∷ ("owner_id", text_value args.lock_owner)
              ∷ [])))
        w)

  unfoldable pub release_lock_tool : ReleaseLockArgs → W → ToolResult × W
  unfolding status_message
  release_lock_tool args w = answer (
      (do
        status ←
            call
              (client.unlock_alpha1 args.store_name
                (record { lock_owner = args.lock_owner; resource_id = args.resource_id }))
              λ e. format ("dapr API error while trying to release lock: " ∷ e ∷ [])
        pure (
            tool_success
              (format (
                "Attempted to release lock on resource '"
                ∷ args.resource_id
                ∷ "' (Owner: "
                ∷ args.lock_owner
                ∷ "). Result: "
                ∷ status_message args.lock_owner status
                ∷ []))
              (("release_status_code", text_value status)
                ∷ ("release_status_text", text_value (status_message args.lock_owner status))
                ∷ ("resource_id", text_value args.resource_id)
                ∷ [])))
        w)
