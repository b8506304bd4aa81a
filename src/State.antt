-- ===== src/State.antt =====
-- pkg/state/tool.go: the tools on the state stores of the sidecar. A text stands for the bytes that
-- it is converted to and from.
pub mod Store
pub mod Transactions
use dapr_mcp.Base.{
  String, Bool, true, false, Option, none, some, List, [], ◌∷◌, ◌++◌, map, length, if◌then◌else◌,
  Dict, ℤ, pos, show, decimal, format, ◌==◌,
}
use dapr_mcp.Mcp.{
  ToolResult, Structured, null_object, array, tool_success, Scalar, text, text_value, number_value,
  Act, Inject, pure, call, ◌>>=◌, ◌>>◌, answer,
}

-- `dapr.StateItem` and `dapr.BulkStateItem`, as far as the tools read them.
pub record StateItem : Type 0 where
  pub value : String

pub record BulkStateItem : Type 0 where
  pub key : String
  pub value : String
  pub etag : String
  pub error : String

-- `dapr.StateOperation` with its item; a delete has no value.
pub data OperationType : Type 0 where
  upsert : OperationType
  delete : OperationType

pub record SetStateItem : Type 0 where
  pub key : String
  pub value : Option String

pub record StateOperation : Type 0 where
  pub type : OperationType
  pub item : SetStateItem

-- The state client; all metadata but that of a transaction is nil.
pub record StateClient (W : Type 0) : Type 0 where
  pub save_state : String → String → String → Act W (Unit {0})
  pub get_state : String → String → Act W StateItem
  pub get_bulk_state : String → List String → ℤ → Act W (List BulkStateItem)
  pub delete_state : String → String → Act W (Unit {0})
  pub execute_state_transaction : String → Dict String → List StateOperation → Act W (Unit {0})

pub record SaveStateArgs : Type 0 where
  pub store_name : String
  pub key : String
  pub value : String

pub record GetStateArgs : Type 0 where
  pub store_name : String
  pub key : String

pub record GetBulkStateArgs : Type 0 where
  pub store_name : String
  pub keys : List String
  pub parallelism : ℤ

pub record DeleteStateArgs : Type 0 where
  pub store_name : String
  pub key : String

pub record TransactionItem : Type 0 where
  pub key : String
  pub value : String
  pub is_delete : Bool

pub record ExecuteTransactionArgs : Type 0 where
  pub store_name : String
  pub items : List TransactionItem

-- The result of `getStateTool`: an empty value is reported as a missing key.
unfoldable pub state_result : GetStateArgs → StateItem → ToolResult
state_result args item =
    if item.value == ""
    then record {
      text =
          format
            ("Key '" ∷ args.key ∷ "' not found in state store '" ∷ args.store_name ∷ "'." ∷ []);
      is_error = false;
      structured = some null_object;
    }
    else tool_success
        (format (
          "Retrieved key '" ∷ args.key ∷ "' from '" ∷ args.store_name ∷ "'. Value:\n" ∷ item.value
          ∷ []))
        (("key", text_value args.key) ∷ ("value", text_value item.value) ∷ [])

abbrev pub bulk_entry : BulkStateItem → Dict Scalar
bulk_entry item =
    ("key", text item.key) ∷ ("value", text item.value) ∷ ("etag", text item.etag) ∷ []
    ++ (if item.error == "" then [] else ("error", text item.error) ∷ [])

-- The operation of one item of a transaction.
abbrev pub state_operation : TransactionItem → StateOperation
state_operation i =
    if i.is_delete
    then record { type = delete; item = record { key = i.key; value = none } }
    else record { type = upsert; item = record { key = i.key; value = some i.value } }

module _ {W : Type 0} (client : StateClient W) where
  unfoldable pub save_state_tool : SaveStateArgs → W → ToolResult × W
  save_state_tool args w = answer (
      (do
        call (client.save_state args.store_name args.key args.value) λ e.
            format
              ("failed to save state to store '" ∷ args.store_name ∷ "'. Final error: " ∷ e ∷ [])
        pure (
            tool_success
              (format (
                "Successfully saved key '" ∷ args.key ∷ "' to state store '" ∷ args.store_name
                ∷ "'." ∷ []))
              (("key_saved", text_value args.key)
                ∷ ("store_name", text_value args.store_name)
                ∷ [])))
        w)

  unfoldable pub get_state_tool : GetStateArgs → W → ToolResult × W
  unfolding state_result
  get_state_tool args w = answer (
      (do
        item ←
            call (client.get_state args.store_name args.key)
              λ e. format ("dapr GetState failed: " ∷ e ∷ [])
        pure (state_result args item))
        w)

  unfoldable pub get_bulk_state_tool : GetBulkStateArgs → W → ToolResult × W
  get_bulk_state_tool args w = answer (
      (do
        items ←
            call (client.get_bulk_state args.store_name args.keys args.parallelism)
              λ e. format ("dapr GetBulkState failed: " ∷ e ∷ [])
        pure (record {
          text = format (
              "Retrieved "
              ∷ decimal (length items)
              ∷ " key(s) from state store '"
              ∷ args.store_name
              ∷ "'."
              ∷ []);
          is_error = false;
          structured = some (array (map bulk_entry items));
        }))
        w)

  unfoldable pub delete_state_tool : DeleteStateArgs → W → ToolResult × W
  delete_state_tool args w = answer (
      (do
        call (client.delete_state args.store_name args.key)
            λ e. format ("dapr DeleteState failed: " ∷ e ∷ [])
        pure (
            tool_success
              (format (
                "Successfully deleted key '" ∷ args.key ∷ "' from state store '" ∷ args.store_name
                ∷ "'." ∷ []))
              (("key_deleted", text_value args.key)
                ∷ ("store_name", text_value args.store_name)
                ∷ [])))
        w)

  unfoldable pub execute_transaction_tool : Inject → ExecuteTransactionArgs → W → ToolResult × W
  execute_transaction_tool inject args w = answer (
      (do
        call
            (client.execute_state_transaction args.store_name (inject [])
              (map state_operation args.items))
            λ e. format ("dapr ExecuteStateTransaction failed: " ∷ e ∷ [])
        pure (
            tool_success
              (format (
                "Successfully executed "
                ∷ decimal (length args.items)
                ∷ " state operations in a transaction on store '"
                ∷ args.store_name
                ∷ "'."
                ∷ []))
              (("operations_executed", number_value (pos (length args.items)))
                ∷ ("store_name", text_value args.store_name)
                ∷ [])))
        w)
