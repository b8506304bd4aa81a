-- ===== src/State/Transactions.antt =====
-- A transaction against the same saves and deletes made one by one.
use dapr_mcp.Base.{String, false, List, [], ◌∷◌, map, ◌≡◌, refl, ap, ◌∙◌, arith, if◌then◌else◌}
use dapr_mcp.Mcp.{ToolResult, Inject}
use dapr_mcp.State.{
  StateClient, TransactionItem, ExecuteTransactionArgs, state_operation, save_state_tool,
  delete_state_tool, execute_transaction_tool,
}
use dapr_mcp.State.Store.{
  View, apply_operation, apply_operations, IsStore, save_state-put, delete_state-put,
}

module _ {W : Type 0} (client : StateClient W) where
  -- One item of a transaction, by the tool for it alone.
  abbrev pub single_tool : String → TransactionItem → W → ToolResult × W
  single_tool store i w =
      if i.is_delete
      then delete_state_tool client (record { store_name = store; key = i.key }) w
      else save_state_tool client (record { store_name = store; key = i.key; value = i.value }) w

  -- The items one after the other: the world after the last, and whether all succeeded.
  abbrev pub one_by_one : String → List TransactionItem → W → W
  one_by_one store [] w = w
  one_by_one store (i ∷ is) w = one_by_one store is (single_tool store i w).1

  abbrev pub AllSucceed : String → List TransactionItem → W → Type 0
  AllSucceed store [] w = Unit
  AllSucceed store (i ∷ is) w =
      ((single_tool store i w).0.is_error ≡ false) × AllSucceed store is (single_tool store i w).1

module _ {W : Type 0} (client : StateClient W) (view : W → View) (laws : IsStore client view) where
  single-apply_operation :
      (store : String) (i : TransactionItem) (w : W)
      → (single_tool client store i w).0.is_error ≡ false
      → view (single_tool client store i w).1 ≡ apply_operation store (state_operation i) (view w)
  single-apply_operation store i w h = ground (
    arith,
    delete_state-put client view laws (record { store_name = store; key = i.key }) w,
    save_state-put client view laws (record { store_name = store; key = i.key; value = i.value }) w,
  )

  one_by_one-apply_operations :
      (store : String) (items : List TransactionItem) (w : W)
      → AllSucceed client store items w
      → view (one_by_one client store items w)
        ≡ apply_operations store (map state_operation items) (view w)
  one_by_one-apply_operations store [] w h = refl
  one_by_one-apply_operations store (i ∷ is) w h =
      one_by_one-apply_operations store is (single_tool client store i w).1 h.1
      ∙ ap (λ v. apply_operations store (map state_operation is) v)
          (single-apply_operation store i w h.0)

  -- A transaction that succeeds leaves every key of every store with the value that the same saves
  -- and deletes leave when the single tools make them in the order of the items and all succeed. A
  -- transaction that reports an error leaves all values as they were.
  pub execute_transaction-one_by_one :
      (inject : Inject) (args : ExecuteTransactionArgs) (w : W)
      → AllSucceed client args.store_name args.items w
      → view (execute_transaction_tool client inject args w).1 ≡ (
          if (execute_transaction_tool client inject args w).0.is_error
          then view w
          else view (one_by_one client args.store_name args.items w))
  unfolding execute_transaction_tool
  execute_transaction-one_by_one inject args w h = ground (
    arith,
    one_by_one-apply_operations args.store_name args.items w h,
    laws.commit args.store_name (inject []) (map state_operation args.items) w,
    laws.roll_back args.store_name (inject []) (map state_operation args.items) w,
  )
