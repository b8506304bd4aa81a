-- ===== src/State/Store.antt =====
-- What Dapr documents of a state store, as laws of the state client, and what the tools then show of
-- the stored values.
use dapr_mcp.Base.{
  String, false, ◌&&◌, Option, none, some, List, [], ◌∷◌, if◌then◌else◌, Result, ok, err, ap, ◌∙◌,
  Result-cases, inl, inr, ◌==◌, ◌≡◌, refl, arith, Dict, eq_refl,
}
use dapr_mcp.Mcp.{Structured, text_value, object, null_object}
use dapr_mcp.State.{
  StateClient, StateItem, StateOperation, OperationType, upsert, delete, SaveStateArgs,
  GetStateArgs, save_state_tool, get_state_tool, state_result, DeleteStateArgs, delete_state_tool,
}

-- The value of each key of each store.
abbrev pub View : Type 0
View = String → String → Option String

-- Writes or removes one key.
abbrev pub put : String → String → Option String → View → View
put store key value v store' key' =
    if (store' == store) && (key' == key) then value else v store' key'

-- The value that an operation leaves at its key; a delete ignores the value of the item.
abbrev pub value_after : OperationType → Option String → Option String
value_after upsert value = value
value_after delete value = none

-- The effect of one operation of a transaction, and of all in their order.
abbrev pub apply_operation : String → StateOperation → View → View
apply_operation store op v = put store op.item.key (value_after op.type op.item.value) v

abbrev pub apply_operations : String → List StateOperation → View → View
apply_operations store [] v = v
apply_operations store (op ∷ ops) v = apply_operations store ops (apply_operation store op v)

-- The text of a value that may be missing.
abbrev pub stored_text : Option String → String
stored_text none = ""
stored_text (some s) = s

-- A call that succeeds leaves the view `after`.
abbrev pub Leaves : {W A : Type 0} → (W → View) → View → Result String A × W → Type 0
Leaves view after (ok a, w) = view w ≡ after
Leaves view after (err e, w) = Unit

-- A call that fails leaves the view `before`.
abbrev pub Keeps : {W A : Type 0} → (W → View) → View → Result String A × W → Type 0
Keeps view before (ok a, w) = Unit
Keeps view before (err e, w) = view w ≡ before

-- A read changes nothing, and delivers the text of the value if it succeeds.
abbrev pub Reads :
    {W : Type 0} → (W → View) → View → Option String → Result String StateItem × W → Type 0
Reads view before value (ok item, w) = (view w ≡ before) × (item.value ≡ stored_text value)
Reads view before value (err e, w) = view w ≡ before

-- A state client over stores that `view` shows: a key has the value that was last saved, a read of a
-- missing key gives an empty value, and a transaction has the effects of its operations in their
-- order, or none if it fails.
pub record IsStore {W : Type 0} (client : StateClient W) (view : W → View) : Type 0 where
  pub save :
      (store key value : String) (w : W)
      → Leaves view (put store key (some value) (view w)) (client.save_state store key value w)
  pub get :
      (store key : String) (w : W)
      → Reads view (view w) (view w store key) (client.get_state store key w)
  pub remove :
      (store key : String) (w : W)
      → Leaves view (put store key none (view w)) (client.delete_state store key w)
  pub commit :
      (store : String) (meta : Dict String) (ops : List StateOperation) (w : W)
      → Leaves view
          (apply_operations store ops (view w))
          (client.execute_state_transaction store meta ops w)
  pub roll_back :
      (store : String) (meta : Dict String) (ops : List StateOperation) (w : W)
      → Keeps view (view w) (client.execute_state_transaction store meta ops w)

pub put_same : (store key : String) (x : Option String) (v : View) → put store key x v store key ≡ x
put_same store key x v = ground (arith, eq_refl store, eq_refl key)

pub put_other :
    (store key store' key' : String) (x : Option String) (v : View)
    → ((store' == store) && (key' == key)) ≡ false
    → put store key x v store' key' ≡ v store' key'
put_other store key store' key' x v h = rw h refl

-- What `get_state` reports of a value, in its structured result.
abbrev pub shown : GetStateArgs → Option String → Structured
shown args none = null_object
shown args (some s) =
    if s == ""
    then null_object
    else object (("key", text_value args.key) ∷ ("value", text_value s) ∷ [])

module _ {W : Type 0} (client : StateClient W) (view : W → View) (laws : IsStore client view) where
  pub save_state-put :
      (args : SaveStateArgs) (w : W)
      → (save_state_tool client args w).0.is_error ≡ false
      → view (save_state_tool client args w).1
        ≡ put args.store_name args.key (some args.value) (view w)
  unfolding save_state_tool
  save_state-put args w h = ground (arith, laws.save args.store_name args.key args.value w)

  pub delete_state-put :
      (args : DeleteStateArgs) (w : W)
      → (delete_state_tool client args w).0.is_error ≡ false
      → view (delete_state_tool client args w).1 ≡ put args.store_name args.key none (view w)
  unfolding delete_state_tool
  delete_state-put args w h = ground (arith, laws.remove args.store_name args.key w)

  shown_item :
      (args : GetStateArgs) (item : StateItem) (value : Option String)
      → item.value ≡ stored_text value
      → (state_result args item).structured ≡ some (shown args value)
  unfolding state_result
  shown_item args item none h = rw h refl
  shown_item args item (some s) h = rw h (ground arith)

  pub get_state-shown :
      (args : GetStateArgs) (w : W)
      → (get_state_tool client args w).0.is_error ≡ false
      → (get_state_tool client args w).0.structured
        ≡ some (shown args (view w args.store_name args.key))
  unfolding get_state_tool
  get_state-shown args w h = elim (Result-cases (client.get_state args.store_name args.key w).0) [
    | inl (item, e) ↦ rw e (
        shown_item args item (view w args.store_name args.key)
          (ground (arith, laws.get args.store_name args.key w)))
    | inr (message, e) ↦ absurd (ground arith)
  ]

  -- After a save that succeeded, a read that succeeds reports the saved value if it is of the same
  -- key of the same store, and otherwise the value that was there before the save. An empty value
  -- is reported as a missing key is.
  pub get_state-save_state :
      (s : SaveStateArgs) (g : GetStateArgs) (w : W)
      → (save_state_tool client s w).0.is_error ≡ false
      → (get_state_tool client g (save_state_tool client s w).1).0.is_error ≡ false
      → (get_state_tool client g (save_state_tool client s w).1).0.structured
        ≡ some (
            shown g (
              if (g.store_name == s.store_name) && (g.key == s.key)
              then some s.value
              else view w g.store_name g.key))
  get_state-save_state s g w saved read =
      get_state-shown g (save_state_tool client s w).1 read
      ∙ ap (λ v. some (shown g (v g.store_name g.key))) (save_state-put s w saved)
