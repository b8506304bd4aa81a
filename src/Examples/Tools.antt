-- ===== src/Examples/Tools.antt =====
-- The tools of the building blocks at concrete inputs, over clients whose world is the number of calls
-- made, and over stores that are maps.
use dapr_mcp.Base.{
  String, ℕ, suc, true, false, none, some, List, [], ◌∷◌, ok, err, ◌≡◌, ◌≢◌, refl, inl, inr, mem,
  arith, eq_iff, nat_eq,
}
use dapr_mcp.Mcp.{Act, object, text_value}
use dapr_mcp.State.{
  StateClient, SaveStateArgs, GetStateArgs, ExecuteTransactionArgs, save_state_tool, get_state_tool,
  delete_state_tool, execute_transaction_tool,
}
use dapr_mcp.State.Store.{View, put, apply_operations, stored_text, IsStore, get_state-save_state}
use dapr_mcp.State.Transactions.{one_by_one, AllSucceed, execute_transaction-one_by_one}
use dapr_mcp.Metadata.{RegisteredComponent, live_components}
use dapr_mcp.Metadata.Packages.{registered_types, mem-registered_packages-live_components}
use dapr_mcp.Server.Start.{component_types}
use dapr_mcp.Server.Components.{registered_packages}
use dapr_mcp.Server.Components.Kinds.{some_has_prefix}
use dapr_mcp.Tools.OneCall.{Clients}
use dapr_mcp.Conversation.{
  ConverseArgs, ConversationRequest, ConversationClient, Temperatures, Printing, converse_tool,
}
use dapr_mcp.Conversation.Outcome.{IsComplete, Chooses, IsRequest, Reports, converse_tool-Asks}

-- Calls are counted, and a call that fails says so.
abbrev counted : {A : Type 0} → A → Act ℕ A
counted a n = (ok a, suc n)

abbrev refused : {A : Type 0} → Act ℕ A
refused n = (err "refused", suc n)

abbrev counting : Clients ℕ
counting = record {
  state = record {
    save_state = λ store key value. counted tt;
    get_state = λ store key. counted (record { value = "v" });
    get_bulk_state = λ store keys n. refused;
    delete_state = λ store key. refused;
    execute_state_transaction = λ store meta ops. counted tt;
  };
  lock = record {
    try_lock_alpha1 = λ store r. counted true;
    unlock_alpha1 = λ store r. counted "SUCCESS";
  };
  pubsub = record { publish_event = λ name topic message opts. refused };
  bindings = record { invoke_binding = λ r. counted none };
  secrets = record {
    get_secret = λ store key meta. counted (("user", "u") ∷ []);
    get_bulk_secret = λ store meta. refused;
  };
  crypto = record {
    encrypt = λ text opts. counted (counted text);
    decrypt = λ text opts. counted refused;
  };
  invoke = record { invoke_method_with_content = λ id method verb content. counted "{}" };
  actors = record { invoke_actor = λ r. refused };
  inject = λ m. ("traceparent", "00") ∷ m;
  json = record { indent = λ s. some s; is_object = λ s. true };
  print_secret = λ m. "{}";
  print_secrets = λ m. "{}";
}

-- A store whose world is its view.
abbrev in_memory : StateClient View
in_memory = record {
  save_state = λ store key value v. (ok tt, put store key (some value) v);
  get_state = λ store key v. (ok (record { value = stored_text (v store key) }), v);
  get_bulk_state = λ store keys n v. (ok [], v);
  delete_state = λ store key v. (ok tt, put store key none v);
  execute_state_transaction = λ store meta ops v. (ok tt, apply_operations store ops v);
}

in_memory-IsStore : IsStore in_memory (λ v. v)
in_memory-IsStore = record {
  save = λ store key value w. refl;
  get = λ store key w. (refl, refl);
  remove = λ store key w. refl;
  commit = λ store meta ops w. refl;
  roll_back = λ store meta ops w. tt;
}

abbrev no_values : View
no_values store key = none

abbrev saved : SaveStateArgs
saved = record { store_name = "s"; key = "k"; value = "v" }

abbrev read : GetStateArgs
read = record { store_name = "s"; key = "k" }

get_state-save_state_example :
    (get_state_tool in_memory read (save_state_tool in_memory saved no_values).1).0.structured
    ≡ some (object (("key", text_value "k") ∷ ("value", text_value "v") ∷ []))
unfolding save_state_tool get_state_tool
get_state-save_state_example =
    get_state-save_state in_memory (λ v. v) in_memory-IsStore saved read no_values refl refl

abbrev batch : ExecuteTransactionArgs
batch = record {
  store_name = "s";
  items =
      record { key = "k"; value = "v"; is_delete = false }
      ∷ record { key = "k"; value = ""; is_delete = true }
      ∷ [];
}

batch-AllSucceed : AllSucceed in_memory "s" batch.items no_values
unfolding save_state_tool delete_state_tool
batch-AllSucceed = (refl, (refl, tt))

execute_transaction-one_by_one_example :
    (execute_transaction_tool in_memory (λ m. m) batch no_values).1
    ≡ one_by_one in_memory "s" batch.items no_values
unfolding execute_transaction_tool
execute_transaction-one_by_one_example =
    execute_transaction-one_by_one in_memory (λ v. v) in_memory-IsStore (λ m. m) batch no_values
      batch-AllSucceed

abbrev components : List RegisteredComponent
components =
    record { name = "s"; type = "state.redis"; version = "v1"; capabilities = none }
    ∷ record { name = "c"; type = "configuration.redis"; version = "v1"; capabilities = none }
    ∷ []

mem-registered_packages-live_components_example :
    mem "state" (registered_packages (component_types (live_components components)))
    ≡ some_has_prefix "state." (registered_types components)
mem-registered_packages-live_components_example =
    mem-registered_packages-live_components ("state", "state.") components (inr (inr (inl refl)))

-- Temperatures in tenths.
abbrev pub tenths : Temperatures ℕ
tenths = record { is_zero = λ n. nat_eq n 0; default = 7 }

abbrev pub printing : Printing
printing = record { print_calls = λ calls. "[]"; print_response = λ r. none }

abbrev silent : ConversationClient ℕ ℕ
silent = record { converse_alpha2 = λ r. counted ([] ∷ []) }

abbrev question : ConverseArgs ℕ
question = record { name = "llm"; prompt = "why?"; context_id = ""; temperature = 0 }

abbrev uuid : String
uuid = "u"

given_uuid : uuid ≢ ""
given_uuid e = ground (arith, eq_iff uuid "", e)

converse_tool-Asks_example :
    (r : ConversationRequest ℕ) × (id : String) × (v : ℕ) × Chooses tenths printing
      (counted uuid)
      ""
      0
      id
      v
    × IsRequest tenths printing (counted uuid) question id r
    × IsComplete tenths r
    × Reports
        (silent.converse_alpha2 r v)
        (converse_tool tenths printing (counted uuid) silent question 0)
converse_tool-Asks_example =
    converse_tool-Asks tenths printing (counted uuid) refl silent question 0 given_uuid
