-- ===== src/Examples/Offered.antt =====
-- The tools that the server offers at concrete inputs. The world is the value of one key; the calls
-- that read leave it, and those that write set it.
use dapr_mcp.Base.{
  ℕ, String, true, none, some, List, [], ◌∷◌, sort, ok, err, get_elem?, IsDistinct, In, inl, inr,
  ◌≡◌, ◌≢◌, refl, sym, subst, has_prefix, sort, arith, eq_iff,
}
use dapr_mcp.Mcp.{Act}
use dapr_mcp.State.{GetStateArgs, get_state_tool}
use dapr_mcp.Tools.OneCall.{Clients}
use dapr_mcp.Workflow.Client.{WorkflowClient}
use dapr_mcp.Workflow.Registry.{Target, targets, new_registry}
use dapr_mcp.Registration.State.{get_state_entry}
use dapr_mcp.Server.Components.{registered_packages}
use dapr_mcp.Server.Offered.{Services, register_tools, offered_tools}
use dapr_mcp.Server.Offered.Names.{names, names-offered_tools-IsDistinct}
use dapr_mcp.Server.Offered.ReadOnly.{IsQuiet, HasQuietReads, offered_tools-read_only}
use dapr_mcp.Examples.Tools.{tenths, printing}

abbrev reading : {A : Type 0} → A → Act ℕ A
reading a n = (ok a, n)

abbrev setting : {A : Type 0} → ℕ → A → Act ℕ A
setting k a n = (ok a, k)

abbrev sidecar : WorkflowClient ℕ
sidecar = record {
  schedule_workflow = λ name opts. setting 1 "id";
  fetch_workflow_metadata = λ id full n. (err "no such instance", n);
  get_instance_history = λ id. reading [];
  rerun_workflow_from_event = λ id event opts. setting 2 "id";
  list_instance_ids = λ opts. reading (record { instance_ids = []; continuation_token = "" });
  suspend_workflow = λ id reason. setting 3 tt;
  resume_workflow = λ id reason. setting 4 tt;
  terminate_workflow = λ id. setting 5 tt;
  raise_event = λ id name opts. setting 6 tt;
  purge_workflow_state = λ id. setting 7 tt;
}

abbrev clients : Clients ℕ
clients = record {
  state = record {
    save_state = λ store key value. setting 8 tt;
    get_state = λ store key. reading (record { value = "v" });
    get_bulk_state = λ store keys n. reading [];
    delete_state = λ store key. setting 0 tt;
    execute_state_transaction = λ store meta ops. setting 9 tt;
  };
  lock = record {
    try_lock_alpha1 = λ store r. setting 10 true;
    unlock_alpha1 = λ store r. setting 11 "SUCCESS";
  };
  pubsub = record { publish_event = λ name topic message opts. setting 12 tt };
  bindings = record { invoke_binding = λ r. setting 13 none };
  secrets = record {
    get_secret = λ store key meta. reading [];
    get_bulk_secret = λ store meta. reading [];
  };
  crypto = record {
    encrypt = λ text opts. setting 14 (setting 15 text);
    decrypt = λ text opts. reading (reading text);
  };
  invoke = record { invoke_method_with_content = λ id method verb content. setting 16 "{}" };
  actors = record { invoke_actor = λ r. setting 17 "" };
  inject = λ m. m;
  json = record { indent = λ s. some s; is_object = λ s. true };
  print_secret = λ m. "";
  print_secrets = λ m. "";
}

abbrev services : Services ℕ ℕ
services = record {
  clients = clients;
  metadata = record { get_metadata = reading [] };
  print_components = λ cs. none;
  conversation = record { converse_alpha2 = λ r. setting 18 [] };
  temperatures = tenths;
  printing = printing;
  new_random = setting 19 "uuid";
  time = record { parse = λ s. none; print = λ t. "" };
  registry = new_registry sidecar "server" [];
}

abbrev types : List String
types = "state.redis" ∷ "middleware.http" ∷ []

abbrev own : Target ℕ
own = record { app_id = "server"; client = sidecar }

only_own : (t : Target ℕ) → In t (targets services.registry) → t ≡ own
unfolding targets new_registry sort
only_own t (inl e) = e
only_own t (inr m) = elim m [ ]

own-IsQuiet : IsQuiet own
own-IsQuiet = record { list = λ opts w. refl; fetch = λ id full w. refl; history = λ id w. refl }

services-HasQuietReads : HasQuietReads services
services-HasQuietReads = record {
  get_state = λ store key w. refl;
  get_bulk_state = λ store keys n w. refl;
  get_secret = λ store name meta w. refl;
  get_bulk_secret = λ store meta w. refl;
  decrypt = λ cipher opts w. refl;
  get_metadata = λ w. refl;
  workflows = λ t m. subst IsQuiet (sym (only_own t m)) own-IsQuiet;
}

reading_offered :
    get_elem? (offered_tools services types) 14
    ≡ some (get_state_entry clients.state clients.inject)
unfolding offered_tools registered_packages register_tools has_prefix
reading_offered = refl

reading_named : ◌≢◌ {A = String} "get_state" "converse_with_llm"
reading_named e = ground (arith, eq_iff "get_state" "converse_with_llm", e)

abbrev asked : GetStateArgs
asked = record { store_name = "store"; key = "k" }

names-offered_tools-IsDistinct_example : IsDistinct (names (offered_tools services types))
names-offered_tools-IsDistinct_example = names-offered_tools-IsDistinct services types

offered_tools-read_only_example : (get_state_tool clients.state asked 5).1 ≡ 5
unfolding get_state_entry
offered_tools-read_only_example =
    offered_tools-read_only services services-HasQuietReads types 14
      (get_state_entry clients.state clients.inject) reading_offered refl reading_named asked 5
