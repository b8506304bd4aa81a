-- ===== src/Examples/Workflow.antt =====
-- pkg/workflow at concrete inputs: a registry of two apps whose clients log their calls.
use dapr_mcp.Base.{
  String, false, none, some, List, [], ◌∷◌, ◌++◌, map, pos, negsuc, Dict, mem, ok, err, ◌≡◌, ◌≢◌,
  ◌↔◌, ◌⊎◌, ℕ, refl, arith, In, All, join, IsSorted, IsDistinct, IsWord, is_space, trim_right,
  trim_space, split, cut, ◌≤◌, ◌==◌, if◌then◌else◌, eq_iff,
}
use dapr_mcp.Mcp.{Act, tool_error}
use dapr_mcp.Mcp.Calls.{Makes}
use dapr_mcp.Workflow.Client.{TimeFormat, WorkflowClient, Metadata, InstancePage}
use dapr_mcp.Workflow.Registry.{
  Registry, Target, new_registry, client_for, targets, app_ids, multi_app, app_id_required,
}
use dapr_mcp.Workflow.Registry.Laws.{is_ok, is_ok-client_for, target_ids}
use dapr_mcp.Workflow.Registry.Routing.{client_for-iff_In-targets}
use dapr_mcp.Workflow.Registry.Order.{targets-app_ids}
use dapr_mcp.Workflow.Config.{parse_apps_config}
use dapr_mcp.Workflow.Config.Entries.{
  Piece, blank, entry, written, IsPiece, parse_apps_config-written,
}
use dapr_mcp.Workflow.Instance.{RerunWorkflowArgs, rerun_workflow, invalid_event, max_uint32}
use dapr_mcp.Workflow.Instance.Guard.{IsRefused, IsRefused-multi_app}
use dapr_mcp.Workflow.Instance.Calls.{IsOutOfRange, rerun_workflow_range_cases}

abbrev pub Log : Type 0
Log = List String

-- A call that logs its name and answers with a value.
abbrev pub logged : {A : Type 0} → String → A → Act Log A
logged name a w = (ok a, w ++ name ∷ [])

abbrev pub clock : TimeFormat
clock = record { parse = λ s. if s == "noon" then some 12 else none; print = λ t. "noon" }

abbrev pub running : String → Metadata
running name = record {
  name = name;
  runtime_status = "ORCHESTRATION_STATUS_RUNNING";
  created_at = some 12;
  last_updated_at = none;
  custom_status = "";
  output = "";
  failure = none;
}

abbrev pub page : InstancePage
page = record { instance_ids = "one" ∷ "two" ∷ []; continuation_token = "next" }

-- Queries leave the log as it is; the metadata of instance `two` cannot be read.
abbrev pub sidecar : WorkflowClient Log
sidecar = record {
  schedule_workflow = λ name opts. logged "schedule" name;
  fetch_workflow_metadata =
      λ id inputs w. (if id == "two" then err "gone" else ok (running "order"), w);
  get_instance_history = λ id w. (ok [], w);
  rerun_workflow_from_event = λ id n opts. logged "rerun" "copy";
  list_instance_ids = λ opts w. (ok page, w);
  suspend_workflow = λ id reason. logged "suspend" tt;
  resume_workflow = λ id reason. logged "resume" tt;
  terminate_workflow = λ id. logged "terminate" tt;
  raise_event = λ id name opts. logged "raise" tt;
  purge_workflow_state = λ id. logged "purge" tt;
}

abbrev pub apps : Dict (WorkflowClient Log)
apps = ("orders", sidecar) ∷ ("billing", sidecar) ∷ []

abbrev pub two : Registry Log
two = record { default_client = sidecar; default_app_id = "server"; by_app_id = apps }

abbrev pub orders : Target Log
orders = record { app_id = "orders"; client = sidecar }

registry_of_two : new_registry sidecar "server" apps ≡ two
unfolding new_registry
registry_of_two = refl

-- Without an app-id, a call in a setup of two apps is not accepted.
is_ok-client_for_example : is_ok (client_for two "") ≡ false
unfolding multi_app
is_ok-client_for_example = is_ok-client_for two ""

targets-app_ids_example :
    ((id : String) → mem id (target_ids (targets two)) ≡ mem id (app_ids two))
    × IsDistinct (target_ids (targets two))
    × IsSorted (app_ids two)
    × IsDistinct (app_ids two)
targets-app_ids_example = targets-app_ids two (ground arith)

named : orders.app_id ≢ ""
named e = ground (arith, eq_iff "orders" "", e)

client_for-iff_In-targets_example :
    (client_for two "orders" ≡ ok orders) ↔ (In orders (targets two) × (orders.app_id ≡ "orders"))
client_for-iff_In-targets_example = client_for-iff_In-targets two "orders" orders named

abbrev written_apps : List Piece
written_apps = blank " " ∷ entry "" "billing" " " "" "b:1" " " ∷ []

orders_IsWord : IsWord "orders"
unfolding is_space trim_right
orders_IsWord = record { solid = refl; trimmed = refl }

o_IsWord : IsWord "o:1"
unfolding is_space trim_right
o_IsWord = record { solid = refl; trimmed = refl }

billing_IsWord : IsWord "billing"
unfolding is_space trim_right
billing_IsWord = record { solid = refl; trimmed = refl }

b_IsWord : IsWord "b:1"
unfolding is_space trim_right
b_IsWord = record { solid = refl; trimmed = refl }

abbrev all_written : List Piece
all_written = entry " " "orders" "" " " "o:1" "" ∷ written_apps

all_written-IsPiece : All IsPiece all_written
unfolding is_space
all_written-IsPiece = ground (arith, orders_IsWord, o_IsWord, billing_IsWord, b_IsWord)

parse_apps_config-written_example :
    parse_apps_config (join (map written (entry " " "orders" "" " " "o:1" "" ∷ written_apps)) ",")
    ≡ ok (("orders", "o:1") ∷ ("billing", "b:1") ∷ [])
parse_apps_config-written_example =
    parse_apps_config-written (entry " " "orders" "" " " "o:1" "") written_apps all_written-IsPiece
      (ground arith)

two_parsed : parse_apps_config " a = h:1 ,, b=h=2 ," ≡ ok (("a", "h:1") ∷ ("b", "h=2") ∷ [])
unfolding parse_apps_config split cut trim_space
two_parsed = refl

IsRefused-multi_app_example : IsRefused clock two "" (app_id_required two)
unfolding multi_app
IsRefused-multi_app_example = IsRefused-multi_app clock two refl

abbrev rerun_args : RerunWorkflowArgs
rerun_args = record {
  app_id = "orders";
  instance_id = "one";
  event_id = negsuc 0;
  new_instance_id = "";
  input = "";
}

found : client_for two "orders" ≡ ok orders
unfolding client_for
found = refl

rerun_workflow_range_cases_example :
    ((n : ℕ) × (pos 3 ≡ pos n)
      × (n ≤ max_uint32)
      × Makes
          (sidecar.rerun_workflow_from_event "one" n [])
          []
          (rerun_workflow clock two (record rerun_args { event_id = pos 3 }) []))
    ⊎ (IsOutOfRange (pos 3)
        × (rerun_workflow clock two (record rerun_args { event_id = pos 3 }) []
            ≡ (tool_error (invalid_event (pos 3)), [])))
rerun_workflow_range_cases_example =
    rerun_workflow_range_cases clock two orders (record rerun_args { event_id = pos 3 }) [] found
