-- ===== src/Examples/Listing.antt =====
-- The listing and the history of pkg/workflow at concrete inputs.
use dapr_mcp.Base.{none, some, [], ◌∷◌, map, pos, ok, ◌≡◌, refl, arith, All}
use dapr_mcp.Workflow.Client.{WorkflowClient}
use dapr_mcp.Workflow.Registry.{Registry, Target, client_for, multi_app}
use dapr_mcp.Workflow.Client.{HistoryEvent, task_scheduled}
use dapr_mcp.Workflow.Instance.{InstanceArgs}
use dapr_mcp.Workflow.History.{get_workflow_history}
use dapr_mcp.Workflow.History.Events.{Outcome, get_workflow_history-Reports}
use dapr_mcp.Workflow.Listing.Workers.{AppListing, list_app, list_apps}
use dapr_mcp.Workflow.Listing.Workers.Pages.{Accounts, list_app-Accounts}
use dapr_mcp.Workflow.Listing.Workers.Interleave.{waiting, done, run, IsReadOnly, run-list_apps}
use dapr_mcp.Workflow.Listing.Sums.{add_listings, no_totals}
use dapr_mcp.Workflow.Listing.Sums.Counts.{IsBalanced, healthy_instances}
use dapr_mcp.Workflow.Listing.Sums.Agreement.{
  Says, warning_of, token_of, count_of, add_listings_agree,
}
use dapr_mcp.Examples.Workflow.{Log, clock, page, sidecar, orders}

list_app-Accounts_example :
    Accounts clock orders (list_app clock 2 "" orders []) (ok page, [])
    × ((list_app clock 2 "" orders []).0.app_id ≡ "orders")
list_app-Accounts_example = list_app-Accounts clock orders 2 "" []

read_only : IsReadOnly clock 2 "" [] orders
read_only = record { list = refl; fetch = λ id. refl }

run-list_apps_example :
    run clock 2 "" (0 ∷ 1 ∷ 1 ∷ 0 ∷ 0 ∷ 1 ∷ 1 ∷ 0 ∷ []) (map waiting (orders ∷ orders ∷ [])) []
    ≡ (map done (list_apps clock 2 "" (orders ∷ orders ∷ []) []).0, [])
run-list_apps_example =
    run-list_apps clock 2 "" (0 ∷ 1 ∷ 1 ∷ 0 ∷ 0 ∷ 1 ∷ 1 ∷ 0 ∷ []) (orders ∷ orders ∷ []) []
      (read_only, (read_only, tt)) (refl, (refl, tt))

abbrev healthy : AppListing
healthy = record {
  app_id = "a";
  instances =
      record {
        app_id = "a";
        instance_id = "1";
        workflow_name = "order";
        status = "RUNNING";
        created_at = "";
      }
      ∷ [];
  continuation_token = "next";
  skipped = 1;
  error = none;
}

abbrev failed : AppListing
failed = record {
  app_id = "b";
  instances = [];
  continuation_token = "";
  skipped = 0;
  error = some "down";
}

add_listings_agree_example :
    ((add_listings (healthy ∷ failed ∷ []) no_totals).instances
      ≡ healthy_instances (healthy ∷ failed ∷ []))
    × IsBalanced (add_listings (healthy ∷ failed ∷ []) no_totals)
    × All
        (λ l.
          Says
            (add_listings (healthy ∷ failed ∷ []) no_totals)
            l.app_id
            (warning_of l)
            (token_of l)
            (count_of l))
        (healthy ∷ failed ∷ [])
add_listings_agree_example = add_listings_agree (healthy ∷ failed ∷ []) (ground arith)

abbrev scheduled : HistoryEvent
scheduled = record {
  event_id = pos 3;
  timestamp = none;
  event_type = some "taskScheduled";
  payload = task_scheduled "charge";
}

abbrev historian : WorkflowClient Log
historian = record sidecar { get_instance_history = λ id w. (ok (scheduled ∷ []), w) }

abbrev one_app : Registry Log
one_app = record { default_client = historian; default_app_id = "server"; by_app_id = [] }

abbrev server : Target Log
server = record { app_id = "server"; client = historian }

abbrev instance_args : InstanceArgs
instance_args = record { app_id = ""; instance_id = "one" }

served : client_for one_app "" ≡ ok server
unfolding client_for multi_app
served = refl

get_workflow_history-Reports_example :
    Outcome clock one_app server "one"
      (ok (scheduled ∷ []), [])
      (get_workflow_history clock one_app instance_args [])
get_workflow_history-Reports_example =
    get_workflow_history-Reports clock one_app server instance_args [] served
