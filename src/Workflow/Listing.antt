-- ===== src/Workflow/Listing.antt =====
-- pkg/workflow/tools.go: `list_workflows`, over one app or all of them.
pub mod ReadOnly
pub mod Workers
pub mod Sums
pub mod Report
use mathlib.Core.Option
use dapr_mcp.Base.{
  ℕ, ◌+◌, String, Bool, true, false, not, ◌&&◌, Option, none, some, List, [], ◌∷◌, ◌++◌, map,
  if◌then◌else◌, ltb, length, Dict, lookup, insert, keys, sort, ℤ, pos, negsuc, decimal, format,
  Result, ok, err, ◌==◌,
}
use dapr_mcp.Mcp.{
  Scalar, text, number, ToolResult, Value, table, rows, tool_error, tool_success, text_value,
  number_value, entry_if, unless_empty, Act, ◌>>=◌,
}
use dapr_mcp.Workflow.Client.{
  Time, TimeFormat, ListOption, with_page_size, with_continuation_token, Metadata, InstancePage,
  WorkflowClient,
}
use dapr_mcp.Workflow.Registry.{Registry, Target, client_for, targets, multi_app}
use dapr_mcp.Workflow.Instance.{status_name}
use Workers.{page_size, list_app, list_apps}
use Report.{all_apps_result, one_app_result}

pub record ListWorkflowsArgs : Type 0 where
  pub app_id : String
  pub limit : ℤ
  pub continuation_token : String

abbrev pub token_without_app : String
token_without_app =
    "continuationToken requires appID when multiple workflow apps are configured; pass the appID the token was returned for"

module _ {W : Type 0} (time : TimeFormat) (clients : Registry W) where
  list_everywhere : ℕ → String → W → ToolResult × W
  list_everywhere size token w =
      if token == ""
      then (let (ls, w') = list_apps time size token (targets clients) w in
          (all_apps_result ls, w'))
      else (tool_error token_without_app, w)

  list_one : ℕ → String → Result String (Target W) → W → ToolResult × W
  list_one size token (err e) w = (tool_error e, w)
  list_one size token (ok t) w =
      let (l, w') = list_app time size token t w in (one_app_result l, w')

  -- `listWorkflowsTool`.
  unfoldable pub list_workflows : ListWorkflowsArgs → W → ToolResult × W
  unfolding list_everywhere list_one
  list_workflows args w =
      let size = page_size args.limit in
      if args.app_id == "" && multi_app clients
      then list_everywhere size args.continuation_token w
      else list_one size args.continuation_token (client_for clients args.app_id) w
