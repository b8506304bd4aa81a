-- ===== src/Workflow/History.antt =====
-- pkg/workflow/tools.go: the history of one workflow instance.
pub mod Events
use mathlib.Core.Option
use dapr_mcp.Base.{
  ℕ, ℤ, pos, show, String, Option, none, some, List, [], ◌∷◌, ◌++◌, if◌then◌else◌, length, Dict,
  decimal, format, Result, ok, err, ◌==◌, ◌+++◌,
}
use dapr_mcp.Mcp.{
  Scalar, text, number, ToolResult, Value, rows, tool_success, text_value, number_value, entry_if,
  unless_empty, Act, pure, lift, call, ◌>>=◌, answer,
}
use dapr_mcp.Workflow.Client.{
  TimeFormat, Payload, execution_started, execution_completed, task_scheduled, task_failed,
  child_workflow_instance_created, event_raised, timer_created, other, HistoryEvent,
}
use dapr_mcp.Workflow.Registry.{Registry, client_for}
use dapr_mcp.Workflow.Instance.{InstanceArgs, status_name, on_app}

abbrev pub or_unknown : Option String → String
or_unknown none = "unknown"
or_unknown (some name) = name

-- The `switch` of `describeEvent`: the detail of an event.
pub event_detail : TimeFormat → Payload → String
event_detail time (execution_started name) = "workflow: " +++ name
event_detail time (execution_completed status none) = status_name status
event_detail time (execution_completed status (some failure)) =
    status_name status +++ (": " +++ failure)
event_detail time (task_scheduled name) = "activity: " +++ name
event_detail time (task_failed message) = "error: " +++ message
event_detail time (child_workflow_instance_created name) = "child workflow: " +++ name
event_detail time (event_raised name) = "event: " +++ name
event_detail time (timer_created none) = ""
event_detail time (timer_created (some t)) = "fires at: " +++ time.print t
event_detail time other = ""

-- `describeEvent`.
pub describe_event : TimeFormat → HistoryEvent → String × String
unfolding event_detail
describe_event time ev = (or_unknown ev.event_type, event_detail time ev.payload)

-- The entry of an event in the structured result, and its line in the text.
pub event_row : TimeFormat → HistoryEvent → Dict Scalar
event_row time ev =
    let (type, detail) = describe_event time ev in
    ("event_id", number ev.event_id)
    ∷ ("type", text type)
    ∷ (entry_if "timestamp" (Option.map (λ t. text (time.print t)) ev.timestamp)
        ++ entry_if "detail" (Option.map text (unless_empty detail)))

abbrev detail_words : String → List String
detail_words detail = if detail == "" then [] else " (" ∷ detail ∷ ")" ∷ []

pub event_words : TimeFormat → HistoryEvent → List String
event_words time ev =
    let (type, detail) = describe_event time ev in
    "\n- #" ∷ show ev.event_id ∷ " " ∷ type ∷ detail_words detail

-- The loop over the events.
pub event_rows : TimeFormat → List HistoryEvent → List (Dict Scalar)
event_rows time [] = []
event_rows time (ev ∷ evs) = event_row time ev ∷ event_rows time evs

pub all_words : TimeFormat → List HistoryEvent → List String
all_words time [] = []
all_words time (ev ∷ evs) = event_words time ev ++ all_words time evs

pub history_result : TimeFormat → String → String → List HistoryEvent → ToolResult
history_result time app id evs =
    tool_success
      (format (
        "Workflow instance " ∷ on_app id app
        ++ ("' has " ∷ decimal (length evs) ∷ " history event(s):" ∷ all_words time evs)))
      (("app_id", text_value app)
        ∷ ("instance_id", text_value id)
        ∷ ("count", number_value (pos (length (event_rows time evs))))
        ∷ ("events", rows (event_rows time evs))
        ∷ [])

module _ {W : Type 0} (time : TimeFormat) (clients : Registry W) where
  -- `getWorkflowHistoryTool`.
  unfoldable pub get_workflow_history : InstanceArgs → W → ToolResult × W
  unfolding history_result event_rows event_row event_words all_words describe_event
  get_workflow_history args w = answer (
      (do
        t ← lift (client_for clients args.app_id)
        evs ← call (t.client.get_instance_history args.instance_id) λ e. format (
            "failed to get history of workflow instance " ∷ on_app args.instance_id t.app_id
            ++ "': " ∷ e ∷ [])
        pure (history_result time t.app_id args.instance_id evs))
        w)
