-- ===== src/Workflow/Instance/Texts.antt =====
-- pkg/workflow/tools.go: the arguments of the tools that act on one instance, and the texts and
-- structured results that they answer with.
use mathlib.Core.Option
use dapr_mcp.Base.{
  String, Option, none, some, List, [], ◌∷◌, ◌++◌, if◌then◌else◌, ltb, Dict, ℤ, pos, negsuc, show,
  format, trim_prefix, Result, ok, err, ◌==◌, ◌-◌, ◌^◌, ℕ,
}
use dapr_mcp.Mcp.{ToolResult, Value, tool_success, text_value, entry_if, unless_empty}
use dapr_mcp.Workflow.Client.{
  TimeFormat, StartOption, with_instance_id, with_raw_input, with_start_time, Metadata,
}

pub record StartWorkflowArgs : Type 0 where
  pub app_id : String
  pub workflow_name : String
  pub instance_id : String
  pub input : String
  pub start_time : String

pub record InstanceArgs : Type 0 where
  pub app_id : String
  pub instance_id : String

pub record ReasonArgs : Type 0 where
  pub app_id : String
  pub instance_id : String
  pub reason : String

pub record RerunWorkflowArgs : Type 0 where
  pub app_id : String
  pub instance_id : String
  pub event_id : ℤ
  pub new_instance_id : String
  pub input : String

pub record RaiseWorkflowEventArgs : Type 0 where
  pub app_id : String
  pub instance_id : String
  pub event_name : String
  pub event_data : String

-- `statusName`.
unfoldable pub status_name : String → String
status_name status = trim_prefix status "ORCHESTRATION_STATUS_"

-- The words `'id' on app 'app'` of the messages.
abbrev pub on_app : String → String → List String
on_app id app = "'" ∷ id ∷ "' on app '" ∷ app ∷ []

abbrev pub option_if {ℓ} : {O : Type ℓ} → (String → O) → String → List O
option_if make s = if s == "" then [] else make s ∷ []

-- The options of `startWorkflowTool`; a start time that cannot be read is an error.
unfoldable pub start_options : TimeFormat → StartWorkflowArgs → Result String (List StartOption)
start_options time args =
    let given =
      option_if with_instance_id args.instance_id ++ option_if with_raw_input args.input in
    if args.start_time == "" then ok given else elim (time.parse args.start_time) [
      | none ↦ err (
          format (
            "invalid startTime '" ∷ args.start_time
            ∷ "': expected RFC 3339 (e.g., '2026-07-15T06:00:00Z')" ∷ []))
      | some t ↦ ok (given ++ with_start_time t ∷ [])
    ]

-- `math.MaxUint32`.
abbrev pub max_uint32 : ℕ
max_uint32 = 2 ^ 32 - 1

-- The event ID as a `uint32`, if it is in range.
unfoldable pub event_number : ℤ → Option ℕ
event_number (negsuc n) = none
event_number (pos n) = if ltb max_uint32 n then none else some n

abbrev pub invalid_event : ℤ → String
invalid_event id =
    format ("invalid eventID " ∷ show id ∷ ": use an event ID from get_workflow_history" ∷ [])

-- The message of a successful start.
abbrev pub started : String → StartWorkflowArgs → String → ToolResult
started app args id =
    let entries =
      ("app_id", text_value app)
      ∷ ("workflow_name", text_value args.workflow_name)
      ∷ ("instance_id", text_value id)
      ∷ [] in
    if args.start_time == ""
    then tool_success
        (format (
          "Successfully started workflow '" ∷ args.workflow_name ∷ "' on app '" ∷ app
          ∷ "' with instance ID '" ∷ id ∷ "'." ∷ []))
        entries
    else tool_success
        (format (
          "Successfully scheduled workflow '" ∷ args.workflow_name ∷ "' on app '" ∷ app
          ∷ "' with instance ID '" ∷ id ∷ "' to start at " ∷ args.start_time ∷ "." ∷ []))
        (entries ++ ("start_time", text_value args.start_time) ∷ [])

abbrev line_if : String → Option String → List String
line_if label none = []
line_if label (some s) = label ∷ s ∷ []

-- The message and the structured result of `getWorkflowStatusTool`.
unfoldable pub status_result : TimeFormat → String → String → Metadata → ToolResult
status_result time app id meta =
    let status = status_name meta.runtime_status in
    let custom = unless_empty meta.custom_status in
    let output = unless_empty meta.output in
    tool_success
      (format (
        ("Workflow instance '" ∷ id ∷ "' (workflow '" ∷ meta.name ∷ "', app '" ∷ app ∷ "') is "
          ∷ status ∷ "." ∷ [])
        ++ line_if "\nCustom status: " custom
        ++ line_if "\nOutput: " output
        ++ line_if "\nFailure: " meta.failure))
      (("app_id", text_value app)
          ∷ ("instance_id", text_value id)
          ∷ ("workflow_name", text_value meta.name)
          ∷ ("status", text_value status)
          ∷ []
        ++ entry_if "created_at" (Option.map (λ t. text_value (time.print t)) meta.created_at)
        ++ entry_if "last_updated_at"
            (Option.map (λ t. text_value (time.print t)) meta.last_updated_at)
        ++ entry_if "custom_status" (Option.map text_value custom)
        ++ entry_if "output" (Option.map text_value output)
        ++ entry_if "failure" (Option.map text_value meta.failure))

-- The structured result that pause, resume and terminate share.
abbrev pub new_status : String → String → String → Dict Value
new_status app id status =
    ("app_id", text_value app) ∷ ("instance_id", text_value id) ∷ ("status", text_value status) ∷ []
