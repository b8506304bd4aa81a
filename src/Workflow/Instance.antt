-- ===== src/Workflow/Instance.antt =====
-- pkg/workflow/tools.go: the tools that act on one workflow instance of one app.
pub mod Texts
pub mod Guard
pub mod Calls
unfoldable pub use Texts.*
use mathlib.Core.Option
use dapr_mcp.Base.{
  String, Bool, true, false, Option, none, some, List, [], ◌∷◌, ◌++◌, if◌then◌else◌, ltb, Dict, ℤ,
  pos, negsuc, show, format, trim_prefix, Result, ok, err, ◌==◌, ◌||◌, ◌-◌, ◌^◌, ℕ,
}
use dapr_mcp.Mcp.{
  ToolResult, Value, tool_error, tool_success, text_value, number_value, flag_value, entry_if,
  unless_empty, Act, pure, fail, lift, call, ◌>>=◌, ◌>>◌, answer,
}
use dapr_mcp.Workflow.Client.{
  Time, TimeFormat, StartOption, with_instance_id, with_raw_input, with_start_time, RerunOption,
  with_new_instance_id, with_raw_rerun_input, RaiseOption, with_raw_event_data, Metadata,
  WorkflowClient,
}
use dapr_mcp.Workflow.Registry.{Registry, Target, client_for}

module _ {W : Type 0} (time : TimeFormat) (clients : Registry W) where
  -- `clients.clientFor(args.AppID)`, its error being the tool's.
  abbrev resolve : String → Act W (Target W)
  resolve id = lift (client_for clients id)

  unfoldable pub start_workflow : StartWorkflowArgs → W → ToolResult × W
  unfolding start_options
  start_workflow args w = answer (
      (do
        t ← resolve args.app_id
        opts ← lift (start_options time args)
        id ← call (t.client.schedule_workflow args.workflow_name opts) λ e.
            format
              ("failed to start workflow " ∷ on_app args.workflow_name t.app_id ++ "': " ∷ e ∷ [])
        pure (started t.app_id args id))
        w)

  unfoldable pub get_workflow_status : InstanceArgs → W → ToolResult × W
  unfolding status_result
  get_workflow_status args w = answer (
      (do
        t ← resolve args.app_id
        meta ← call (t.client.fetch_workflow_metadata args.instance_id true) λ e. format (
            "failed to get status of workflow instance " ∷ on_app args.instance_id t.app_id
            ++ "': " ∷ e ∷ [])
        pure (status_result time t.app_id args.instance_id meta))
        w)

  rerun_from : RerunWorkflowArgs → Option ℕ → Act W ToolResult
  rerun_from args none = fail (invalid_event args.event_id)
  rerun_from args (some n) = do
    t ← resolve args.app_id
    id ←
        call
          (t.client.rerun_workflow_from_event args.instance_id n (
            option_if with_new_instance_id args.new_instance_id
            ++ option_if with_raw_rerun_input args.input))
          λ e. format (
            "failed to rerun workflow instance " ∷ on_app args.instance_id t.app_id
            ++ "' from event " ∷ show args.event_id ∷ ": " ∷ e ∷ [])
    pure (
        tool_success
          (format (
            "Successfully reran workflow instance " ∷ on_app args.instance_id t.app_id
            ++ "' from event " ∷ show args.event_id ∷ " as new instance '" ∷ id ∷ "'." ∷ []))
          (("app_id", text_value t.app_id)
            ∷ ("source_instance_id", text_value args.instance_id)
            ∷ ("event_id", number_value args.event_id)
            ∷ ("new_instance_id", text_value id)
            ∷ []))

  unfoldable pub rerun_workflow : RerunWorkflowArgs → W → ToolResult × W
  unfolding rerun_from event_number
  rerun_workflow args w = answer (rerun_from args (event_number args.event_id) w)

  unfoldable pub pause_workflow : ReasonArgs → W → ToolResult × W
  pause_workflow args w = answer (
      (do
        t ← resolve args.app_id
        call (t.client.suspend_workflow args.instance_id args.reason) λ e. format (
            "failed to pause workflow instance " ∷ on_app args.instance_id t.app_id
            ++ "': " ∷ e ∷ [])
        pure (
            tool_success
              (format (
                "Successfully paused workflow instance " ∷ on_app args.instance_id t.app_id
                ++ "'." ∷ []))
              (new_status t.app_id args.instance_id "SUSPENDED")))
        w)

  unfoldable pub resume_workflow : ReasonArgs → W → ToolResult × W
  resume_workflow args w = answer (
      (do
        t ← resolve args.app_id
        call (t.client.resume_workflow args.instance_id args.reason) λ e. format (
            "failed to resume workflow instance " ∷ on_app args.instance_id t.app_id
            ++ "': " ∷ e ∷ [])
        pure (
            tool_success
              (format (
                "Successfully resumed workflow instance " ∷ on_app args.instance_id t.app_id
                ++ "'." ∷ []))
              (new_status t.app_id args.instance_id "RUNNING")))
        w)

  unfoldable pub terminate_workflow : InstanceArgs → W → ToolResult × W
  terminate_workflow args w = answer (
      (do
        t ← resolve args.app_id
        call (t.client.terminate_workflow args.instance_id) λ e. format (
            "failed to terminate workflow instance " ∷ on_app args.instance_id t.app_id
            ++ "': " ∷ e ∷ [])
        pure (
            tool_success
              (format (
                "Successfully requested termination of workflow instance "
                  ∷ on_app args.instance_id t.app_id
                ++ "'." ∷ []))
              (new_status t.app_id args.instance_id "TERMINATED")))
        w)

  unfoldable pub raise_workflow_event : RaiseWorkflowEventArgs → W → ToolResult × W
  raise_workflow_event args w = answer (
      (do
        t ← resolve args.app_id
        call
            (t.client.raise_event args.instance_id args.event_name
              (option_if with_raw_event_data args.event_data))
            λ e. format (
              "failed to raise event '"
                ∷ args.event_name
                ∷ "' for workflow instance "
                ∷ on_app args.instance_id t.app_id
              ++ "': " ∷ e ∷ [])
        pure (
            tool_success
              (format (
                "Successfully raised event '"
                  ∷ args.event_name
                  ∷ "' for workflow instance "
                  ∷ on_app args.instance_id t.app_id
                ++ "'." ∷ []))
              (("app_id", text_value t.app_id)
                ∷ ("instance_id", text_value args.instance_id)
                ∷ ("event_name", text_value args.event_name)
                ∷ [])))
        w)

  unfoldable pub purge_workflow : InstanceArgs → W → ToolResult × W
  purge_workflow args w = answer (
      (do
        t ← resolve args.app_id
        call (t.client.purge_workflow_state args.instance_id) λ e. format (
            "failed to purge workflow instance " ∷ on_app args.instance_id t.app_id
            ++ "': " ∷ e ∷ [])
        pure (
            tool_success
              (format (
                "Successfully purged the state of workflow instance "
                  ∷ on_app args.instance_id t.app_id
                ++ "'." ∷ []))
              (("app_id", text_value t.app_id)
                ∷ ("instance_id", text_value args.instance_id)
                ∷ ("purged", flag_value true)
                ∷ [])))
        w)
