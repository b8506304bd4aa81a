-- ===== src/Registration/Workflow.antt =====
-- pkg/workflow/tools.go: the tools that `RegisterTools` registers.
use dapr_mcp.Base.{String, true, false, List, [], ◌∷◌, some, format}
use dapr_mcp.Registration.Tool.{Tool}
use dapr_mcp.Mcp.{ToolResult}
use dapr_mcp.Workflow.Client.{TimeFormat}
use dapr_mcp.Workflow.Registry.{Registry}
use dapr_mcp.Workflow.Instance.{
  StartWorkflowArgs, InstanceArgs, ReasonArgs, RerunWorkflowArgs, RaiseWorkflowEventArgs,
  start_workflow, get_workflow_status, rerun_workflow, pause_workflow, resume_workflow,
  terminate_workflow, raise_workflow_event, purge_workflow,
}
use dapr_mcp.Workflow.History.{get_workflow_history}
use dapr_mcp.Workflow.Listing.{ListWorkflowsArgs, list_workflows}

-- `appIDRule`.
abbrev app_id_rule : String
app_id_rule =
    "**MULTI-APP**: When multiple workflow apps are configured, you MUST pass the `appID` of the app that owns the workflow (the tool error lists the valid app-ids). Use the `app_id` reported by `list_workflows`.\n"

module _ {W : Type 0} (time : TimeFormat) (clients : Registry W) where
  unfoldable pub start_workflow_entry : Tool W
  start_workflow_entry = record {
    name = "start_workflow";
    title = "Start Workflow Instance";
    description = format (
        "Starts a new Dapr Workflow instance, immediately or at a scheduled `startTime`. **This is a SIDE-EFFECT action that is NOT IDEMPOTENT** unless an explicit `instanceID` is provided.\n\n"
        ∷ "**GUIDANCE:**\n"
        ∷ "1. The workflow must be registered by the targeted workflow application.\n"
        ∷ "2. Provide `input` as a JSON string when the workflow expects input.\n"
        ∷ "3. Workflows run asynchronously: use `get_workflow_status` to track progress.\n\n"
        ∷ "**ARGUMENT RULES:**\n"
        ∷ "1. **REQUIRED INPUTS**: You MUST provide a non-empty `workflowName`.\n"
        ∷ "2. **NEVER INVENT**: Do NOT invent workflow names; ask the user if unknown.\n" ∷ "3. "
        ∷ app_id_rule ∷ []);
    annotations = record {
      read_only_hint = false;
      destructive_hint = some false;
      idempotent_hint = false;
      open_world_hint = some true;
    };
    Args = StartWorkflowArgs;
    Reply = ToolResult;
    handler = start_workflow time clients;
  }

  unfoldable pub get_workflow_status_entry : Tool W
  get_workflow_status_entry = record {
    name = "get_workflow_status";
    title = "Get Workflow Instance Status";
    description = format (
        "Fetches the runtime status (RUNNING, COMPLETED, FAILED, SUSPENDED, TERMINATED, PENDING) of a workflow instance with its output, custom status, and failure details. **This is a READ-ONLY action.**\n\n"
        ∷ "**ARGUMENT RULES:**\n"
        ∷ "1. **REQUIRED INPUTS**: You MUST provide a non-empty `instanceID`.\n" ∷ "2. "
        ∷ app_id_rule ∷ []);
    annotations = record {
      read_only_hint = true;
      destructive_hint = some false;
      idempotent_hint = true;
      open_world_hint = some true;
    };
    Args = InstanceArgs;
    Reply = ToolResult;
    handler = get_workflow_status time clients;
  }

  unfoldable pub get_workflow_history_entry : Tool W
  get_workflow_history_entry = record {
    name = "get_workflow_history";
    title = "Get Workflow Instance History";
    description = format (
        "Retrieves the event history of a workflow instance: scheduled and completed activities, timers, raised events, and failures. **This is a READ-ONLY action.**\n\n"
        ∷ "**GUIDANCE:**\n" ∷ "1. Use this to diagnose WHY a workflow failed or is stuck.\n"
        ∷ "2. The returned `event_id` values can be passed to `rerun_workflow`.\n\n"
        ∷ "**ARGUMENT RULES:**\n"
        ∷ "1. **REQUIRED INPUTS**: You MUST provide a non-empty `instanceID`.\n" ∷ "2. "
        ∷ app_id_rule ∷ []);
    annotations = record {
      read_only_hint = true;
      destructive_hint = some false;
      idempotent_hint = true;
      open_world_hint = some true;
    };
    Args = InstanceArgs;
    Reply = ToolResult;
    handler = get_workflow_history time clients;
  }

  unfoldable pub rerun_workflow_entry : Tool W
  rerun_workflow_entry = record {
    name = "rerun_workflow";
    title = "Rerun Workflow From Event";
    description = format (
        "Reruns a workflow instance from an event in its history as a NEW instance, reusing the results recorded before that event. **This is a SIDE-EFFECT action that is NOT IDEMPOTENT** unless an explicit `newInstanceID` is provided.\n\n"
        ∷ "**ARGUMENT RULES:**\n"
        ∷ "1. **REQUIRED INPUTS**: You MUST provide a non-empty `instanceID` and an `eventID`.\n"
        ∷ "2. **NEVER INVENT**: Take `eventID` from `get_workflow_history`.\n" ∷ "3. " ∷ app_id_rule
        ∷ []);
    annotations = record {
      read_only_hint = false;
      destructive_hint = some false;
      idempotent_hint = false;
      open_world_hint = some true;
    };
    Args = RerunWorkflowArgs;
    Reply = ToolResult;
    handler = rerun_workflow time clients;
  }

  unfoldable pub list_workflows_entry : Tool W
  list_workflows_entry = record {
    name = "list_workflows";
    title = "List Workflow Instances";
    description = format (
        "Lists workflow instances with their app, workflow name, runtime status, and creation time, plus counts per workflow and per status. **This is a READ-ONLY action.** The tool does NOT filter; filter the returned list yourself.\n\n"
        ∷ "**GUIDANCE:**\n"
        ∷ "1. When multiple workflow apps are configured and `appID` is omitted, all apps are listed with counts per app; one failing app is reported as a warning instead of failing the call.\n"
        ∷ "2. `limit` applies per app. If continuation tokens are returned, call again with the matching `appID` and `continuationToken` before drawing conclusions about totals.\n"
        ∷ "3. Pass the `app_id` of a listed instance to the other workflow tools.\n" ∷ []);
    annotations = record {
      read_only_hint = true;
      destructive_hint = some false;
      idempotent_hint = true;
      open_world_hint = some true;
    };
    Args = ListWorkflowsArgs;
    Reply = ToolResult;
    handler = list_workflows time clients;
  }

  unfoldable pub pause_workflow_entry : Tool W
  pause_workflow_entry = record {
    name = "pause_workflow";
    title = "Pause Workflow Instance";
    description = format (
        "Pauses (suspends) a running workflow instance until it is resumed with `resume_workflow`. **This is a SIDE-EFFECT action that IS IDEMPOTENT.**\n\n"
        ∷ "**ARGUMENT RULES:**\n"
        ∷ "1. **REQUIRED INPUTS**: You MUST provide a non-empty `instanceID`.\n" ∷ "2. "
        ∷ app_id_rule ∷ []);
    annotations = record {
      read_only_hint = false;
      destructive_hint = some false;
      idempotent_hint = true;
      open_world_hint = some true;
    };
    Args = ReasonArgs;
    Reply = ToolResult;
    handler = pause_workflow time clients;
  }

  unfoldable pub resume_workflow_entry : Tool W
  resume_workflow_entry = record {
    name = "resume_workflow";
    title = "Resume Workflow Instance";
    description = format (
        "Resumes a paused (suspended) workflow instance. **This is a SIDE-EFFECT action that IS IDEMPOTENT.**\n\n"
        ∷ "**ARGUMENT RULES:**\n"
        ∷ "1. **REQUIRED INPUTS**: You MUST provide a non-empty `instanceID`.\n" ∷ "2. "
        ∷ app_id_rule ∷ []);
    annotations = record {
      read_only_hint = false;
      destructive_hint = some false;
      idempotent_hint = true;
      open_world_hint = some true;
    };
    Args = ReasonArgs;
    Reply = ToolResult;
    handler = resume_workflow time clients;
  }

  unfoldable pub terminate_workflow_entry : Tool W
  terminate_workflow_entry = record {
    name = "terminate_workflow";
    title = "Terminate Workflow Instance";
    description = format (
        "Forcefully terminates a running workflow instance without executing its remaining steps. **This is a DESTRUCTIVE action that cannot be undone.**\n\n"
        ∷ "**ARGUMENT RULES:**\n"
        ∷ "1. **REQUIRED INPUTS**: You MUST provide a non-empty `instanceID`.\n"
        ∷ "2. **CONFIRMATION**: Unless the user explicitly asked for termination, confirm before calling this tool.\n"
        ∷ "3. " ∷ app_id_rule ∷ []);
    annotations = record {
      read_only_hint = false;
      destructive_hint = some true;
      idempotent_hint = true;
      open_world_hint = some true;
    };
    Args = InstanceArgs;
    Reply = ToolResult;
    handler = terminate_workflow time clients;
  }

  unfoldable pub raise_workflow_event_entry : Tool W
  raise_workflow_event_entry = record {
    name = "raise_workflow_event";
    title = "Raise Workflow Event";
    description = format (
        "Delivers an external event (e.g., an approval) to a workflow instance waiting for it. **This is a SIDE-EFFECT action that is NOT IDEMPOTENT.**\n\n"
        ∷ "**ARGUMENT RULES:**\n"
        ∷ "1. **REQUIRED INPUTS**: You MUST provide non-empty `instanceID` and `eventName` values.\n"
        ∷ "2. **NEVER INVENT**: `eventName` must exactly match the name the workflow waits for.\n"
        ∷ "3. Provide `eventData` as a JSON string when the workflow expects a payload.\n" ∷ "4. "
        ∷ app_id_rule ∷ []);
    annotations = record {
      read_only_hint = false;
      destructive_hint = some false;
      idempotent_hint = false;
      open_world_hint = some true;
    };
    Args = RaiseWorkflowEventArgs;
    Reply = ToolResult;
    handler = raise_workflow_event time clients;
  }

  unfoldable pub purge_workflow_entry : Tool W
  purge_workflow_entry = record {
    name = "purge_workflow";
    title = "Purge Workflow Instance State";
    description = format (
        "Permanently deletes the state and history of a COMPLETED, FAILED, or TERMINATED workflow instance. **This is a DESTRUCTIVE action that cannot be undone.**\n\n"
        ∷ "**ARGUMENT RULES:**\n"
        ∷ "1. **REQUIRED INPUTS**: You MUST provide a non-empty `instanceID`.\n"
        ∷ "2. **CONFIRMATION**: Unless the user explicitly asked for purging, confirm before calling this tool.\n"
        ∷ "3. " ∷ app_id_rule ∷ []);
    annotations = record {
      read_only_hint = false;
      destructive_hint = some true;
      idempotent_hint = false;
      open_world_hint = some true;
    };
    Args = InstanceArgs;
    Reply = ToolResult;
    handler = purge_workflow time clients;
  }

  unfoldable pub workflow_tools : List (Tool W)
  unfolding start_workflow_entry get_workflow_status_entry get_workflow_history_entry
      rerun_workflow_entry list_workflows_entry pause_workflow_entry resume_workflow_entry
      terminate_workflow_entry raise_workflow_event_entry purge_workflow_entry
  workflow_tools =
      start_workflow_entry ∷ get_workflow_status_entry ∷ get_workflow_history_entry
      ∷ rerun_workflow_entry ∷ list_workflows_entry ∷ pause_workflow_entry ∷ resume_workflow_entry
      ∷ terminate_workflow_entry ∷ raise_workflow_event_entry ∷ purge_workflow_entry ∷ []
