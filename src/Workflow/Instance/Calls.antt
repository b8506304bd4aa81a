-- ===== src/Workflow/Instance/Calls.antt =====
-- Which call each tool of one instance makes of the sidecar that serves the app.
use dapr_mcp.Base.{
  inl, inr, Bool-cases, ltb, refl, ◌<◌, ◌⊎◌, String, true, List, ◌++◌, ℤ, pos, negsuc, ◌≤◌, ◌≡◌,
  arith, some, Result, ok, err, ℕ,
}
use dapr_mcp.Mcp.{ToolResult, tool_error}
use dapr_mcp.Mcp.Calls.{Makes}
use dapr_mcp.Workflow.Client.{
  TimeFormat, WorkflowClient, with_new_instance_id, with_raw_rerun_input, with_raw_event_data,
  StartOption,
}
use dapr_mcp.Workflow.Registry.{Registry, Target, client_for}
use dapr_mcp.Workflow.History.{get_workflow_history}
use dapr_mcp.Workflow.Instance.Guard.{rerun_workflow_range}
use dapr_mcp.Workflow.Instance.{
  StartWorkflowArgs, InstanceArgs, ReasonArgs, RerunWorkflowArgs, RaiseWorkflowEventArgs,
  start_workflow, get_workflow_status, rerun_workflow, pause_workflow, resume_workflow,
  terminate_workflow, raise_workflow_event, purge_workflow, max_uint32, invalid_event, event_number,
  start_options, option_if,
}

-- An event ID in the range of a `uint32` keeps its value.
in_range : (id : ℤ) (n : ℕ) → id ≡ pos n → n ≤ max_uint32 → event_number id ≡ some n
unfolding event_number
in_range (negsuc k) n e h = cc
in_range (pos k) n e h = ground arith

-- An event ID that is no `uint32`.
abbrev pub IsOutOfRange : ℤ → Type 0
IsOutOfRange id = (n : ℕ) × ((id ≡ negsuc n) ⊎ ((id ≡ pos n) × (max_uint32 < n)))

range_cases : (id : ℤ) → ((n : ℕ) × (id ≡ pos n) × (n ≤ max_uint32)) ⊎ IsOutOfRange id
range_cases (negsuc n) = inr (n, inl refl)
range_cases (pos n) = elim (Bool-cases (ltb max_uint32 n)) [
  | inl h ↦ inr (n, inr (refl, ground (arith, h)))
  | inr h ↦ inl (n, refl, ground (arith, h))
]

-- A start time that cannot be read is reported without a call.
abbrev pub Starts :
    {W : Type 0}
    → WorkflowClient W
    → StartWorkflowArgs
    → W
    → ToolResult × W
    → Result String (List StartOption)
    → Type 0
Starts client args w r (ok opts) = Makes (client.schedule_workflow args.workflow_name opts) w r
Starts client args w r (err message) = r ≡ (tool_error message, w)

-- An event ID that is a `uint32` is passed on in one call; any other is reported without a call.
abbrev pub Reruns :
    {W : Type 0} → WorkflowClient W → RerunWorkflowArgs → W → ToolResult × W → Type 0
Reruns client args w r =
    ((n : ℕ) × (args.event_id ≡ pos n)
      × (n ≤ max_uint32)
      × Makes
          (client.rerun_workflow_from_event args.instance_id n (
            option_if with_new_instance_id args.new_instance_id
            ++ option_if with_raw_rerun_input args.input))
          w r)
    ⊎ (IsOutOfRange args.event_id × (r ≡ (tool_error (invalid_event args.event_id), w)))

-- The call of each tool on the sidecar `t`, for the arguments that name it. An optional argument is
-- passed on exactly if it is not empty.
module _ {W : Type 0} (time : TimeFormat) (clients : Registry W) (t : Target W) where
  pub record MakesOneCall (app_id : String) : Type 0 where
    pub start :
        (args : StartWorkflowArgs) (w : W)
        → Starts t.client args w
            (start_workflow time clients (record args { app_id = app_id }) w)
            (start_options time args)
    pub status :
        (args : InstanceArgs) (w : W)
        → Makes
            (t.client.fetch_workflow_metadata args.instance_id true)
            w
            (get_workflow_status time clients (record args { app_id = app_id }) w)
    pub pause :
        (args : ReasonArgs) (w : W)
        → Makes
            (t.client.suspend_workflow args.instance_id args.reason)
            w
            (pause_workflow time clients (record args { app_id = app_id }) w)
    pub resume :
        (args : ReasonArgs) (w : W)
        → Makes
            (t.client.resume_workflow args.instance_id args.reason)
            w
            (resume_workflow time clients (record args { app_id = app_id }) w)
    pub terminate :
        (args : InstanceArgs) (w : W)
        → Makes
            (t.client.terminate_workflow args.instance_id)
            w
            (terminate_workflow time clients (record args { app_id = app_id }) w)
    pub raise :
        (args : RaiseWorkflowEventArgs) (w : W)
        → Makes
            (t.client.raise_event args.instance_id args.event_name
              (option_if with_raw_event_data args.event_data))
            w
            (raise_workflow_event time clients (record args { app_id = app_id }) w)
    pub purge :
        (args : InstanceArgs) (w : W)
        → Makes
            (t.client.purge_workflow_state args.instance_id)
            w
            (purge_workflow time clients (record args { app_id = app_id }) w)
    pub history :
        (args : InstanceArgs) (w : W)
        → Makes
            (t.client.get_instance_history args.instance_id)
            w
            (get_workflow_history time clients (record args { app_id = app_id }) w)
    pub rerun :
        (args : RerunWorkflowArgs) (w : W)
        → Reruns t.client args w (rerun_workflow time clients (record args { app_id = app_id }) w)

  pub rerun_workflow-Makes :
      (args : RerunWorkflowArgs) (n : ℕ) (w : W)
      → client_for clients args.app_id ≡ ok t
      → args.event_id ≡ pos n
      → n ≤ max_uint32
      → Makes
          (t.client.rerun_workflow_from_event args.instance_id n (
            option_if with_new_instance_id args.new_instance_id
            ++ option_if with_raw_rerun_input args.input))
          w
          (rerun_workflow time clients args w)
  unfolding rerun_workflow
  rerun_workflow-Makes args n w h e l = rw (in_range args.event_id n e l) (rw h (ground arith))

  -- An event ID from 0 to 2^32 - 1 is passed on unchanged: `rerun_workflow` makes one call with it,
  -- and reports an error exactly when that call fails. Any other event ID is refused before a call.
  pub rerun_workflow_range_cases :
      (args : RerunWorkflowArgs) (w : W)
      → client_for clients args.app_id ≡ ok t
      → ((n : ℕ) × (args.event_id ≡ pos n)
          × (n ≤ max_uint32)
          × Makes
              (t.client.rerun_workflow_from_event args.instance_id n (
                option_if with_new_instance_id args.new_instance_id
                ++ option_if with_raw_rerun_input args.input))
              w
              (rerun_workflow time clients args w))
        ⊎ (IsOutOfRange args.event_id
            × (rerun_workflow time clients args w ≡ (tool_error (invalid_event args.event_id), w)))
  rerun_workflow_range_cases args w h = elim (range_cases args.event_id) [
    | inl (n, e, l) ↦ inl (n, e, l, rerun_workflow-Makes args n w h e l)
    | inr (n, k) ↦ inr ((n, k), rerun_workflow_range time clients args n w k)
  ]
