-- ===== src/Workflow/Instance/Guard.antt =====
-- When the tools of one instance act on no sidecar at all: the hardening guard of the multi-app
-- set-up, event IDs out of range, and start times that cannot be read.
use dapr_mcp.Base.{
  String, true, ℤ, pos, negsuc, ◌⊎◌, inl, inr, ◌<◌, ◌≡◌, refl, arith, none, err, Option-cases, ℕ,
}
use dapr_mcp.Mcp.{tool_error}
use dapr_mcp.Workflow.Client.{TimeFormat}
use dapr_mcp.Workflow.Registry.{Registry, client_for, multi_app, app_id_required}
use dapr_mcp.Workflow.Instance.{
  StartWorkflowArgs, InstanceArgs, ReasonArgs, RerunWorkflowArgs, RaiseWorkflowEventArgs,
  start_workflow, get_workflow_status, rerun_workflow, pause_workflow, resume_workflow,
  terminate_workflow, raise_workflow_event, purge_workflow, max_uint32, event_number, invalid_event,
}
use dapr_mcp.Workflow.History.{get_workflow_history}

-- An event ID out of the range of a `uint32` has no number.
out_of_range :
    (id : ℤ) (n : ℕ) → (id ≡ negsuc n) ⊎ ((id ≡ pos n) × (max_uint32 < n)) → event_number id ≡ none
unfolding event_number
out_of_range (negsuc k) n h = refl
out_of_range (pos k) n h = ground arith

-- The answer of a call that names no app, for each tool: the error, and the world as it was.
module _ {W : Type 0} (time : TimeFormat) (clients : Registry W) where
  pub record IsRefused (app_id message : String) : Type 0 where
    pub start :
        (args : StartWorkflowArgs) (w : W)
        → start_workflow time clients (record args { app_id = app_id }) w ≡ (tool_error message, w)
    pub status :
        (args : InstanceArgs) (w : W)
        → get_workflow_status time clients (record args { app_id = app_id }) w
          ≡ (tool_error message, w)
    pub rerun :
        (args : RerunWorkflowArgs) (w : W)
        → ((rerun_workflow time clients (record args { app_id = app_id }) w).1 ≡ w)
          × ((rerun_workflow time clients (record args { app_id = app_id }) w).0.is_error ≡ true)
    pub pause :
        (args : ReasonArgs) (w : W)
        → pause_workflow time clients (record args { app_id = app_id }) w ≡ (tool_error message, w)
    pub resume :
        (args : ReasonArgs) (w : W)
        → resume_workflow time clients (record args { app_id = app_id }) w ≡ (tool_error message, w)
    pub terminate :
        (args : InstanceArgs) (w : W)
        → terminate_workflow time clients (record args { app_id = app_id }) w
          ≡ (tool_error message, w)
    pub raise :
        (args : RaiseWorkflowEventArgs) (w : W)
        → raise_workflow_event time clients (record args { app_id = app_id }) w
          ≡ (tool_error message, w)
    pub purge :
        (args : InstanceArgs) (w : W)
        → purge_workflow time clients (record args { app_id = app_id }) w ≡ (tool_error message, w)
    pub history :
        (args : InstanceArgs) (w : W)
        → get_workflow_history time clients (record args { app_id = app_id }) w
          ≡ (tool_error message, w)

  rerun_refused :
      (app_id message : String)
      → client_for clients app_id ≡ err message
      → (args : RerunWorkflowArgs) (w : W)
      → ((rerun_workflow time clients (record args { app_id = app_id }) w).1 ≡ w)
        × ((rerun_workflow time clients (record args { app_id = app_id }) w).0.is_error ≡ true)
  unfolding rerun_workflow
  rerun_refused id e h args w = elim (Option-cases (event_number args.event_id)) [
    | inl k ↦ rw k (refl, refl)
    | inr (n, k) ↦ rw k (rw h (refl, refl))
  ]

  -- An app-id that the registry refuses: every tool of one instance answers with an error and leaves
  -- the world unchanged. The error is the registry's; that of `rerun_workflow` may be about its event
  -- ID instead.
  pub IsRefused-of_client_for :
      (app_id message : String) → client_for clients app_id ≡ err message → IsRefused app_id message
  unfolding start_workflow get_workflow_status rerun_workflow pause_workflow resume_workflow
      terminate_workflow raise_workflow_event purge_workflow get_workflow_history
  IsRefused-of_client_for id e h = record {
    start = λ args w. rw h;
    status = λ args w. rw h;
    rerun = rerun_refused id e h;
    pause = λ args w. rw h;
    resume = λ args w. rw h;
    terminate = λ args w. rw h;
    raise = λ args w. rw h;
    purge = λ args w. rw h;
    history = λ args w. rw h;
  }

  -- With additional apps configured, a call of any of the nine tools of one instance that omits the
  -- app-id is refused, and the world is unchanged: no sidecar is called. The error lists the app-ids;
  -- that of `rerun_workflow` may be about its event ID instead.
  pub IsRefused-multi_app : multi_app clients ≡ true → IsRefused "" (app_id_required clients)
  unfolding client_for
  IsRefused-multi_app h = IsRefused-of_client_for "" (app_id_required clients) (rw h)

  pub rerun_workflow_range :
      (args : RerunWorkflowArgs) (n : ℕ) (w : W)
      → (args.event_id ≡ negsuc n) ⊎ ((args.event_id ≡ pos n) × (max_uint32 < n))
      → rerun_workflow time clients args w ≡ (tool_error (invalid_event args.event_id), w)
  unfolding rerun_workflow
  rerun_workflow_range args n w h = rw (out_of_range args.event_id n h)
