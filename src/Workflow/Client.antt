-- ===== src/Workflow/Client.antt =====
-- pkg/workflow/tools.go, the interface `WorkflowClient` and what crosses it. The clients are of
-- durabletask-go, so they are a parameter: a record of actions on the world.
use dapr_mcp.Base.{ℕ, ℤ, String, Option, List, Bool}
use dapr_mcp.Mcp.{Act}

-- An instant of package `time`, in nanoseconds from its zero.
abbrev pub Time : Type 0
Time = ℕ

-- `time.Parse` and `Time.Format` at the layout RFC 3339.
pub record TimeFormat : Type 0 where
  pub parse : String → Option Time
  pub print : Time → String

-- `wf.NewWorkflowOptions`, `wf.RerunOptions`, `wf.RaiseEventOptions`, `wf.ListInstanceIDsOptions`.
pub data StartOption : Type 0 where
  with_instance_id : String → StartOption
  with_raw_input : String → StartOption
  with_start_time : Time → StartOption

pub data RerunOption : Type 0 where
  with_new_instance_id : String → RerunOption
  with_raw_rerun_input : String → RerunOption

pub data RaiseOption : Type 0 where
  with_raw_event_data : String → RaiseOption

pub data ListOption : Type 0 where
  with_page_size : ℕ → ListOption
  with_continuation_token : String → ListOption

-- `protos.WorkflowMetadata` by its getters. A status is the name that the enumeration prints.
pub record Metadata : Type 0 where
  pub name : String
  pub runtime_status : String
  pub created_at : Option Time
  pub last_updated_at : Option Time
  pub custom_status : String
  pub output : String
  pub failure : Option String

-- The `eventType` oneof of `protos.HistoryEvent`, as far as `describeEvent` looks into it.
pub data Payload : Type 0 where
  execution_started : String → Payload
  execution_completed : String → Option String → Payload
  task_scheduled : String → Payload
  task_failed : String → Payload
  child_workflow_instance_created : String → Payload
  event_raised : String → Payload
  timer_created : Option Time → Payload
  other : Payload

-- `event_type` is the name of the field that is set in the oneof.
pub record HistoryEvent : Type 0 where
  pub event_id : ℤ
  pub timestamp : Option Time
  pub event_type : Option String
  pub payload : Payload

-- `protos.ListInstanceIDsResponse`.
pub record InstancePage : Type 0 where
  pub instance_ids : List String
  pub continuation_token : String

pub record WorkflowClient (W : Type 0) : Type 0 where
  pub schedule_workflow : String → List StartOption → Act W String
  pub fetch_workflow_metadata : String → Bool → Act W Metadata
  pub get_instance_history : String → Act W (List HistoryEvent)
  pub rerun_workflow_from_event : String → ℕ → List RerunOption → Act W String
  pub list_instance_ids : List ListOption → Act W InstancePage
  pub suspend_workflow : String → String → Act W (Unit {0})
  pub resume_workflow : String → String → Act W (Unit {0})
  pub terminate_workflow : String → Act W (Unit {0})
  pub raise_event : String → String → List RaiseOption → Act W (Unit {0})
  pub purge_workflow_state : String → Act W (Unit {0})
