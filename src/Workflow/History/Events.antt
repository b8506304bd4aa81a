-- ===== src/Workflow/History/Events.antt =====
-- What `get_workflow_history` reports of the events.
use mathlib.Core.Option
use dapr_mcp.Base.{
  suc, pos, false, some, List, [], ◌∷◌, ◌++◌, length, Dict, lookup, Result, ok, err, none, String,
  Option, true, trim_prefix, if◌then◌else◌, ◌==◌, ◌+++◌, ◌≡◌, refl, ap, arith,
}
use dapr_mcp.Mcp.{
  Scalar, text, number, entry_if, unless_empty, ToolResult, Value, rows, text_value, number_value,
  object,
}
use dapr_mcp.Workflow.Client.{
  Time, TimeFormat, HistoryEvent, Payload, execution_started, execution_completed, task_scheduled,
  task_failed, child_workflow_instance_created, event_raised, timer_created, other,
}
use dapr_mcp.Workflow.Registry.{Registry, Target, client_for}
use dapr_mcp.Workflow.Instance.{InstanceArgs, status_name}
use dapr_mcp.Workflow.History.{
  or_unknown, event_detail, describe_event, event_row, event_rows, history_result,
  get_workflow_history,
}

length-event_rows :
    (time : TimeFormat) (evs : List HistoryEvent) → length (event_rows time evs) ≡ length evs
unfolding event_rows
length-event_rows time [] = refl
length-event_rows time (ev ∷ evs) = ap suc (length-event_rows time evs)

-- The detail of an event, by its kind.
pub data IsDetail (time : TimeFormat) : Payload → String → Type 0 where
  for_start : (name : String) → IsDetail time (execution_started name) ("workflow: " +++ name)
  for_end :
      (status : String)
      → IsDetail time (execution_completed status none) (trim_prefix status "ORCHESTRATION_STATUS_")
  for_failed_end :
      (status failure : String)
      → IsDetail time
          (execution_completed status (some failure))
          (trim_prefix status "ORCHESTRATION_STATUS_" +++ (": " +++ failure))
  for_task : (name : String) → IsDetail time (task_scheduled name) ("activity: " +++ name)
  for_failed_task : (message : String) → IsDetail time (task_failed message) ("error: " +++ message)
  for_child :
      (name : String)
      → IsDetail time (child_workflow_instance_created name) ("child workflow: " +++ name)
  for_event : (name : String) → IsDetail time (event_raised name) ("event: " +++ name)
  for_timer : (t : Time) → IsDetail time (timer_created (some t)) ("fires at: " +++ time.print t)
  for_endless_timer : IsDetail time (timer_created none) ""
  for_other : IsDetail time other ""

IsDetail-event_detail :
    (time : TimeFormat) (payload : Payload) → IsDetail time payload (event_detail time payload)
unfolding event_detail status_name
IsDetail-event_detail time (execution_started name) = for_start name
IsDetail-event_detail time (execution_completed status none) = for_end status
IsDetail-event_detail time (execution_completed status (some failure)) =
    for_failed_end status failure
IsDetail-event_detail time (task_scheduled name) = for_task name
IsDetail-event_detail time (task_failed message) = for_failed_task message
IsDetail-event_detail time (child_workflow_instance_created name) = for_child name
IsDetail-event_detail time (event_raised name) = for_event name
IsDetail-event_detail time (timer_created none) = for_endless_timer
IsDetail-event_detail time (timer_created (some t)) = for_timer t
IsDetail-event_detail time other = for_other

abbrev type_name : Option String → String
type_name none = "unknown"
type_name (some name) = name

-- What the row of an event holds at each key; a detail that is empty has no entry.
pub record IsRow (time : TimeFormat) (ev : HistoryEvent) (row : Dict Scalar) : Type 0 where
  pub detail : String
  pub is_detail : IsDetail time ev.payload detail
  pub at_id : lookup "event_id" row ≡ some (number ev.event_id)
  pub at_type : lookup "type" row ≡ some (text (type_name ev.event_type))
  pub at_time : lookup "timestamp" row ≡ Option.map (λ t. text (time.print t)) ev.timestamp
  pub at_detail : lookup "detail" row ≡ (if detail == "" then none else some (text detail))

type_written : (o : Option String) → or_unknown o ≡ type_name o
type_written none = refl
type_written (some name) = refl

abbrev optional_entries : Option Scalar → String → Dict Scalar
optional_entries o detail =
    entry_if "timestamp" o ++ entry_if "detail" (Option.map text (unless_empty detail))

lookup_timestamp :
    (o : Option Scalar) (detail : String) → lookup "timestamp" (optional_entries o detail) ≡ o
lookup_timestamp none detail = ground arith
lookup_timestamp (some v) detail = refl

lookup_detail :
    (o : Option Scalar) (detail : String)
    → lookup "detail" (optional_entries o detail)
      ≡ (if detail == "" then none else some (text detail))
lookup_detail none detail = ground arith
lookup_detail (some v) detail = ground arith

IsRow-event_row : (time : TimeFormat) (ev : HistoryEvent) → IsRow time ev (event_row time ev)
unfolding event_row describe_event
IsRow-event_row time ev = record {
  detail = event_detail time ev.payload;
  is_detail = IsDetail-event_detail time ev.payload;
  at_id = refl;
  at_type = ap (λ name. some (text name)) (type_written ev.event_type);
  at_time = lookup_timestamp _ (event_detail time ev.payload);
  at_detail = lookup_detail _ (event_detail time ev.payload);
}

-- One thing for each element of a list, in its order.
pub data Each {A B : Type 0} (P : A → B → Type 0) : List A → List B → Type 0 where
  none_left : Each P [] []
  one_more :
      (x : A) (xs : List A) (y : B) (ys : List B) → P x y → Each P xs ys → Each P (x ∷ xs) (y ∷ ys)

Each-event_rows :
    (time : TimeFormat) (evs : List HistoryEvent) → Each (IsRow time) evs (event_rows time evs)
unfolding event_rows
Each-event_rows time [] = none_left
Each-event_rows time (ev ∷ evs) =
    one_more ev evs (event_row time ev) (event_rows time evs) (IsRow-event_row time ev)
      (Each-event_rows time evs)

-- The structured result of a history: the app and the instance, a count, and one row for each
-- event, in their order.
pub record Reports (time : TimeFormat) (app id : String) (evs : List HistoryEvent) (r : ToolResult)
    : Type 0 where
  pub entries : Dict Value
  pub events : List (Dict Scalar)
  pub structured : r.structured ≡ some (object entries)
  pub of_app : lookup "app_id" entries ≡ some (text_value app)
  pub of_instance : lookup "instance_id" entries ≡ some (text_value id)
  pub count : lookup "count" entries ≡ some (number_value (pos (length evs)))
  pub table : lookup "events" entries ≡ some (rows events)
  pub each : Each (IsRow time) evs events

module _ {W : Type 0} (time : TimeFormat) (clients : Registry W) (t : Target W) where
  -- The outcome for what the sidecar answers.
  abbrev pub Outcome : String → Result String (List HistoryEvent) × W → ToolResult × W → Type 0
  Outcome id (ok evs, w) r = Reports time t.app_id id evs r.0 × (r.0.is_error ≡ false) × (r.1 ≡ w)
  Outcome id (err e, w) r = (r.0.is_error ≡ true) × (r.0.structured ≡ none) × (r.1 ≡ w)

  outcome :
      (args : InstanceArgs) (w : W) (x : Result String (List HistoryEvent) × W)
      → client_for clients args.app_id ≡ ok t
      → t.client.get_instance_history args.instance_id w ≡ x
      → Outcome args.instance_id x (get_workflow_history time clients args w)
  unfolding get_workflow_history history_result
  outcome args w (ok evs, w') h e =
      rw (h, e)
        (
          record {
            entries = _;
            events = event_rows time evs;
            structured = refl;
            of_app = refl;
            of_instance = refl;
            count = ap (λ n. some (number_value (pos n))) (length-event_rows time evs);
            table = refl;
            each = Each-event_rows time evs;
          },
          refl,
          refl,
        )
  outcome args w (err m, w') h e = rw (h, e) (refl, refl, refl)

  -- If the app-id is served, the sidecar is asked once. If it answers with a history, the tool
  -- succeeds, and its result names the app and the instance, counts the events and has one row for
  -- each, in their order, with the ID of the event, its type, its time if it has one, and the detail
  -- of its kind if that is not empty. If the sidecar fails, the tool reports an error without a
  -- result.
  pub get_workflow_history-Reports :
      (args : InstanceArgs) (w : W)
      → client_for clients args.app_id ≡ ok t
      → Outcome args.instance_id
          (t.client.get_instance_history args.instance_id w)
          (get_workflow_history time clients args w)
  get_workflow_history-Reports args w h =
      outcome args w (t.client.get_instance_history args.instance_id w) h refl
