-- ===== src/Telemetry/Metrics.antt =====
-- pkg/telemetry/metrics.go: the counters of tool invocations and the timer that feeds them. A
-- duration and its clock are parameters.
pub mod Balance
use dapr_mcp.Base.{
  ℕ, String, Bool, true, false, Option, none, some, List, [], ◌∷◌, ◌++◌, Dict, ℤ, pos, negsuc,
  if◌then◌else◌, ◌==◌,
}

-- `ToolInvocation`.
pub record ToolInvocation : Type 0 where
  pub tool_name : String
  pub tool_package : String
  pub component_type : String
  pub outcome : String

-- The instruments of `ToolMetrics`, and one measurement: a number with its attributes.
pub data Instrument : Type 0 where
  invocations : Instrument
  errors : Instrument
  duration : Instrument
  in_progress : Instrument

pub record Measurement : Type 0 where
  pub instrument : Instrument
  pub value : ℤ
  pub attributes : Dict String

abbrev tool_attributes : String → String → Dict String
tool_attributes name pkg = ("tool.name", name) ∷ ("tool.package", pkg) ∷ []

abbrev attribute_if : String → String → Dict String
attribute_if key value = if value == "" then [] else (key, value) ∷ []

-- Each operation hands one measurement to OpenTelemetry.
abbrev pub record_invocation : ToolInvocation → Measurement
record_invocation inv = record {
  instrument = invocations;
  value = pos 1;
  attributes =
      tool_attributes inv.tool_name inv.tool_package
      ++ attribute_if "dapr.component.type" inv.component_type
      ++ attribute_if "outcome" inv.outcome;
}

abbrev pub record_error : ToolInvocation → String → Measurement
record_error inv type = record {
  instrument = errors;
  value = pos 1;
  attributes =
      tool_attributes inv.tool_name inv.tool_package
      ++ ("error.type", type) ∷ attribute_if "dapr.component.type" inv.component_type;
}

abbrev pub record_duration : ToolInvocation → ℤ → Measurement
record_duration inv ms = record {
  instrument = duration;
  value = ms;
  attributes =
      tool_attributes inv.tool_name inv.tool_package
      ++ attribute_if "dapr.component.type" inv.component_type
      ++ attribute_if "outcome" inv.outcome;
}

abbrev pub start_in_progress : String → String → Measurement
start_in_progress name pkg = record {
  instrument = in_progress;
  value = pos 1;
  attributes = tool_attributes name pkg;
}

abbrev pub end_in_progress : String → String → Measurement
end_in_progress name pkg = record {
  instrument = in_progress;
  value = negsuc 0;
  attributes = tool_attributes name pkg;
}

-- `Timer`, its start in milliseconds.
pub record Timer : Type 0 where
  pub start : ℤ
  pub inv : ToolInvocation

-- `StartTimer` at the time `now`: the timer, and what is measured.
unfoldable pub start_timer : ℤ → String → String → Timer × List Measurement
start_timer now name pkg = (
  record {
    start = now;
    inv = record { tool_name = name; tool_package = pkg; component_type = ""; outcome = "" };
  },
  start_in_progress name pkg ∷ [],
)

-- `Stop`, after `elapsed` milliseconds: the timer with the outcome, and what is measured.
unfoldable pub stop_timer : Timer → ℤ → String → String → Timer × List Measurement
stop_timer t elapsed outcome component_type =
    let inv = record t.inv { outcome = outcome; component_type = component_type } in
    (
      record t { inv = inv },
      record_invocation inv
          ∷ record_duration inv elapsed
          ∷ end_in_progress inv.tool_name inv.tool_package
          ∷ (if outcome == "error" then record_error inv "execution_error" ∷ [] else []),
    )
