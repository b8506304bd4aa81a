-- ===== src/Telemetry/Instruments.antt =====
-- pkg/telemetry/metrics.go: the creation of the instruments.
use dapr_mcp.Base.{String}
use dapr_mcp.Mcp.{Act, pure, ◌>>=◌}
use dapr_mcp.Telemetry.Metrics.{Instrument, invocations, errors, duration, in_progress}

-- `metric.Meter` of OpenTelemetry as far as it is used: each call takes a name, a description and a
-- unit.
pub record Meter (W I : Type 0) : Type 0 where
  pub int64_counter : String → String → String → Act W I
  pub float64_histogram : String → String → String → Act W I
  pub int64_up_down_counter : String → String → String → Act W I

-- `ToolMetrics`, beside its meter: the instrument of each kind.
abbrev pub ToolMetrics : Type 0 → Type 0
ToolMetrics I = Instrument → I

abbrev tool_metrics : {I : Type 0} → I → I → I → I → ToolMetrics I
tool_metrics i e d p invocations = i
tool_metrics i e d p errors = e
tool_metrics i e d p duration = d
tool_metrics i e d p in_progress = p

-- `NewToolMetrics`: it returns at the first instrument that cannot be made.
unfoldable pub new_tool_metrics : {W I : Type 0} → Meter W I → Act W (ToolMetrics I)
new_tool_metrics meter = do
  i ←
      meter.int64_counter "dapr-mcp-server.tool.invocations" "Total number of tool invocations"
        "{invocation}"
  e ←
      meter.int64_counter "dapr-mcp-server.tool.errors" "Total number of failed tool invocations"
        "{error}"
  d ←
      meter.float64_histogram "dapr-mcp-server.tool.duration"
        "Tool execution duration in milliseconds" "ms"
  p ←
      meter.int64_up_down_counter "dapr-mcp-server.tool.in_progress"
        "Number of tools currently executing" "{tool}"
  pure (tool_metrics i e d p)
