-- ===== src/Examples/Telemetry.antt =====
-- pkg/telemetry at concrete inputs: providers that are named by a number, which a log keeps.
use dapr_mcp.Base.{
  if◌then◌else◌, nat_eq, ◌==◌, String, ℕ, none, some, List, [], ◌∷◌, ◌++◌, pos, ok, refl, arith,
}
use dapr_mcp.Telemetry.{Otel, initialize}
use dapr_mcp.Telemetry.Shutdown.{TracksProviders, EndsAll, initialize-EndsAll}
use dapr_mcp.Telemetry.Metrics.{Timer, start_timer, stop_timer}
use dapr_mcp.Telemetry.Metrics.Balance.{
  Run, starts, stops, done, next, IsBalanced, IsBalanced-Steps,
}

-- Providers are numbers; the world lists those that are set, and the second one fails to stop.
abbrev numbered : Otel (List ℕ) ℕ
numbered = record {
  set_propagator = λ w. w;
  new_trace_grpc = λ endpoint headers w. (ok 1, w);
  new_trace_http = λ endpoint headers w. (ok 1, w);
  new_metric_grpc = λ endpoint headers w. (ok 2, w);
  set_tracer_provider = λ p w. w ++ p ∷ [];
  set_meter_provider = λ p w. w ++ p ∷ [];
  stop = λ p w. (if nat_eq p 2 then some "busy" else none, w);
}

numbered-TracksProviders : TracksProviders numbered (λ w. w)
numbered-TracksProviders = record {
  propagator = λ w. refl;
  trace_grpc = λ endpoint headers w. refl;
  trace_http = λ endpoint headers w. refl;
  metric_grpc = λ endpoint headers w. refl;
  tracer = λ p w. refl;
  meter = λ p w. refl;
}

abbrev environment : String → String
environment key = if key == "OTEL_EXPORTER_OTLP_ENDPOINT" then "http://otel:4317" else ""

initialize-EndsAll_example :
    EndsAll numbered (λ w. w) numbered-TracksProviders [] (initialize numbered environment [])
initialize-EndsAll_example =
    initialize-EndsAll numbered (λ w. w) numbered-TracksProviders environment []

abbrev idle : Run
idle = record { running = []; stopping = []; log = [] }

abbrev timer : Timer
timer = (start_timer (pos 0) "get_state" "state").0

abbrev one_running : Run
one_running = record {
  running = timer ∷ [];
  stopping = [];
  log = (start_timer (pos 0) "get_state" "state").1;
}

-- The timer is stopped after 5 milliseconds, and nothing is measured yet.
abbrev one_stopping : Run
one_stopping = record {
  running = [];
  stopping = (stop_timer timer (pos 5) "error" "").1 ∷ [];
  log = one_running.log;
}

IsBalanced-Steps_example : IsBalanced "get_state" "state" one_stopping
IsBalanced-Steps_example =
    IsBalanced-Steps "get_state" "state" idle one_stopping
      (next idle one_running one_stopping (starts idle (pos 0) "get_state" "state") (
        next one_running one_stopping one_stopping
          (stops [] [] timer [] one_running.log (pos 5) "error" "") (done one_stopping)))
      (record {
        level = refl;
        invocations_eq = refl;
        ends_le = omega arith;
        failures_le = omega arith;
        in_order = tt;
      })
