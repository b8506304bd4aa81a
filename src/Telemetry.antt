-- ===== src/Telemetry.antt =====
-- pkg/telemetry/telemetry.go: the configuration of OpenTelemetry, its start and its end. Of the
-- logger, the level is modelled.
pub mod Logs
pub mod Instruments
pub mod Headers
pub mod Shutdown
pub mod Metrics
pub mod Middleware
use dapr_mcp.Base.{
  String, Bool, true, false, not, ◌&&◌, ◌||◌, Option, none, some, List, [], ◌∷◌, ◌++◌, Dict, insert,
  if◌then◌else◌, ◌==◌, ◌+++◌, Result, ok, err, split, cut, trim_space, trim_prefix, has_prefix,
}
use dapr_mcp.Mcp.{Act}

pub record Config : Type 0 where
  pub service_name : String
  pub service_version : String
  pub endpoint : String
  pub protocol : String
  pub headers : Dict String
  pub metrics_enabled : Bool
  pub logs_enabled : Bool

abbrev pub add_header : String × String × Bool → Dict String → Dict String
add_header (key, value, true) headers = insert (trim_space key) (trim_space value) headers
add_header (key, value, false) headers = headers

-- The loop of `parseHeaders`; `SplitN` by the first `=` has two parts if there is one.
unfoldable pub add_headers : List String → Dict String → Dict String
add_headers [] headers = headers
add_headers (pair ∷ pairs) headers = add_headers pairs (add_header (cut b'=' pair) headers)

-- `parseHeaders`.
unfoldable pub parse_headers : String → Dict String
unfolding add_headers
parse_headers raw = if raw == "" then [] else add_headers (split b',' raw) []

-- The first text that is not empty.
abbrev pub or_else : String → String → String
or_else s t = if s == "" then t else s

-- `DefaultConfig`, for `os.Getenv`.
unfoldable pub default_config : (String → String) → Config
unfolding parse_headers
default_config getenv = record {
  service_name = or_else (getenv "OTEL_SERVICE_NAME") "dapr-mcp-server";
  service_version = or_else (getenv "OTEL_SERVICE_VERSION") "v1.0.0";
  endpoint =
      or_else (getenv "OTEL_EXPORTER_OTLP_TRACES_ENDPOINT") (getenv "OTEL_EXPORTER_OTLP_ENDPOINT");
  protocol =
      or_else
        (or_else (getenv "OTEL_EXPORTER_OTLP_TRACES_PROTOCOL")
          (getenv "OTEL_EXPORTER_OTLP_PROTOCOL"))
        "grpc";
  headers = parse_headers (getenv "OTEL_EXPORTER_OTLP_HEADERS");
  metrics_enabled = not (getenv "DAPR_MCP_SERVER_METRICS_ENABLED" == "false");
  logs_enabled = not (getenv "DAPR_MCP_SERVER_LOGS_OTEL_ENABLED" == "false");
}

-- An endpoint without its scheme, and one with a scheme.
unfoldable pub clean_endpoint : String → String
clean_endpoint endpoint = trim_prefix (trim_prefix endpoint "http://") "https://"

unfoldable pub http_endpoint : String → String
http_endpoint endpoint =
    if not (has_prefix endpoint "http://") && not (has_prefix endpoint "https://")
    then "http://" +++ endpoint
    else endpoint

-- The `Shutdown` of a provider: an error, if there is one.
abbrev pub Shutdown : Type 0 → Type 0
Shutdown W = W → Option String × W

-- What the program uses of OpenTelemetry, for a type `P` of providers. A new exporter is given an
-- endpoint and headers; the provider over it has a `Shutdown`, and is set for the whole process.
pub record Otel (W P : Type 0) : Type 0 where
  pub set_propagator : W → W
  pub new_trace_grpc : String → Dict String → Act W P
  pub new_trace_http : String → Dict String → Act W P
  pub new_metric_grpc : String → Dict String → Act W P
  pub set_tracer_provider : P → W → W
  pub set_meter_provider : P → W → W
  pub stop : P → Shutdown W

-- `Telemetry`: the providers, if they are started, and the functions to run at the end.
pub record Telemetry (W P : Type 0) : Type 0 where
  pub tracer_provider : Option P
  pub meter_provider : Option P
  pub shutdown : List (Shutdown W)

abbrev pub no_telemetry : {W P : Type 0} → Telemetry W P
no_telemetry = record { tracer_provider = none; meter_provider = none; shutdown = [] }

module _ {W P : Type 0} (otel : Otel W P) where
  -- The `switch` over the protocol.
  unfoldable pub new_exporter : Config → Act W P
  unfolding clean_endpoint http_endpoint
  new_exporter cfg w =
      if cfg.protocol == "grpc"
      then otel.new_trace_grpc (clean_endpoint cfg.endpoint) cfg.headers w
      else if cfg.protocol == "http/protobuf" || cfg.protocol == "http/json"
      then otel.new_trace_http (http_endpoint cfg.endpoint) cfg.headers w
      else otel.new_trace_grpc (clean_endpoint cfg.endpoint) cfg.headers w

  abbrev pub with_tracer : Telemetry W P → Result String P × W → Result String (Telemetry W P) × W
  with_tracer t (err e, w) = (err e, w)
  with_tracer t (ok p, w) = (
    ok (record t { tracer_provider = some p; shutdown = t.shutdown ++ otel.stop p ∷ [] }),
    otel.set_tracer_provider p w,
  )

  unfoldable pub init_tracer : Telemetry W P → Config → Act W (Telemetry W P)
  unfolding new_exporter
  init_tracer t cfg w = with_tracer t (new_exporter cfg w)

  abbrev pub with_meter : Telemetry W P → Result String P × W → Result String (Telemetry W P) × W
  with_meter t (err e, w) = (err e, w)
  with_meter t (ok p, w) = (
    ok (record t { meter_provider = some p; shutdown = t.shutdown ++ otel.stop p ∷ [] }),
    otel.set_meter_provider p w,
  )

  unfoldable pub init_metrics : (String → String) → Telemetry W P → Config → Act W (Telemetry W P)
  unfolding clean_endpoint
  init_metrics getenv t cfg w = with_meter t (
      otel.new_metric_grpc
        (clean_endpoint (or_else (getenv "OTEL_EXPORTER_OTLP_METRICS_ENDPOINT") cfg.endpoint))
        cfg.headers w)

  -- A failure of the metrics is logged, and the start goes on without them.
  abbrev pub or_without :
      Telemetry W P → Result String (Telemetry W P) × W → Result String (Telemetry W P) × W
  or_without t (ok t', w) = (ok t', w)
  or_without t (err e, w) = (ok t, w)

  abbrev pub then_metrics :
      (String → String)
      → Config
      → Result String (Telemetry W P) × W
      → Result String (Telemetry W P) × W
  then_metrics getenv cfg (err e, w) = (err e, w)
  then_metrics getenv cfg (ok t, w) =
      if cfg.metrics_enabled then or_without t (init_metrics getenv t cfg w) else (ok t, w)

  -- `Init`.
  unfoldable pub init : (String → String) → Config → Act W (Telemetry W P)
  unfolding init_tracer
  init getenv cfg w =
      if cfg.endpoint == ""
      then (ok no_telemetry, otel.set_propagator w)
      else then_metrics getenv cfg (init_tracer no_telemetry cfg (otel.set_propagator w))

-- The last error so far, after one more function.
abbrev pub note_error : Option String → Option String → Option String
note_error last none = last
note_error last (some e) = some e

-- The loop of `Shutdown`.
unfoldable pub shut_down_from :
    {W : Type 0} → List (Shutdown W) → Option String → W → Option String × W
shut_down_from [] last w = (last, w)
shut_down_from (stop ∷ stops) last w =
    let (e, w') = stop w in shut_down_from stops (note_error last e) w'

module _ {W P : Type 0} where
  unfoldable pub shut_down : Telemetry W P → W → Option String × W
  unfolding shut_down_from
  shut_down t w = shut_down_from t.shutdown none w

  -- `Initialize`: the shutdown function of the started telemetry.
  abbrev pub shutdown_of : Result String (Telemetry W P) × W → Result String (Shutdown W) × W
  shutdown_of (ok t, w) = (ok (shut_down t), w)
  shutdown_of (err e, w) = (err e, w)

  unfoldable pub initialize : Otel W P → (String → String) → Act W (Shutdown W)
  unfolding default_config init
  initialize otel getenv w = shutdown_of (init otel getenv (default_config getenv) w)
