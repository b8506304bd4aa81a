-- ===== src/Examples/Main.antt =====
-- `main` of cmd/dapr-mcp-server at a concrete input. The world is a log.
use dapr_mcp.Base.{String, false, none, [], ◌∷◌, ok, err, ◌≡◌, split, cut, trim_space, to_lower}
use dapr_mcp.Mcp.{Act}
use dapr_mcp.Auth.Config.{Environment, default_config, validate}
use dapr_mcp.Auth.Middleware.{Handler}
use dapr_mcp.Health as Health
use dapr_mcp.Metadata.{get_live_component_list}
use dapr_mcp.Telemetry.{Shutdown}
use dapr_mcp.Telemetry.Instruments.{Meter, new_tool_metrics}
use dapr_mcp.Workflow.Config.{parse_apps_config}
use dapr_mcp.Server.Authentication.{Constructors}
use dapr_mcp.Server.Connect.{connect_with_retry, initialize_workflow_apps}
use dapr_mcp.Server.Start.{start, protect}
use dapr_mcp.Server.Http.{http, http_server}
use dapr_mcp.Server.Main.{exited, Serving, main}
use dapr_mcp.Server.Main.Deferred.{main-exited}
use dapr_mcp.Examples.Workflow.{Log, logged}
use dapr_mcp.Examples.Server.{outside}

abbrev no_auth : Constructors Log
no_auth = record {
  new_oidc = λ c w. (err "none", w);
  new_spiffe = λ c w. (err "none", w);
  new_dapr_sentry = λ c w. (err "none", w);
}

abbrev mcp : Handler Log
mcp r w = (record { status = 200; body = "" }, w)

-- The HTTP server ends at once, its address is in use.
abbrev serving : Serving Log
serving = record {
  set_propagator = λ w. w;
  failure_text = λ f. "";
  lower = λ c. "";
  make = no_auth;
  prop = record { extract = λ header w. w; inject = λ w. w };
  encode = λ reply. record { status = reply.code; body = "" };
  health = Health.new_handler none (λ v w. "0s") "v1";
  mcp = λ started stateless. mcp;
  listen_and_serve = λ addr routes w. ("address in use", addr ∷ w);
  run_stdio = λ started w. (none, w);
}

abbrev meter : Meter Log String
meter = record {
  int64_counter = λ name description unit. logged name name;
  float64_histogram = λ name description unit w. (err "no histogram", w);
  int64_up_down_counter = λ name description unit. logged name name;
}

abbrev unset : Environment
unset = record { getenv = λ name. ""; lower = λ c. ""; parse_duration = λ s. none }

-- Telemetry whose shutdown would be logged.
abbrev telemetry : Act Log (Shutdown Log)
telemetry w = (ok (λ v. (none, "shut down" ∷ v)), w)

main-exited_example :
    main outside serving meter unset (http ":8080" false) telemetry []
    ≡ (exited, ":8080" ∷ "dapr-mcp-server.tool.invocations" ∷ "dapr-mcp-server.tool.errors" ∷ [])
unfolding start new_tool_metrics initialize_workflow_apps connect_with_retry parse_apps_config split
    cut trim_space get_live_component_list http_server protect validate default_config to_lower
main-exited_example = main-exited outside serving meter unset ":8080" false telemetry []
