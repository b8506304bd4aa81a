-- ===== src/Server/Main.antt =====
-- cmd/dapr-mcp-server/main.go: `main` from the start of telemetry to its end, and what is deferred.
pub mod Deferred
use dapr_mcp.Base.{
  ℕ, String, Bool, true, false, Option, none, some, List, [], ◌∷◌, if◌then◌else◌, Result, ok, err,
  ◌==◌,
}
use dapr_mcp.Mcp.{Act}
use dapr_mcp.Auth.{Failure}
use dapr_mcp.Auth.Config.{Environment, default_config}
use dapr_mcp.Auth.Middleware.{Response, Handler}
use dapr_mcp.Health.{Reply}
use dapr_mcp.Health as Health
use dapr_mcp.Telemetry.{Shutdown}
use dapr_mcp.Telemetry.Instruments.{Meter, new_tool_metrics}
use dapr_mcp.Server.Authentication.{Constructors}
use dapr_mcp.Server.Start.{Outside, Started, start}
use dapr_mcp.Server.Http.{Propagator, Route, Transport, http, stdio, transport, http_server}

-- How the process ends: by `os.Exit(1)`, which runs no deferred function, or by the return of
-- `main`, after the deferred ones.
pub data Exit : Type 0 where
  exited : Exit
  returned : Exit

-- What `main` hands to its servers. `ListenAndServe` returns only with an error; `server.Run` over
-- stdio may return none.
pub record Serving (W : Type 0) : Type 0 where
  pub set_propagator : W → W
  pub failure_text : Failure → String
  pub lower : ℕ → String
  pub make : Constructors W
  pub prop : Propagator W
  pub encode : Reply → Response
  pub health : Health.Handler W
  pub mcp : Started W → Bool → Handler W
  pub listen_and_serve : String → List (Route W) → W → String × W
  pub run_stdio : Started W → W → Option String × W

-- The deferred shutdown; its error is only logged.
abbrev pub then_deferred : {W : Type 0} → Shutdown W → Exit × W → Exit × W
then_deferred stop (exited, w) = (exited, w)
then_deferred stop (returned, w) = let (e, w') = stop w in (returned, w')

module _ {W C I : Type 0} (out : Outside W C) (s : Serving W) (meter : Meter W I)
    (env : Environment) (t : Transport) where
  abbrev listened : String × W → Exit × W
  listened (e, w) = (exited, w)

  abbrev pub with_routes : String → Result String (List (Route W)) × W → Exit × W
  with_routes addr (err e, w) = (exited, w)
  with_routes addr (ok routes, w) = listened (s.listen_and_serve addr routes w)

  abbrev stdio_ended : Option String × W → Exit × W
  stdio_ended (none, w) = (returned, w)
  stdio_ended (some e, w) = (exited, w)

  abbrev serve_over : Transport → Started W → W → Exit × W
  serve_over (http addr stateless) started w = with_routes addr (
      http_server s.failure_text s.lower s.make (default_config env) s.prop s.encode s.health
        (s.mcp started stateless) w)
  serve_over stdio started w = stdio_ended (s.run_stdio started w)

  abbrev pub when_started : Result String (Started W) × W → Exit × W
  when_started (err e, w) = (exited, w)
  when_started (ok started, w) = serve_over t started w

  -- `main` after the start of telemetry. An error of the metrics is only logged.
  abbrev pub after_telemetry : W → Exit × W
  after_telemetry w =
      let (metrics, w') = new_tool_metrics meter w in when_started (start out (s.set_propagator w'))

  abbrev pub with_telemetry : Result String (Shutdown W) × W → Exit × W
  with_telemetry (err e, w) = after_telemetry w
  with_telemetry (ok stop, w) = then_deferred stop (after_telemetry w)

  -- `main`; a failure of telemetry is only logged.
  unfoldable pub main : Act W (Shutdown W) → W → Exit × W
  main initialize w = with_telemetry (initialize w)
