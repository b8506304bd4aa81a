-- ===== src/Server/Main/Deferred.antt =====
-- When the deferred shutdown of telemetry runs.
use dapr_mcp.Base.{String, Bool, none, List, Result, ok, err, ◌≡◌, refl, ap}
use dapr_mcp.Mcp.{Act}
use dapr_mcp.Auth.Config.{Environment, default_config}
use dapr_mcp.Telemetry.{Shutdown}
use dapr_mcp.Telemetry.Instruments.{Meter, new_tool_metrics}
use dapr_mcp.Server.Start.{Outside, Started, start}
use dapr_mcp.Server.Http.{Route, http, stdio, http_server}
use dapr_mcp.Server.Main.{
  exited, returned, Serving, after_telemetry, then_deferred, when_started, with_routes,
  with_telemetry, main,
}

module _ {W C I : Type 0} (out : Outside W C) (s : Serving W) (meter : Meter W I)
    (env : Environment) where
  module _ (addr : String) (stateless : Bool) where
    with_routes_exited :
        (p : Result String (List (Route W)) × W)
        → (with_routes out s meter env (http addr stateless) addr p).0 ≡ exited
    with_routes_exited (err e, w) = refl
    with_routes_exited (ok routes, w) = refl

    when_started_exited :
        (p : Result String (Started W) × W)
        → (when_started out s meter env (http addr stateless) p).0 ≡ exited
    when_started_exited (err e, w) = refl
    when_started_exited (ok started, w) = with_routes_exited (
        http_server s.failure_text s.lower s.make (default_config env) s.prop s.encode s.health
          (s.mcp started stateless) w)

    after_telemetry_exited :
        (w : W)
        → after_telemetry out s meter env (http addr stateless) w
          ≡ (exited, (after_telemetry out s meter env (http addr stateless) w).1)
    after_telemetry_exited w =
        ap (λ e. (e, (after_telemetry out s meter env (http addr stateless) w).1))
          (when_started_exited (start out (s.set_propagator (new_tool_metrics meter w).1)))

    with_telemetry_exited :
        (p : Result String (Shutdown W) × W)
        → with_telemetry out s meter env (http addr stateless) p
          ≡ (exited, (after_telemetry out s meter env (http addr stateless) p.1).1)
    with_telemetry_exited (err e, w) = after_telemetry_exited w
    with_telemetry_exited (ok stop, w) = ap (then_deferred stop) (after_telemetry_exited w)

    -- Over HTTP the process always ends by `os.Exit(1)`, in the world that the start and the servers
    -- leave: a shutdown of telemetry that `initialize` has returned is not run.
    pub main-exited :
        (initialize : Act W (Shutdown W)) (w : W)
        → main out s meter env (http addr stateless) initialize w
          ≡ (exited, (after_telemetry out s meter env (http addr stateless) (initialize w).1).1)
    unfolding main
    main-exited initialize w = with_telemetry_exited (initialize w)

  -- Over stdio, where the start succeeds and the server ends without an error, `main` returns, and
  -- the deferred shutdown is run last.
  main-returned :
      (initialize : Act W (Shutdown W)) (stop : Shutdown W) (started : Started W) (w a b v : W)
      → initialize w ≡ (ok stop, a)
      → start out (s.set_propagator (new_tool_metrics meter a).1) ≡ (ok started, b)
      → s.run_stdio started b ≡ (none, v)
      → main out s meter env stdio initialize w ≡ (returned, (stop v).1)
  unfolding main
  main-returned initialize stop started w a b v h k l = rw (h, k, l) refl
