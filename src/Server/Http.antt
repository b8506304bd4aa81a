-- ===== src/Server/Http.antt =====
-- cmd/dapr-mcp-server/main.go: the HTTP server, with the health endpoints, the subscriptions of Dapr
-- and the MCP endpoint behind telemetry and authentication; and pkg/telemetry/middleware.go,
-- HTTPMiddleware.
pub mod Routes
use dapr_mcp.Base.{
  ℕ, suc, ◌+◌, String, Bool, true, false, ◌||◌, Option, none, some, List, [], ◌∷◌, if◌then◌else◌,
  ltb, has_prefix, has_suffix, Result, ok, err, ◌==◌,
}
use dapr_mcp.Auth.Middleware.{Request, Response, Handler, http_error}
use dapr_mcp.Mcp.{Act, pure, ◌>>=◌}
use dapr_mcp.Auth.{Failure}
use dapr_mcp.Auth.Config.{AuthConfig}
use dapr_mcp.Server.Authentication.{Constructors}
use dapr_mcp.Server.Start.{protect}
use dapr_mcp.Health.{Reply, liveness, readiness, startup}
use dapr_mcp.Health as Health

-- The propagator of OpenTelemetry. The trace context of a request and the headers of its response
-- are part of the world: `extract` reads the context from the request's headers, `inject` writes it
-- to the response's.
pub record Propagator (W : Type 0) : Type 0 where
  pub extract : (String → String) → W → W
  pub inject : W → W

-- A pattern of `http.ServeMux` with its handler. A pattern that ends in a slash matches every path
-- that begins with it, any other only itself; the longest pattern that matches is chosen. Paths are
-- clean here: the mux redirects others to their clean form.
pub record Route (W : Type 0) : Type 0 where
  pub pattern : String
  pub handler : Handler W

abbrev size : String → ℕ
size String.[] = 0
size (String.◌∷◌ c s) = suc (size s)

unfoldable pub matches : String → String → Bool
matches pattern path = if has_suffix pattern "/" then has_prefix path pattern else path == pattern

module _ {W : Type 0} where
  abbrev longer : Route W → Option (Route W) → Route W
  longer r none = r
  longer r (some s) = if ltb (size s.pattern) (size r.pattern) then r else s

  unfoldable pub best_match : List (Route W) → String → Option (Route W)
  unfolding matches
  best_match [] path = none
  best_match (r ∷ rs) path =
      let rest = best_match rs path in if matches r.pattern path then some (longer r rest) else rest

  abbrev serve_by : Option (Route W) → Handler W
  serve_by none r w = (http_error "404 page not found" 404, w)
  serve_by (some route) r w = route.handler r w

  -- `mux.ServeHTTP`.
  unfoldable pub serve : List (Route W) → Handler W
  unfolding best_match
  serve routes r w = serve_by (best_match routes r.path) r w

  -- `HTTPMiddleware`.
  abbrev pub http_middleware : Propagator W → Handler W → Handler W
  http_middleware prop next r w = next r (prop.inject (prop.extract r.header w))

  -- The function around the MCP handler, which does the same once more.
  abbrev pub mcp_endpoint : Propagator W → Handler W → Handler W
  mcp_endpoint prop mcp r w = mcp r (prop.inject (prop.extract r.header w))

module _ {W : Type 0} (encode : Reply → Response) (health : Health.Handler W) where
  abbrev pub encoded : Reply × W → Response × W
  encoded (reply, w) = (encode reply, w)

  -- The routes in the order in which `main` registers them; `wrapped` is the MCP handler behind the
  -- middlewares.
  abbrev pub http_routes : Handler W → List (Route W)
  http_routes wrapped =
      record { pattern = "/livez"; handler = λ r w. encoded (liveness health w) }
      ∷ record { pattern = "/readyz"; handler = λ r w. encoded (readiness health w) }
      ∷ record { pattern = "/startupz"; handler = λ r w. encoded (startup health w) }
      ∷ record {
        pattern = "/dapr/subscribe";
        handler = λ r w. (record { status = 200; body = "[]" }, w);
      }
      ∷ record { pattern = "/"; handler = wrapped }
      ∷ []

-- The HTTP server of `main`: its routes, once the authentication is set up.
module _ {W : Type 0} (text : Failure → String) (lower : ℕ → String) (make : Constructors W)
    (cfg : AuthConfig) (prop : Propagator W) (encode : Reply → Response) (health : Health.Handler W)
    (mcp : Handler W) where
  unfoldable pub http_server : Act W (List (Route W))
  http_server = do
    wrapped ← protect text lower make cfg (http_middleware prop (mcp_endpoint prop mcp))
    pure (http_routes encode health wrapped)

-- How the server serves: over HTTP at an address, with sessions or without, or over stdio.
pub data Transport : Type 0 where
  http : String → Bool → Transport
  stdio : Transport

abbrev pub transport : String → Bool → String → Transport
transport addr stateless env = if addr == "" then stdio else http addr (stateless || env == "true")
