-- ===== src/Server/Packages/Served.antt =====
-- What reaches the MCP handler over HTTP in the mode `dapr-sentry`.
use dapr_mcp.Base.{ℕ, String, true, false, ◌≡◌, sym, subst, ◌∙◌, Lacks, arith, has_prefix}
use dapr_mcp.Mcp.{pure}
use dapr_mcp.Mcp.Outcomes.{IfOk, IfOk-bind}
use dapr_mcp.Auth.{Failure, mode_dapr_sentry}
use dapr_mcp.Auth.Config.{AuthConfig}
use dapr_mcp.Auth.Middleware.{Request, Response, Handler, should_skip}
use dapr_mcp.Auth.Oidc.{OidcPackage}
use dapr_mcp.Auth.Spiffe.{SpiffePackage}
use dapr_mcp.Auth.Sentry.{Packages, State}
use dapr_mcp.Health.{Reply}
use dapr_mcp.Health as Health
use dapr_mcp.Server.Start.{protect}
use dapr_mcp.Server.Http.{
  Propagator, http_routes, serve, http_middleware, mcp_endpoint, http_server,
}
use dapr_mcp.Server.Http.Routes.{is_open, answered, serve-http_routes}
use dapr_mcp.Server.Packages.{auth_package}
use dapr_mcp.Server.Packages.Admitted.{Outcome, Admits, protect-Admits}

module _ {W P V S J K : Type 0} (oidc : OidcPackage W P V) (spiffe : SpiffePackage W S)
    (sentry : Packages W J K) (text : Failure → String) (lower : ℕ → String) (cfg : AuthConfig)
    (prop : Propagator (State W K)) (encode : Reply → Response)
    (health : Health.Handler (State W K)) (mcp : Handler (State W K)) (r : Request) where
  abbrev inner : Handler (State W K)
  inner = http_middleware prop (mcp_endpoint prop mcp)

  answered_closed :
      (v : State W K) (x : Response × State W K)
      → is_open r.path ≡ false
      → answered encode health r.path v x ≡ x
  answered_closed v x closed = ground (arith, closed)

  -- In the mode `dapr-sentry`, the HTTP server that `main` sets up answers a request at a path that
  -- is not skipped, and neither a probe's nor that of the subscriptions, in one of two ways: it passes
  -- it on to the MCP endpoint with the identity of a token of Dapr Sentry whose signature a cached
  -- key verifies and whose claims hold for this server, or it answers 401 itself. The path is clean
  -- and begins with a slash, and the trust domain holds no slash. A set-up that fails serves nothing.
  pub http_server-Admits :
      (s : State W K)
      → Lacks b'/' cfg.dapr_sentry.trust_domain
      → cfg.enabled ≡ true
      → cfg.mode ≡ mode_dapr_sentry
      → should_skip cfg.skip_paths r.path ≡ false
      → has_prefix r.path "/" ≡ true
      → is_open r.path ≡ false
      → IfOk
          (λ routes. Admits sentry cfg lower inner r (serve routes))
          (http_server text lower (auth_package oidc spiffe sentry) cfg prop encode health mcp s)
  unfolding http_server
  http_server-Admits s d enabled mode kept rooted closed =
      IfOk-bind (Admits sentry cfg lower inner r)
        (λ routes. Admits sentry cfg lower inner r (serve routes))
        (λ wrapped. pure (http_routes encode health wrapped))
        (protect text lower (auth_package oidc spiffe sentry) cfg inner) s
        (protect-Admits sentry cfg lower inner r oidc spiffe text d s enabled mode kept)
        (λ wrapped s' admits v.
          subst (Outcome sentry cfg lower inner r)
            (sym (
              serve-http_routes encode health wrapped r v rooted
              ∙ answered_closed v (wrapped r v) closed))
            (admits v))
