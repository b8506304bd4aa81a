-- ===== src/Server/Http/Routes.antt =====
-- Which requests the HTTP server answers without authentication.
use dapr_mcp.Base.{
  Bool, arith, trim_suffix, ◌||◌, ◌∷◌, ℕ, String, true, false, not, ◌&&◌, List, [], if◌then◌else◌,
  has_prefix, has_suffix, ◌==◌, ◌≡◌, refl, sym, ap, subst, ◌∙◌, eq_iff, Bool-cases, inl, inr,
}
use dapr_mcp.Auth.{Failure, mode_disabled}
use dapr_mcp.Auth.Config.{AuthConfig, Environment, configured_skip_paths}
use dapr_mcp.Auth.Middleware.{
  Request, Response, Handler, http_error, should_skip, extract_token_with_source,
}
use dapr_mcp.Mcp.{pure}
use dapr_mcp.Mcp.Outcomes.{IfOk, IfOk-bind, IfOk-all}
use dapr_mcp.Server.Start.Guarded.{Refuses, protect-Refuses, middleware_of}
use dapr_mcp.Health.{Reply, liveness, readiness, startup}
use dapr_mcp.Health as Health
use dapr_mcp.Server.Authentication.{Constructors}
use dapr_mcp.Server.Start.{protect}
use dapr_mcp.Server.Http.{
  Propagator, Route, http_routes, encoded, serve, serve_by, best_match, http_middleware,
  mcp_endpoint, http_server,
}

-- The paths that are routed to no middleware.
abbrev pub is_open : String → Bool
is_open path =
    path == "/livez" || path == "/readyz" || path == "/startupz" || path == "/dapr/subscribe"

module _ {W : Type 0} (encode : Reply → Response) (health : Health.Handler W) where
  -- What is answered at the path of a request, where `otherwise` is the answer of the MCP handler
  -- behind the middlewares.
  abbrev pub answered : String → W → Response × W → Response × W
  answered path w otherwise =
      if path == "/livez"
      then encoded encode health (liveness health w)
      else if path == "/readyz"
      then encoded encode health (readiness health w)
      else if path == "/startupz"
      then encoded encode health (startup health w)
      else if path == "/dapr/subscribe"
      then (record { status = 200; body = "[]" }, w)
      else otherwise

  answered_open :
      (path : String) (w : W) (a b : Response × W)
      → is_open path ≡ true
      → answered path w a ≡ answered path w b
  answered_open path w a b h = ground (arith, h)

  module _ (wrapped : Handler W) (r : Request) (w : W) where
    abbrev Answers : String → Type 0
    Answers path =
        serve_by (best_match (http_routes encode health wrapped) path) r w
        ≡ answered path w (wrapped r w)

    exact : (path literal : String) → (path == literal) ≡ true → Answers literal → Answers path
    exact path literal e h = subst Answers (sym ((eq_iff path literal).0 e)) h

    Answers-of_rooted : (path : String) → has_prefix path "/" ≡ true → Answers path
    unfolding best_match has_suffix has_prefix
    Answers-of_rooted path rooted = elim (Bool-cases (path == "/livez")) [
      | inl e ↦ exact path "/livez" e refl
      | inr a ↦ elim (Bool-cases (path == "/readyz")) [
        | inl e ↦ exact path "/readyz" e refl
        | inr b ↦ elim (Bool-cases (path == "/startupz")) [
          | inl e ↦ exact path "/startupz" e refl
          | inr c ↦ elim (Bool-cases (path == "/dapr/subscribe")) [
            | inl e ↦ exact path "/dapr/subscribe" e refl
            | inr d ↦ rw (a, b, c, d, rooted) refl
          ]
        ]
      ]
    ]

    -- The mux sends each request to the route of its path, and all else to the MCP handler.
    pub serve-http_routes :
        has_prefix r.path "/" ≡ true
        → serve (http_routes encode health wrapped) r w ≡ answered r.path w (wrapped r w)
    unfolding serve
    serve-http_routes rooted = Answers-of_rooted r.path rooted

module _ {W : Type 0} (text : Failure → String) (lower : ℕ → String) (make : Constructors W)
    (cfg : AuthConfig) (prop : Propagator W) (encode : Reply → Response) (health : Health.Handler W)
    (mcp : Handler W) (r : Request) where
  -- The answers to a request without a token, in any world.
  abbrev pub Guards : List (Route W) → Type 0
  Guards routes =
      (v : W)
      → serve routes r v
        ≡ answered encode health r.path v (http_error "Unauthorized: no token provided" 401, v)

  guarded :
      (w : W)
      → has_prefix r.path "/" ≡ true
      → (cfg.enabled && not (cfg.mode == mode_disabled)) ≡ true
      → (extract_token_with_source (middleware_of {W = W} lower cfg []) r).0 ≡ ""
      → should_skip cfg.skip_paths r.path ≡ false
      → IfOk Guards (http_server text lower make cfg prop encode health mcp w)
  unfolding http_server
  guarded w rooted on none_given kept =
      let inner = http_middleware prop (mcp_endpoint prop mcp) in
      IfOk-bind (Refuses text lower make cfg inner r) Guards
        (λ wrapped. pure (http_routes encode health wrapped)) (protect text lower make cfg inner) w
        (protect-Refuses text lower make cfg inner r w on kept none_given)
        (λ wrapped w' refuses v.
          serve-http_routes encode health wrapped r v rooted
          ∙ ap (answered encode health r.path v) (refuses v))

  unguarded :
      (w : W)
      → has_prefix r.path "/" ≡ true
      → is_open r.path ≡ true
      → IfOk Guards (http_server text lower make cfg prop encode health mcp w)
  unfolding http_server
  unguarded w rooted routed =
      let inner = http_middleware prop (mcp_endpoint prop mcp) in
      IfOk-bind (λ wrapped. Unit {0}) Guards (λ wrapped. pure (http_routes encode health wrapped))
        (protect text lower make cfg inner) w
        (IfOk-all (λ wrapped. Unit {0}) (λ wrapped. tt) (protect text lower make cfg inner w))
        (λ wrapped w' u v.
          serve-http_routes encode health wrapped r v rooted
          ∙ answered_open encode health r.path v (wrapped r v)
              (http_error "Unauthorized: no token provided" 401, v) routed)

  -- Where authentication is on, and only paths of the probes and the subscriptions are skipped, a
  -- request without a token is answered by the routes that `main` has set up as follows: the three
  -- probes report, the subscriptions of Dapr are none, and at any other path the answer is 401, and
  -- the world is left as it is, whatever the MCP handler and the telemetry do. The path begins with
  -- a slash, and is clean. A configuration that is not valid sets up no routes.
  pub http_server-Guards :
      (w : W)
      → has_prefix r.path "/" ≡ true
      → (cfg.enabled && not (cfg.mode == mode_disabled)) ≡ true
      → (extract_token_with_source (middleware_of {W = W} lower cfg []) r).0 ≡ ""
      → (should_skip cfg.skip_paths r.path ≡ true → is_open r.path ≡ true)
      → IfOk Guards (http_server text lower make cfg prop encode health mcp w)
  http_server-Guards w rooted on none_given covered =
      elim (Bool-cases (should_skip cfg.skip_paths r.path)) [
        | inl e ↦ unguarded w rooted (covered e)
        | inr e ↦ guarded w rooted on none_given e
      ]

-- Unless `AUTH_SKIP_PATHS` is set, the paths that are skipped are those of the probes.
pub is_open-configured_skip_paths :
    (env : Environment) (path : String)
    → env.getenv "AUTH_SKIP_PATHS" ≡ ""
    → should_skip (configured_skip_paths env) path ≡ true
    → is_open path ≡ true
unfolding should_skip has_suffix trim_suffix
is_open-configured_skip_paths env path unset h =
    let h' : should_skip ("/livez" ∷ "/readyz" ∷ "/startupz" ∷ []) path ≡ true = rw unset at h in
    ground (arith, h')
