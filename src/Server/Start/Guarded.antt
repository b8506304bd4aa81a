-- ===== src/Server/Start/Guarded.antt =====
-- What the handler before the MCP endpoint answers to a request without a token.
use dapr_mcp.Base.{
  String, ℕ, true, false, not, ◌&&◌, Option, none, some, List, [], ◌==◌, Result, ok, err, ◌≡◌,
  arith, eq_iff,
}
use dapr_mcp.Mcp.Outcomes.{IfOk}
use dapr_mcp.Auth.{Failure, Authenticator, mode_disabled}
use dapr_mcp.Auth.Config.{AuthConfig, validate}
use dapr_mcp.Auth.Middleware.{
  Handler, Middleware, Request, http_error, should_skip, extract_token_with_source, handler,
}
use dapr_mcp.Server.Authentication.{Constructors, build_authenticators, auth_middleware}
use dapr_mcp.Server.Start.{when_valid, with_authenticators, protect}

abbrev pub middleware_of :
    {W : Type 0} → (ℕ → String) → AuthConfig → List (Authenticator W) → Middleware W
middleware_of lower cfg auths = record { authenticators = auths; config = cfg; lower = lower }

module _ {W : Type 0} (text : Failure → String) (lower : ℕ → String) (make : Constructors W)
    (cfg : AuthConfig) (next : Handler W) (r : Request) where
  -- The answer to a request without a token, in any world.
  abbrev pub Refuses : Handler W → Type 0
  Refuses h = (v : W) → h r v ≡ (http_error "Unauthorized: no token provided" 401, v)

  Refuses-with_authenticators :
      (built : Result String (List (Authenticator W)) × W)
      → ((auths : List (Authenticator W)) → Refuses (auth_middleware make cfg lower auths next))
      → IfOk Refuses (with_authenticators text lower make cfg next built)
  Refuses-with_authenticators (ok auths, w) h = h auths
  Refuses-with_authenticators (err e, w) h = tt

  Refuses-when_valid :
      (o : Option Failure) (w : W)
      → (cfg.enabled && not (cfg.mode == mode_disabled)) ≡ true
      → ((auths : List (Authenticator W)) → Refuses (auth_middleware make cfg lower auths next))
      → IfOk Refuses (when_valid text lower make cfg next o w)
  Refuses-when_valid (some f) w on h = tt
  Refuses-when_valid none w on h =
      rw on (Refuses-with_authenticators (build_authenticators make cfg w) h)

  pub Refuses-auth_middleware :
      (cfg.enabled && not (cfg.mode == mode_disabled)) ≡ true
      → should_skip cfg.skip_paths r.path ≡ false
      → (extract_token_with_source (middleware_of {W = W} lower cfg []) r).0 ≡ ""
      → (auths : List (Authenticator W)) → Refuses (auth_middleware make cfg lower auths next)
  unfolding auth_middleware handler extract_token_with_source
  Refuses-auth_middleware on kept none_given auths v = ground (
    arith,
    on,
    kept,
    none_given,
    eq_iff (extract_token_with_source (middleware_of lower cfg auths) r).0 "",
  )

  -- Where authentication is on, a request without a token to a path that is not skipped is answered
  -- with 401 by whatever handler `main` has set up, and the world is left as it is: neither an
  -- authenticator nor the MCP handler is asked. A configuration that is not valid sets up none.
  pub protect-Refuses :
      (w : W)
      → (cfg.enabled && not (cfg.mode == mode_disabled)) ≡ true
      → should_skip cfg.skip_paths r.path ≡ false
      → (extract_token_with_source (middleware_of {W = W} lower cfg []) r).0 ≡ ""
      → IfOk Refuses (protect text lower make cfg next w)
  unfolding protect
  protect-Refuses w on kept none_given =
      Refuses-when_valid (validate cfg) w on (Refuses-auth_middleware on kept none_given)
