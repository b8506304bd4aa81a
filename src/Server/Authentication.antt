-- ===== src/Server/Authentication.antt =====
-- cmd/dapr-mcp-server/main.go: the authenticators that a configuration asks for.
pub mod Built
use dapr_mcp.Base.{
  String, Bool, true, false, not, ◌&&◌, List, [], ◌∷◌, ◌++◌, if◌then◌else◌, Result, ok, err, ◌==◌,
  format,
}
use dapr_mcp.Mcp.{Act, pure, call, ◌>>=◌}
use dapr_mcp.Auth.{
  Authenticator, mode_disabled, mode_oidc, mode_spiffe, mode_hybrid, mode_dapr_sentry,
}
use dapr_mcp.Auth.Config.{OidcConfig, SpiffeConfig, DaprSentryConfig, AuthConfig}
use dapr_mcp.Auth.Middleware.{Middleware, Handler, handler, noop_middleware}
use dapr_mcp.Base.{ℕ}

-- The three constructors of package auth; each may reach out to its provider.
pub record Constructors (W : Type 0) : Type 0 where
  pub new_oidc : OidcConfig → Act W (Authenticator W)
  pub new_spiffe : SpiffeConfig → Act W (Authenticator W)
  pub new_dapr_sentry : DaprSentryConfig → Act W (Authenticator W)

module _ {W : Type 0} (make : Constructors W) (cfg : AuthConfig) where
  abbrev add :
      String → Act W (Authenticator W) → List (Authenticator W) → Act W (List (Authenticator W))
  add name m auths = do
    a ← call m λ e. format ("failed to create " ∷ name ∷ " authenticator: " ∷ e ∷ [])
    pure (auths ++ a ∷ [])

  abbrev add_oidc : List (Authenticator W) → Act W (List (Authenticator W))
  add_oidc auths = add "OIDC" (make.new_oidc cfg.oidc) auths

  abbrev add_spiffe : List (Authenticator W) → Act W (List (Authenticator W))
  add_spiffe auths = add "SPIFFE" (make.new_spiffe cfg.spiffe) auths

  abbrev add_dapr_sentry : List (Authenticator W) → Act W (List (Authenticator W))
  add_dapr_sentry auths = add "Dapr Sentry" (make.new_dapr_sentry cfg.dapr_sentry) auths

  abbrev when :
      Bool
      → (List (Authenticator W) → Act W (List (Authenticator W)))
      → List (Authenticator W)
      → Act W (List (Authenticator W))
  when b step auths w = if b then step auths w else pure auths w

  abbrev build_hybrid : Act W (List (Authenticator W))
  build_hybrid = do
    first ← when cfg.oidc.enabled add_oidc []
    second ← when cfg.spiffe.enabled add_spiffe first
    when cfg.dapr_sentry.enabled add_dapr_sentry second

  -- `buildAuthenticators`.
  unfoldable pub build_authenticators : Act W (List (Authenticator W))
  build_authenticators w =
      if cfg.mode == mode_oidc
      then add_oidc [] w
      else if cfg.mode == mode_spiffe
      then add_spiffe [] w
      else if cfg.mode == mode_dapr_sentry
      then add_dapr_sentry [] w
      else if cfg.mode == mode_hybrid
      then build_hybrid w
      else (ok [], w)

  -- The middleware that `main` wraps around the MCP handler.
  unfoldable pub auth_middleware : (ℕ → String) → List (Authenticator W) → Handler W → Handler W
  auth_middleware lower auths next =
      if cfg.enabled && not (cfg.mode == mode_disabled)
      then handler (record { authenticators = auths; config = cfg; lower = lower }) next
      else noop_middleware next
