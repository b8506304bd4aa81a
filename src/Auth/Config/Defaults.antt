-- ===== src/Auth/Config/Defaults.antt =====
-- What `DefaultConfig` makes of the environment.
use dapr_mcp.Base.{String, ◌&&◌, ◌||◌, ◌==◌, ◌≡◌, refl, arith}
use dapr_mcp.Auth.{mode_oidc, mode_spiffe, mode_hybrid, mode_dapr_sentry}
use dapr_mcp.Auth.Config.{
  AuthConfig, Environment, auto_enable, from_environment, configured_mode, default_config,
}
use dapr_mcp.Auth.Config.Accepted.{other_mode, uses_oidc, uses_spiffe, uses_dapr_sentry}

module _ (c : AuthConfig) where
  mode-auto_enable : (auto_enable c).mode ≡ c.mode
  unfolding auto_enable
  mode-auto_enable = ground arith

  uses_oidc-auto_enable :
      uses_oidc (auto_enable c) ≡ (c.mode == mode_oidc || (c.mode == mode_hybrid && c.oidc.enabled))
  unfolding auto_enable
  uses_oidc-auto_enable = rw mode-auto_enable (ground (arith, mode-auto_enable))

  uses_spiffe-auto_enable :
      uses_spiffe (auto_enable c)
      ≡ (c.mode == mode_spiffe || (c.mode == mode_hybrid && c.spiffe.enabled))
  unfolding auto_enable
  uses_spiffe-auto_enable = rw mode-auto_enable (
      ground (
        arith,
        other_mode c.mode mode_oidc mode_spiffe refl,
        other_mode c.mode mode_oidc mode_hybrid refl,
        other_mode c.mode mode_spiffe mode_hybrid refl,
      ))

  uses_dapr_sentry-auto_enable :
      uses_dapr_sentry (auto_enable c)
      ≡ (c.mode == mode_dapr_sentry || (c.mode == mode_hybrid && c.dapr_sentry.enabled))
  unfolding auto_enable
  uses_dapr_sentry-auto_enable = rw mode-auto_enable (
      ground (
        arith,
        other_mode c.mode mode_oidc mode_dapr_sentry refl,
        other_mode c.mode mode_spiffe mode_dapr_sentry refl,
        other_mode c.mode mode_oidc mode_hybrid refl,
        other_mode c.mode mode_spiffe mode_hybrid refl,
        other_mode c.mode mode_dapr_sentry mode_hybrid refl,
      ))

-- From the environment: a single mode uses its method whatever the method's own flag says, the
-- hybrid mode uses the methods whose flag is `true`, and no other mode uses any.
pub uses-default_config :
    (env : Environment)
    → let m = configured_mode env in
      let flag = λ (name : String). env.getenv name == "true" in
      (uses_oidc (default_config env)
        ≡ (m == mode_oidc || (m == mode_hybrid && flag "OIDC_ENABLED")))
      × (uses_spiffe (default_config env)
          ≡ (m == mode_spiffe || (m == mode_hybrid && flag "SPIFFE_ENABLED")))
      × (uses_dapr_sentry (default_config env)
          ≡ (m == mode_dapr_sentry || (m == mode_hybrid && flag "DAPR_SENTRY_ENABLED")))
unfolding default_config
uses-default_config env =
    let c = from_environment env in
    (uses_oidc-auto_enable c, uses_spiffe-auto_enable c, uses_dapr_sentry-auto_enable c)
