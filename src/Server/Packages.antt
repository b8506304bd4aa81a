-- ===== src/Server/Packages.antt =====
-- The constructors of pkg/auth (oidc.go, spiffe.go, sentry.go) as buildAuthenticators of
-- cmd/dapr-mcp-server/main.go calls them. The cache of the Sentry authenticator is part of the
-- world; before the authenticator is built it is not read.
pub mod Admitted
pub mod Served
use dapr_mcp.Base.{String, ◌∷◌, [], Result, ok, err}
use dapr_mcp.Mcp.{Act, pure, ◌>>=◌}
use dapr_mcp.Auth.{Authenticator, mode_dapr_sentry}
use dapr_mcp.Auth.Config.{DaprSentryConfig}
use dapr_mcp.Auth.Oidc.{OidcPackage, new_oidc_authenticator, oidc_authenticator}
use dapr_mcp.Auth.Spiffe.{SpiffePackage, new_spiffe_authenticator, spiffe_authenticator}
use dapr_mcp.Auth.Sentry.{Packages, State, authenticate, new_authenticator}
use dapr_mcp.Server.Authentication.{Constructors}

module _ {W K : Type 0} where
  -- A step of the world beside the cache.
  abbrev outside_cache : {A : Type 0} → (W → A × W) → State W K → A × State W K
  outside_cache step s = let (a, w) = step s.world in (a, record s { world = w })

  abbrev beside_cache : Authenticator W → Authenticator (State W K)
  beside_cache a = record {
    mode = a.mode;
    authenticate = λ token. outside_cache (a.authenticate token);
  }

  -- What `main` uses of a `DaprSentryAuthenticator`.
  abbrev pub dapr_sentry_authenticator :
      {J : Type 0} → Packages W J K → DaprSentryConfig → Authenticator (State W K)
  dapr_sentry_authenticator sentry cfg = record {
    mode = mode_dapr_sentry;
    authenticate = authenticate sentry cfg;
  }

  module _ {P V S J : Type 0} (oidc : OidcPackage W P V) (spiffe : SpiffePackage W S)
      (sentry : Packages W J K) where
    abbrev pub with_first_keys :
        DaprSentryConfig
        → State W K
        → Result String (State W K) × W
        → Result String (Authenticator (State W K)) × State W K
    with_first_keys cfg s (err e, w) = (err e, record s { world = w })
    with_first_keys cfg s (ok first, w) =
        (ok (dapr_sentry_authenticator sentry cfg), record first { world = w })

    abbrev pub auth_package : Constructors (State W K)
    auth_package = record {
      new_oidc = λ cfg. outside_cache (new_oidc_authenticator oidc cfg) >>= λ a.
          pure (beside_cache (oidc_authenticator oidc a));
      new_spiffe = λ cfg. outside_cache (new_spiffe_authenticator spiffe cfg) >>= λ a.
          pure (beside_cache (spiffe_authenticator a));
      new_dapr_sentry = λ cfg s. with_first_keys cfg s (new_authenticator sentry cfg s.world);
    }
