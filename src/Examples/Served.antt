-- ===== src/Examples/Served.antt =====
-- The HTTP server of `main` with the authenticators of package auth, in the mode `dapr-sentry`.
use dapr_mcp.Base.{
  ℕ, String, true, false, none, [], ◌∷◌, ok, err, refl, has_prefix, has_suffix, trim_suffix,
}
use dapr_mcp.Auth.Config.{AuthConfig, validate, validate_dapr_sentry}
use dapr_mcp.Auth.Middleware.{Request, Response, Handler, should_skip}
use dapr_mcp.Auth.Oidc.{OidcPackage}
use dapr_mcp.Auth.Spiffe.{SpiffePackage}
use dapr_mcp.Auth.Sentry.{State, new_authenticator}
use dapr_mcp.Health.{Reply}
use dapr_mcp.Health as Health
use dapr_mcp.Server.Authentication.{auth_middleware, build_authenticators}
use dapr_mcp.Server.Start.{protect}
use dapr_mcp.Server.Http.{
  Propagator, http_routes, serve, http_middleware, mcp_endpoint, http_server,
}
use dapr_mcp.Server.Packages.{dapr_sentry_authenticator, auth_package}
use dapr_mcp.Server.Packages.Admitted.{Admits}
use dapr_mcp.Server.Packages.Served.{http_server-Admits}
use dapr_mcp.Examples.Auth.{settings, sentry}
use dapr_mcp.Examples.Sentry.{packages, empty, no_slash}

abbrev by_sentry : AuthConfig
by_sentry = record settings { mode = "dapr-sentry"; dapr_sentry = record sentry { enabled = true } }

abbrev no_oidc : OidcPackage ℕ String String
no_oidc = record {
  new_provider = λ url n. (err "unreachable", n);
  verifier = λ p cfg. p;
  verify = λ v token n. (err "unknown", n);
}

abbrev no_spiffe : SpiffePackage ℕ String
no_spiffe = record {
  from_string = ok;
  new_jwt_source = λ opts n. (err ("unreachable", false), n);
  parse_and_validate = λ source token audience n. (err "unknown", n);
  close_source = λ source n. (ok tt, n);
}

abbrev with_token : Request
with_token = record {
  path = "/mcp";
  header = λ name. "token";
  context = record { identity = none };
}

abbrev untraced : Propagator (State ℕ ℕ)
untraced = record { extract = λ header s. s; inject = λ s. s }

abbrev by_code : Reply → Response
by_code reply = record { status = reply.code; body = "" }

abbrev probes : Health.Handler (State ℕ ℕ)
probes = Health.new_handler none (λ v w. "0s") "v1"

abbrev mcp : Handler (State ℕ ℕ)
mcp r s = (record { status = 200; body = "" }, s)

abbrev inner : Handler (State ℕ ℕ)
inner = http_middleware untraced (mcp_endpoint untraced mcp)

abbrev wrapped : Handler (State ℕ ℕ)
wrapped =
    auth_middleware (auth_package no_oidc no_spiffe packages) by_sentry (λ c. "")
      (dapr_sentry_authenticator packages by_sentry.dapr_sentry ∷ []) inner

http_server-Admits_example :
    Admits packages by_sentry
      (λ c. "")
      inner
      with_token
      (serve (http_routes by_code probes wrapped))
unfolding http_server protect validate validate_dapr_sentry build_authenticators new_authenticator
    should_skip has_prefix has_suffix trim_suffix
http_server-Admits_example =
    http_server-Admits no_oidc no_spiffe packages (λ f. "") (λ c. "") by_sentry untraced by_code
      probes mcp with_token empty no_slash refl refl refl refl refl
