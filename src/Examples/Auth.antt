-- ===== src/Examples/Auth.antt =====
-- pkg/auth, but for the authenticator of Dapr Sentry, and pkg/health at concrete inputs.
use dapr_mcp.Base.{
  ℕ, suc, pos, String, true, false, not, ◌&&◌, ◌||◌, none, some, Option, [], ◌∷◌, ok, err,
  if◌then◌else◌, ◌==◌, ◌≡◌, ◌≢◌, ◌↔◌, refl, inr, arith, eq_iff, In, to_lower, has_prefix, mem,
}
use dapr_mcp.Auth.{common, invalid_token, Identity, Authenticator, mode_disabled}
use dapr_mcp.Auth.Config.{
  OidcConfig, SpiffeConfig, DaprSentryConfig, AuthConfig, Environment, validate,
}
use dapr_mcp.Auth.Config.Accepted.{is_none, can_authenticate, is_none-validate}
use dapr_mcp.Auth.Middleware.{
  Request, Handler, Middleware, should_skip, extract_token_with_source, handler,
}
use dapr_mcp.Auth.Middleware.Paths.{Covers, should_skip_iff}
use dapr_mcp.Auth.Middleware.Admission.{
  Tries, Continues, is_required, handler-Continues, handler_closed,
}
use dapr_mcp.Auth.Spiffe.{
  Svid, SpiffePackage, is_ok, is_empty, built, authenticate_svid, new_spiffe_authenticator,
}
use dapr_mcp.Auth.Spiffe.Accepted.{authenticate_svid-new_spiffe_authenticator}
use dapr_mcp.Health.{new_handler, readiness}
use dapr_mcp.Health.Probes.{IsReply, readiness-IsReply}

abbrev oidc : OidcConfig
oidc = record {
  enabled = true;
  issuer_url = "https://issuer";
  client_id = "mcp";
  allowed_algorithms = "RS256" ∷ [];
  skip_issuer_check = false;
}

abbrev spiffe : SpiffeConfig
spiffe = record {
  enabled = false;
  trust_domain = "td";
  server_id = "spiffe://td/server";
  endpoint_socket = "";
  allowed_clients = "spiffe://td/a" ∷ [];
}

abbrev pub sentry : DaprSentryConfig
sentry = record {
  enabled = false;
  jwks_url = "https://keys";
  trust_domain = "td";
  audience = "";
  token_header = "Authorization";
  refresh_interval = pos 300;
}

abbrev pub settings : AuthConfig
settings = record {
  enabled = true;
  mode = "oidc";
  skip_paths = "/livez" ∷ "/open/*" ∷ [];
  oidc = oidc;
  spiffe = spiffe;
  dapr_sentry = sentry;
}

is_none-validate_example :
    is_none (validate settings)
    ≡ (not true || (settings.mode == mode_disabled || can_authenticate settings))
is_none-validate_example = is_none-validate settings

abbrev environment : Environment
environment = record {
  getenv = λ name. if name == "AUTH_MODE" then "SPIFFE" else "";
  lower = λ c. "";
  parse_duration = λ s. none;
}

should_skip_iff_example :
    (should_skip settings.skip_paths "/open/x" ≡ true)
    ↔ ((skip : String) × In skip settings.skip_paths × Covers skip "/open/x")
should_skip_iff_example = should_skip_iff settings.skip_paths "/open/x"

abbrev someone : Identity
someone = record {
  subject = "me";
  issuer = "";
  audience = [];
  email = "";
  name = "";
  claims = [];
  auth_method = "oidc";
}

-- The world counts the tokens that were looked at.
abbrev accepting : Authenticator ℕ
accepting = record {
  mode = "oidc";
  authenticate = λ token n.
      if token == "good" then (ok someone, suc n) else (err (common invalid_token), suc n);
}

abbrev refusing : Authenticator ℕ
refusing = record { mode = "spiffe"; authenticate = λ token n. (err (common invalid_token), suc n) }

abbrev guard : Middleware ℕ
guard = record {
  authenticators = refusing ∷ accepting ∷ [];
  config = record settings { skip_paths = [] };
  lower = λ c. "";
}

abbrev request : Request
request = record {
  path = "/mcp";
  header = λ name. if name == "Authorization" then "good" else "";
  context = record { identity = none };
}

abbrev welcome : Handler ℕ
welcome r n = (record { status = 200; body = "hello" }, n)

abbrev goodbye : Handler ℕ
goodbye r n = (record { status = 200; body = "bye" }, n)

required : is_required guard request ≡ true
unfolding should_skip
required = refl

token_given : (extract_token_with_source guard request).0 ≢ ""
unfolding extract_token_with_source to_lower has_prefix
token_given e = ground (arith, eq_iff "good" "", e)

handler-Continues_example :
    (o : Option Identity) × (v : ℕ) × Tries "good" guard.authenticators 0 o v
    × Continues welcome request o v (handler guard welcome request 0)
unfolding extract_token_with_source to_lower has_prefix
handler-Continues_example = handler-Continues guard welcome request 0 required token_given

abbrev closed : Middleware ℕ
closed = record guard { authenticators = refusing ∷ [] }

closed_required : is_required closed request ≡ true
unfolding should_skip
closed_required = refl

handler_closed_example :
    (handler closed welcome request 0 ≡ handler closed goodbye request 0)
    × ((handler closed welcome request 0).0.status ≡ 401)
handler_closed_example =
    handler_closed closed welcome goodbye request 0 closed_required (inr ((λ v. refl), tt))

abbrev client : Svid
client = record {
  id = "spiffe://td/a";
  trust_domain_name = "td";
  trust_domain = "spiffe://td";
  audience = [];
  claims = [];
}

-- A Workload API that answers at once and validates every token for `client`.
abbrev workload_api : SpiffePackage ℕ String
workload_api = record {
  from_string = ok;
  new_jwt_source = λ options n. (ok "source", suc n);
  parse_and_validate = λ source token audiences n. (ok client, n);
  close_source = λ source n. (ok tt, n);
}

authenticate_svid-new_spiffe_authenticator_example :
    (new_spiffe_authenticator workload_api spiffe 0
      ≡ (ok (built workload_api spiffe "spiffe://td/server" "source"), 1))
    × (is_ok
          (authenticate_svid (built workload_api spiffe "spiffe://td/server" "source") "token" 5).0
        ≡ ((client.trust_domain_name == spiffe.trust_domain)
            && (is_empty spiffe.allowed_clients || mem client.id spiffe.allowed_clients)))
authenticate_svid-new_spiffe_authenticator_example =
    authenticate_svid-new_spiffe_authenticator workload_api spiffe "spiffe://td/server" "source" 0 1
      5 5 "token" client refl refl refl

readiness-IsReply_example :
    IsReply
      (new_handler (some (λ (n : ℕ). (err "down", n))) (λ v w. "1ms") "v1")
      false
      (readiness (new_handler (some (λ (n : ℕ). (err "down", n))) (λ v w. "1ms") "v1") 0).0
readiness-IsReply_example =
    readiness-IsReply (new_handler (some (λ (n : ℕ). (err "down", n))) (λ v w. "1ms") "v1") 0
