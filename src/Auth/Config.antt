-- ===== src/Auth/Config.antt =====
-- pkg/auth/config.go: the configuration, read from the environment and validated.
pub mod Accepted
pub mod Defaults
use dapr_mcp.Base.{
  ℤ, pos, String, Bool, true, false, not, ◌&&◌, ◌||◌, Option, none, some, List, [], ◌∷◌, map, split,
  trim_space, to_lower, if◌then◌else◌, ◌==◌, ℕ,
}
use dapr_mcp.Auth.{
  Failure, common, plain, unsupported_method, mode_disabled, mode_oidc, mode_spiffe, mode_hybrid,
  mode_dapr_sentry,
}

pub record OidcConfig : Type 0 where
  pub enabled : Bool
  pub issuer_url : String
  pub client_id : String
  pub allowed_algorithms : List String
  pub skip_issuer_check : Bool

pub record SpiffeConfig : Type 0 where
  pub enabled : Bool
  pub trust_domain : String
  pub server_id : String
  pub endpoint_socket : String
  pub allowed_clients : List String

-- A `time.Duration` in nanoseconds.
pub record DaprSentryConfig : Type 0 where
  pub enabled : Bool
  pub jwks_url : String
  pub trust_domain : String
  pub audience : String
  pub token_header : String
  pub refresh_interval : ℤ

pub record AuthConfig : Type 0 where
  pub enabled : Bool
  pub mode : String
  pub skip_paths : List String
  pub oidc : OidcConfig
  pub spiffe : SpiffeConfig
  pub dapr_sentry : DaprSentryConfig

-- What the environment and packages `unicode` and `time` give: `os.Getenv`, the lower case of a
-- code point beyond ASCII, and `time.ParseDuration`.
pub record Environment : Type 0 where
  pub getenv : String → String
  pub lower : ℕ → String
  pub parse_duration : String → Option ℤ

abbrev pub trimmed_list : String → List String
trimmed_list s = map trim_space (split b',' s)

abbrev pub or_default : String → String → String
or_default s default = if s == "" then default else s

pub default_oidc_config : Environment → OidcConfig
default_oidc_config env = record {
  enabled = env.getenv "OIDC_ENABLED" == "true";
  issuer_url = env.getenv "OIDC_ISSUER_URL";
  client_id = env.getenv "OIDC_CLIENT_ID";
  allowed_algorithms =
      let algs = env.getenv "OIDC_ALLOWED_ALGORITHMS" in
      if algs == "" then "RS256" ∷ "ES256" ∷ [] else trimmed_list algs;
  skip_issuer_check = env.getenv "OIDC_SKIP_ISSUER_CHECK" == "true";
}

pub default_spiffe_config : Environment → SpiffeConfig
default_spiffe_config env = record {
  enabled = env.getenv "SPIFFE_ENABLED" == "true";
  trust_domain = env.getenv "SPIFFE_TRUST_DOMAIN";
  server_id = env.getenv "SPIFFE_SERVER_ID";
  endpoint_socket = env.getenv "SPIFFE_ENDPOINT_SOCKET";
  allowed_clients =
      let allowed = env.getenv "SPIFFE_ALLOWED_CLIENTS" in
      if allowed == "" then [] else trimmed_list allowed;
}

-- Five minutes, in nanoseconds.
abbrev pub default_refresh_interval : ℤ
default_refresh_interval = pos 300000000000

pub refresh_interval_of : Environment → String → ℤ
refresh_interval_of env s =
    if s == ""
    then default_refresh_interval
    else elim (env.parse_duration s) [ none ↦ default_refresh_interval | some d ↦ d ]

pub default_dapr_sentry_config : Environment → DaprSentryConfig
default_dapr_sentry_config env = record {
  enabled = env.getenv "DAPR_SENTRY_ENABLED" == "true";
  jwks_url = env.getenv "DAPR_SENTRY_JWKS_URL";
  trust_domain = env.getenv "DAPR_SENTRY_TRUST_DOMAIN";
  audience = env.getenv "DAPR_SENTRY_AUDIENCE";
  token_header = or_default (env.getenv "DAPR_SENTRY_TOKEN_HEADER") "Authorization";
  refresh_interval = refresh_interval_of env (env.getenv "DAPR_SENTRY_JWKS_REFRESH_INTERVAL");
}

-- The `switch` on the mode: a single mode enables its method.
pub auto_enable : AuthConfig → AuthConfig
auto_enable c =
    if c.mode == mode_oidc
    then record c { oidc = record c.oidc { enabled = true } }
    else if c.mode == mode_spiffe
    then record c { spiffe = record c.spiffe { enabled = true } }
    else if c.mode == mode_dapr_sentry
    then record c { dapr_sentry = record c.dapr_sentry { enabled = true } }
    else c

abbrev pub configured_mode : Environment → String
configured_mode env = or_default (to_lower env.lower (env.getenv "AUTH_MODE")) mode_disabled

abbrev pub configured_skip_paths : Environment → List String
configured_skip_paths env =
    let paths = env.getenv "AUTH_SKIP_PATHS" in
    if paths == "" then "/livez" ∷ "/readyz" ∷ "/startupz" ∷ [] else trimmed_list paths

-- The configuration before the methods are auto-enabled.
abbrev pub from_environment : Environment → AuthConfig
from_environment env = record {
  enabled = env.getenv "AUTH_ENABLED" == "true";
  mode = configured_mode env;
  skip_paths = configured_skip_paths env;
  oidc = default_oidc_config env;
  spiffe = default_spiffe_config env;
  dapr_sentry = default_dapr_sentry_config env;
}

-- `DefaultConfig`.
unfoldable pub default_config : Environment → AuthConfig
unfolding auto_enable default_oidc_config default_spiffe_config default_dapr_sentry_config
default_config env = auto_enable (from_environment env)

abbrev required : String → Option Failure
required setting = some (plain (setting ∷ " is required" ∷ []))

-- The `Validate` methods; `none` is a nil error.
unfoldable pub validate_oidc : OidcConfig → Option Failure
validate_oidc c =
    if not c.enabled
    then none
    else if c.issuer_url == ""
    then required "OIDC_ISSUER_URL"
    else if c.client_id == ""
    then required "OIDC_CLIENT_ID"
    else none

unfoldable pub validate_spiffe : SpiffeConfig → Option Failure
validate_spiffe c =
    if not c.enabled
    then none
    else if c.trust_domain == ""
    then required "SPIFFE_TRUST_DOMAIN"
    else if c.server_id == ""
    then required "SPIFFE_SERVER_ID"
    else none

unfoldable pub validate_dapr_sentry : DaprSentryConfig → Option Failure
validate_dapr_sentry c =
    if not c.enabled
    then none
    else if c.jwks_url == ""
    then required "DAPR_SENTRY_JWKS_URL"
    else if c.trust_domain == ""
    then required "DAPR_SENTRY_TRUST_DOMAIN"
    else none

-- `if err := …; err != nil { return err }`.
abbrev pub or_else {ℓ} : {A : Type ℓ} → Option A → Option A → Option A
or_else none next = next
or_else (some e) next = some e

-- The hybrid case: at least one method, and those that are enabled are valid.
unfoldable pub validate_hybrid : AuthConfig → Option Failure
validate_hybrid c =
    if not c.oidc.enabled && (not c.spiffe.enabled && not c.dapr_sentry.enabled)
    then some (common unsupported_method)
    else or_else (if c.oidc.enabled then validate_oidc c.oidc else none) (
        or_else (if c.spiffe.enabled then validate_spiffe c.spiffe else none)
          (if c.dapr_sentry.enabled then validate_dapr_sentry c.dapr_sentry else none))

abbrev unsupported : Option Failure
unsupported = some (common unsupported_method)

-- `Config.Validate`.
unfoldable pub validate : AuthConfig → Option Failure
validate c =
    if not c.enabled
    then none
    else if c.mode == mode_oidc
    then (if not c.oidc.enabled then unsupported else validate_oidc c.oidc)
    else if c.mode == mode_spiffe
    then (if not c.spiffe.enabled then unsupported else validate_spiffe c.spiffe)
    else if c.mode == mode_dapr_sentry
    then (if not c.dapr_sentry.enabled then unsupported else validate_dapr_sentry c.dapr_sentry)
    else if c.mode == mode_hybrid
    then validate_hybrid c
    else if c.mode == mode_disabled
    then none
    else unsupported
