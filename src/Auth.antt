-- ===== src/Auth.antt =====
-- pkg/auth/auth.go: the modes, the errors, the identity, and the interface of an authenticator.
pub mod Config
pub mod Middleware
pub mod Spiffe
pub mod Oidc
pub mod Sentry
use dapr_mcp.Base.{
  ℤ, String, Bool, true, false, Option, none, some, List, [], ◌∷◌, Dict, Result, ok, err, format,
}

-- `AuthMode` is a text: it is read from the environment.
abbrev pub mode_disabled : String
mode_disabled = "disabled"

abbrev pub mode_oidc : String
mode_oidc = "oidc"

abbrev pub mode_spiffe : String
mode_spiffe = "spiffe"

abbrev pub mode_hybrid : String
mode_hybrid = "hybrid"

abbrev pub mode_dapr_sentry : String
mode_dapr_sentry = "dapr-sentry"

-- The common errors.
pub data Sentinel : Type 0 where
  no_token : Sentinel
  invalid_token : Sentinel
  token_expired : Sentinel
  invalid_issuer : Sentinel
  invalid_audience : Sentinel
  auth_disabled : Sentinel
  unsupported_method : Sentinel

abbrev pub sentinel_text : Sentinel → String
sentinel_text no_token = "no authentication token provided"
sentinel_text invalid_token = "invalid authentication token"
sentinel_text token_expired = "authentication token expired"
sentinel_text invalid_issuer = "invalid token issuer"
sentinel_text invalid_audience = "invalid token audience"
sentinel_text auth_disabled = "authentication is disabled"
sentinel_text unsupported_method = "unsupported authentication method"

-- An error: the common error that it wraps, if any, and its text.
pub record Failure : Type 0 where
  pub wraps : Option Sentinel
  pub text : String

abbrev pub common : Sentinel → Failure
common s = record { wraps = some s; text = sentinel_text s }

-- `fmt.Errorf("%w: …", …)`.
abbrev pub wrapping : Sentinel → List String → Failure
wrapping s pieces = record { wraps = some s; text = format (sentinel_text s ∷ ": " ∷ pieces) }

abbrev pub plain : List String → Failure
plain pieces = record { wraps = none; text = format pieces }

-- The value of a claim; `json` is the text of any other value.
pub data Claim : Type 0 where
  text : String → Claim
  number : ℤ → Claim
  json : String → Claim

pub record Identity : Type 0 where
  pub subject : String
  pub issuer : String
  pub audience : List String
  pub email : String
  pub name : String
  pub claims : Dict Claim
  pub auth_method : String

-- `Authenticator`. Authenticating may reach out to the world.
pub record Authenticator (W : Type 0) : Type 0 where
  pub mode : String
  pub authenticate : String → W → Result Failure Identity × W

-- The request context, as far as this package uses it: the value under `identityKey`.
pub record Context : Type 0 where
  pub identity : Option Identity

-- `WithIdentity`, `GetIdentity` and `IsAuthenticated`.
abbrev pub with_identity : Context → Identity → Context
with_identity c id = record c { identity = some id }

abbrev pub get_identity : Context → Option Identity
get_identity c = c.identity

abbrev pub is_authenticated : Context → Bool
is_authenticated c = elim (get_identity c) [ none ↦ false | some id ↦ true ]
