-- ===== src/Auth/Middleware.antt =====
-- pkg/auth/middleware.go: the HTTP middleware that lets a request through or refuses it.
pub mod Paths
pub mod Admission
use dapr_mcp.Base.{
  ℕ, String, Char, code, Bool, true, false, not, ◌&&◌, ◌||◌, Option, none, some, List, [], ◌∷◌,
  if◌then◌else◌, ltb, Result, ok, err, ◌==◌, has_prefix, has_suffix, trim_prefix, trim_suffix,
  after_prefix, to_lower, length,
}
use dapr_mcp.Auth.{Failure, Identity, Authenticator, Context, with_identity, mode_disabled}
use dapr_mcp.Auth.Config.{AuthConfig}

-- `http.Request`: its path, `Header.Get`, and its context.
pub record Request : Type 0 where
  pub path : String
  pub header : String → String
  pub context : Context

-- What `http.Error` writes, without its line break, and what other handlers write.
pub record Response : Type 0 where
  pub status : ℕ
  pub body : String

abbrev pub http_error : String → ℕ → Response
http_error message code = record { status = code; body = message }

-- `http.Handler`. Serving may act on the world.
abbrev pub Handler : Type 0 → Type 0
Handler W = Request → W → Response × W

-- `Middleware`; the logger is left out. `lower` is the lower case of code points beyond ASCII.
pub record Middleware (W : Type 0) : Type 0 where
  pub authenticators : List (Authenticator W)
  pub config : AuthConfig
  pub lower : ℕ → String

pub path_matches : String → String → Bool
path_matches path skip =
    path == skip || (has_suffix skip "*" && has_prefix path (trim_suffix skip "*"))

-- The loop of `shouldSkip`.
unfoldable pub should_skip : List String → String → Bool
unfolding path_matches
should_skip [] path = false
should_skip (skip ∷ skips) path =
    let rest = should_skip skips path in if path_matches path skip then true else rest

-- The text after the seven characters of `bearer `, which are ASCII: no other letter has one of
-- them as its lower case.
abbrev bearer_token : String → String
bearer_token auth = trim_prefix (after_prefix auth "bearer ") " "

abbrev from_authorization : (ℕ → String) → String → String × String
from_authorization lower auth =
    if auth == ""
    then ("", "")
    else if has_prefix (to_lower lower auth) "bearer "
    then (bearer_token auth, "Authorization (Bearer)")
    else (auth, "Authorization (raw)")

module _ {W : Type 0} where
  -- `extractTokenWithSource`.
  unfoldable pub extract_token_with_source : Middleware W → Request → String × String
  extract_token_with_source m r =
      let custom = m.config.dapr_sentry.token_header in
      let token = r.header custom in
      if not (custom == "") && (not (custom == "Authorization") && not (token == ""))
      then (token, custom)
      else from_authorization m.lower (r.header "Authorization")

  -- The loop over the authenticators: the first that accepts ends it.
  pub try_each : List (Authenticator W) → String → W → Option Identity × W
  try_each [] token w = (none, w)
  try_each (a ∷ rest) token w =
      let (result, w') = a.authenticate token w in
      elim result [ ok id ↦ (some id, w') | err e ↦ try_each rest token w' ]

  abbrev pub finish : Handler W → Request → Option Identity × W → Response × W
  finish next r (none, w) = (http_error "Unauthorized: invalid token" 401, w)
  finish next r (some id, w) = next (record r { context = with_identity r.context id }) w

  abbrev authenticated : Middleware W → Handler W → Request → String → W → Response × W
  authenticated m next r token w =
      if token == ""
      then (http_error "Unauthorized: no token provided" 401, w)
      else finish next r (try_each m.authenticators token w)

  -- `Handler`.
  unfoldable pub handler : Middleware W → Handler W → Handler W
  unfolding should_skip extract_token_with_source try_each
  handler m next r w =
      if should_skip m.config.skip_paths r.path
      then next r w
      else if not m.config.enabled || m.config.mode == mode_disabled
      then next r w
      else authenticated m next r (extract_token_with_source m r).0 w

  -- `NoopMiddleware`.
  abbrev pub noop_middleware : Handler W → Handler W
  noop_middleware next = next
