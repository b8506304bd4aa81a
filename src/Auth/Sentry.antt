-- ===== src/Auth/Sentry.antt =====
-- pkg/auth/sentry.go: the authenticator for the tokens of Dapr Sentry.
pub mod Checks
pub mod SpiffeId
pub mod Claims
pub mod Keys
pub mod Refresh
pub mod Concurrent
unfoldable pub use Checks.*
use dapr_mcp.Base.{
  ℕ, ◌+◌, ◌-◌, ◌*◌, ◌^◌, ℤ, pos, negsuc, String, Bool, true, false, not, ◌&&◌, ◌||◌, Option, none,
  some, List, [], ◌∷◌, ◌++◌, if◌then◌else◌, ltb, nat_eq, Dict, decimal, Result, ok, err, ◌==◌,
  has_prefix, trim_prefix, cut, format,
}
use dapr_mcp.Mcp.{entry_if, unless_empty}
use dapr_mcp.Auth.{
  Sentinel, invalid_token, token_expired, invalid_audience, Failure, common, wrapping, Claim,
  number, Identity, mode_dapr_sentry,
}
use dapr_mcp.Auth.Config.{DaprSentryConfig}
use mathlib.Core.Option

-- `jose.JSONWebKey`: its ID, and the key itself.
pub record WebKey (K : Type 0) : Type 0 where
  pub key_id : String
  pub key : K

pub record HttpResponse : Type 0 where
  pub status_code : ℕ
  pub body : Result String String

-- The packages that the authenticator calls: go-jose (`ParseSigned`, the key IDs of the headers,
-- the signature check of `Claims`, `JSONWebKeySet.Key`), net/http and encoding/json, `time.Now`
-- (the clock is part of the world), and the quoting of `%q`.
pub record Packages (W J K : Type 0) : Type 0 where
  pub parse_signed : String → Result String J
  pub header_key_ids : J → List String
  pub verify : J → K → Result String SentryClaims
  pub find_key : List (WebKey K) → String → List (WebKey K)
  pub request_error : String → Option String
  pub get : String → W → Result String HttpResponse × W
  pub unmarshal : String → Result String (List (WebKey K))
  pub now : W → Instant
  pub quote : String → String

-- The fields of `DaprSentryAuthenticator` that change.
pub record Cache (K : Type 0) : Type 0 where
  pub jwks : Option (List (WebKey K))
  pub last_refresh : Instant

pub record State (W K : Type 0) : Type 0 where
  pub cache : Cache K
  pub world : W

module _ {W J K : Type 0} (p : Packages W J K) (cfg : DaprSentryConfig) where
  failed : Cache K → W → List String → Result String (Unit {0}) × State W K
  failed c w pieces = (err (format pieces), record { cache = c; world = w })

  store : Cache K → Result String (List (WebKey K)) → W → Result String (Unit {0}) × State W K
  store c (err e) w = failed c w ("failed to parse JWKS: " ∷ e ∷ [])
  store c (ok keys) w =
      (ok tt, record { cache = record { jwks = some keys; last_refresh = p.now w }; world = w })

  read_body : Cache K → Result String String → W → Result String (Unit {0}) × State W K
  read_body c (err e) w = failed c w ("failed to read JWKS response: " ∷ e ∷ [])
  read_body c (ok body) w = store c (p.unmarshal body) w

  receive : Cache K → Result String HttpResponse × W → Result String (Unit {0}) × State W K
  receive c (err e, w) = failed c w ("failed to fetch JWKS: " ∷ e ∷ [])
  receive c (ok resp, w) =
      if nat_eq resp.status_code 200
      then read_body c resp.body w
      else failed c w ("JWKS endpoint returned status " ∷ decimal resp.status_code ∷ [])

  request_keys : Option String → State W K → Result String (Unit {0}) × State W K
  request_keys (some e) s = failed s.cache s.world ("failed to create request: " ∷ e ∷ [])
  request_keys none s = receive s.cache (p.get cfg.jwks_url s.world)

  -- `refreshJWKS`.
  unfoldable pub refresh_jwks : State W K → Result String (Unit {0}) × State W K
  unfolding failed store read_body receive request_keys
  refresh_jwks s = request_keys (p.request_error cfg.jwks_url) s

  abbrev pub matching : String → List (WebKey K) → List (WebKey K)
  matching key_id keys = if key_id == "" then keys else p.find_key keys key_id

  abbrev pub keys_of : Option (List (WebKey K)) → List (WebKey K)
  keys_of none = []
  keys_of (some keys) = keys

  first_key : String → List (WebKey K) → State W K → Result String K × State W K
  first_key key_id [] s = (err (format ("key " ∷ p.quote key_id ∷ " not found in JWKS" ∷ [])), s)
  first_key key_id (k ∷ ks) s = (ok k.key, s)

  -- The second search, after a refresh; a refresh that succeeds leaves keys in the cache.
  search_again : String → Result String (Unit {0}) × State W K → Result String K × State W K
  search_again key_id (err e, s) =
      (err (format ("key " ∷ p.quote key_id ∷ " not found and refresh failed: " ∷ e ∷ [])), s)
  search_again key_id (ok u, s) = first_key key_id (matching key_id (keys_of s.cache.jwks)) s

  search : String → List (WebKey K) → State W K → Result String K × State W K
  search key_id [] s = search_again key_id (refresh_jwks s)
  search key_id (k ∷ ks) s = first_key key_id (k ∷ ks) s

  search_in : String → Option (List (WebKey K)) → State W K → Result String K × State W K
  search_in key_id none s = (err "no JWKS available", s)
  search_in key_id (some keys) s = search key_id (matching key_id keys) s

  abbrev search_cache : String → State W K → Result String K × State W K
  search_cache key_id s = search_in key_id s.cache.jwks s

  -- `getSigningKey`. An error of the first refresh is only logged.
  unfoldable pub get_signing_key : String → State W K → Result String K × State W K
  unfolding refresh_jwks first_key search_again search search_in
  get_signing_key key_id s = search_cache key_id (
      if is_stale (p.now s.world) s.cache.last_refresh cfg.refresh_interval
      then (refresh_jwks s).1
      else s)

  -- What follows the look-up of the key.
  judge : Result String SentryClaims → State W K → Result Failure Identity × State W K
  judge (err e) s = (err (wrapping invalid_token ("failed to verify JWT signature: " ∷ e ∷ [])), s)
  judge (ok claims) s = (check_claims p.quote cfg (p.now s.world) claims, s)

  verified : J → Result String K × State W K → Result Failure Identity × State W K
  verified jwt (err e, s) = (err (wrapping invalid_token (e ∷ [])), s)
  verified jwt (ok key, s) = judge (p.verify jwt key) s

  for_header : J → List String → State W K → Result Failure Identity × State W K
  for_header jwt [] s = (err (wrapping invalid_token ("no JWT headers" ∷ [])), s)
  for_header jwt (key_id ∷ ids) s = verified jwt (get_signing_key key_id s)

  parsed : Result String J → State W K → Result Failure Identity × State W K
  parsed (err e) s = (err (wrapping invalid_token ("failed to parse JWT: " ∷ e ∷ [])), s)
  parsed (ok jwt) s = for_header jwt (p.header_key_ids jwt) s

  -- `Authenticate`.
  unfoldable pub authenticate : String → State W K → Result Failure Identity × State W K
  unfolding get_signing_key check_claims judge verified for_header parsed
  authenticate token s = parsed (p.parse_signed token) s

  -- `NewDaprSentryAuthenticator`: it fails if the first refresh does. The time of a refresh before
  -- the first is never read.
  pub started : Result String (Unit {0}) × State W K → Result String (State W K) × W
  started (err e, s) =
      (err (format ("failed to fetch JWKS from " ∷ cfg.jwks_url ∷ ": " ∷ e ∷ [])), s.world)
  started (ok u, s) = (ok s, s.world)

  unfoldable pub new_authenticator : W → Result String (State W K) × W
  unfolding refresh_jwks started
  new_authenticator w =
      started
        (refresh_jwks (record { cache = record { jwks = none; last_refresh = 0 }; world = w }))
