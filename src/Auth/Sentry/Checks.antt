-- ===== src/Auth/Sentry/Checks.antt =====
-- pkg/auth/sentry.go: the age of the keys, and the checks of the claims.
use dapr_mcp.Base.{
  ℕ, ◌+◌, ◌-◌, ◌*◌, ◌^◌, ℤ, pos, negsuc, String, Bool, true, false, not, ◌&&◌, Option, none, some,
  List, [], ◌∷◌, ◌++◌, if◌then◌else◌, ltb, Result, ok, err, ◌==◌, has_prefix, trim_prefix, cut,
}
use dapr_mcp.Mcp.{entry_if, unless_empty}
use dapr_mcp.Auth.{
  invalid_token, token_expired, invalid_audience, Failure, common, wrapping, Claim, number,
  Identity, mode_dapr_sentry,
}
use dapr_mcp.Auth.Config.{DaprSentryConfig}
use mathlib.Core.Option

-- An instant, in nanoseconds from the Unix epoch.
abbrev pub Instant : Type 0
Instant = ℕ

-- `daprSentryClaims`; the dates are `jwt.NumericDate`, in seconds from the Unix epoch.
pub record SentryClaims : Type 0 where
  pub id : String
  pub use_claim : String
  pub subject : String
  pub audience : List String
  pub issued_at : Option ℤ
  pub not_before : Option ℤ
  pub expiry : Option ℤ

abbrev pub max_duration : ℕ
max_duration = 2 ^ 63 - 1

-- `time.Since(last) > interval`; the difference stops at the largest `time.Duration`.
unfoldable pub is_stale : Instant → Instant → ℤ → Bool
is_stale now last (pos d) =
    let since = now - last in ltb d (if ltb max_duration since then max_duration else since)
is_stale now last (negsuc d) = ltb last (now + d + 1)

-- `containsAudience`.
unfoldable pub contains_audience : List String → String → Bool
contains_audience [] expected = false
contains_audience (aud ∷ auds) expected =
    let rest = contains_audience auds expected in if aud == expected then true else rest

-- `isValidSPIFFEID`; the first part of `SplitN(…, "/", 2)` is what is before the first slash.
unfoldable pub is_valid_spiffe_id : String → String → Bool
is_valid_spiffe_id subject trust_domain =
    if not (has_prefix subject "spiffe://")
    then false
    else (cut b'/' (trim_prefix subject "spiffe://")).0 == trust_domain

-- `now.After(t.Time())` and `now.Before(t.Time())` for a date in seconds.
abbrev pub is_after : Instant → ℤ → Bool
is_after now (pos s) = ltb (s * 10 ^ 9) now
is_after now (negsuc s) = true

abbrev pub is_before : Instant → ℤ → Bool
is_before now (pos s) = ltb now (s * 10 ^ 9)
is_before now (negsuc s) = false

abbrev pub is_expired : Instant → Option ℤ → Bool
is_expired now none = false
is_expired now (some t) = is_after now t

abbrev pub is_early : Instant → Option ℤ → Bool
is_early now none = false
is_early now (some t) = is_before now t

-- The identity that `Authenticate` builds.
abbrev pub identity_of : SentryClaims → Identity
identity_of c = record {
  subject = c.subject;
  issuer = "";
  audience = c.audience;
  email = "";
  name = "";
  claims =
      entry_if "jti" (Option.map Claim.text (unless_empty c.id))
      ++ (entry_if "use" (Option.map Claim.text (unless_empty c.use_claim))
          ++ (entry_if "iat" (Option.map number c.issued_at)
              ++ entry_if "exp" (Option.map number c.expiry)));
  auth_method = mode_dapr_sentry;
}

-- The checks of `Authenticate` on the claims of a verified token.
unfoldable pub check_claims :
    (String → String) → DaprSentryConfig → Instant → SentryClaims → Result Failure Identity
check_claims quote cfg now c =
    if is_expired now c.expiry
    then err (common token_expired)
    else if is_early now c.not_before
    then err (wrapping invalid_token ("token not yet valid" ∷ []))
    else if not (cfg.audience == "") && not (contains_audience c.audience cfg.audience)
    then err (wrapping invalid_audience ("expected audience " ∷ quote cfg.audience ∷ []))
    else if c.subject == ""
    then err (wrapping invalid_token ("missing subject claim" ∷ []))
    else if not (is_valid_spiffe_id c.subject cfg.trust_domain)
    then err (
        wrapping invalid_token (
          "invalid trust domain in subject "
          ∷ quote c.subject
          ∷ ", expected "
          ∷ quote cfg.trust_domain
          ∷ []))
    else ok (identity_of c)
