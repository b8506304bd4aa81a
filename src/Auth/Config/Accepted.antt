-- ===== src/Auth/Config/Accepted.antt =====
-- Which configurations `Validate` accepts.
use dapr_mcp.Base.{
  String, Bool, true, false, not, ◌&&◌, ◌||◌, Option, none, some, if◌then◌else◌, ◌==◌, ◌≡◌, refl,
  arith, eq_iff, Bool-cases, inl, inr,
}
use dapr_mcp.Auth.{mode_disabled, mode_oidc, mode_spiffe, mode_hybrid, mode_dapr_sentry}
use dapr_mcp.Auth.Config.{
  OidcConfig, SpiffeConfig, DaprSentryConfig, AuthConfig, validate_oidc, validate_spiffe,
  validate_dapr_sentry, validate_hybrid, validate, or_else,
}

abbrev pub is_none {ℓ} : {A : Type ℓ} → Option A → Bool
is_none none = true
is_none (some a) = false

-- The methods that a mode uses.
abbrev pub uses_oidc : AuthConfig → Bool
uses_oidc c = (c.mode == mode_oidc || c.mode == mode_hybrid) && c.oidc.enabled

abbrev pub uses_spiffe : AuthConfig → Bool
uses_spiffe c = (c.mode == mode_spiffe || c.mode == mode_hybrid) && c.spiffe.enabled

abbrev pub uses_dapr_sentry : AuthConfig → Bool
uses_dapr_sentry c = (c.mode == mode_dapr_sentry || c.mode == mode_hybrid) && c.dapr_sentry.enabled

-- The settings that a method needs.
abbrev pub oidc_complete : OidcConfig → Bool
oidc_complete c = not (c.issuer_url == "") && not (c.client_id == "")

abbrev pub spiffe_complete : SpiffeConfig → Bool
spiffe_complete c = not (c.trust_domain == "") && not (c.server_id == "")

abbrev pub dapr_sentry_complete : DaprSentryConfig → Bool
dapr_sentry_complete c = not (c.jwks_url == "") && not (c.trust_domain == "")

-- Some method is used, and each that is used has its settings.
abbrev pub can_authenticate : AuthConfig → Bool
can_authenticate c =
    (uses_oidc c || (uses_spiffe c || uses_dapr_sentry c))
    && ((not (uses_oidc c) || oidc_complete c.oidc)
        && ((not (uses_spiffe c) || spiffe_complete c.spiffe)
            && (not (uses_dapr_sentry c) || dapr_sentry_complete c.dapr_sentry)))

is_none-validate_oidc :
    (c : OidcConfig) → is_none (validate_oidc c) ≡ (not c.enabled || oidc_complete c)
unfolding validate_oidc
is_none-validate_oidc c = ground arith

is_none-validate_spiffe :
    (c : SpiffeConfig) → is_none (validate_spiffe c) ≡ (not c.enabled || spiffe_complete c)
unfolding validate_spiffe
is_none-validate_spiffe c = ground arith

is_none-validate_dapr_sentry :
    (c : DaprSentryConfig)
    → is_none (validate_dapr_sentry c) ≡ (not c.enabled || dapr_sentry_complete c)
unfolding validate_dapr_sentry
is_none-validate_dapr_sentry c = ground arith

is_none-or_else {ℓ} :
    {A : Type ℓ} (x y : Option A) → is_none (or_else x y) ≡ (is_none x && is_none y)
is_none-or_else none y = refl
is_none-or_else (some a) y = refl

is_none-if {ℓ} :
    {A : Type ℓ} (b : Bool) (x y : Option A)
    → is_none (if b then x else y) ≡ (if b then is_none x else is_none y)
is_none-if true x y = refl
is_none-if false x y = refl

is_none-validate_hybrid :
    (c : AuthConfig)
    → is_none (validate_hybrid c) ≡ (
        (c.oidc.enabled || (c.spiffe.enabled || c.dapr_sentry.enabled))
        && ((not c.oidc.enabled || oidc_complete c.oidc)
            && ((not c.spiffe.enabled || spiffe_complete c.spiffe)
                && (not c.dapr_sentry.enabled || dapr_sentry_complete c.dapr_sentry))))
unfolding validate_hybrid
is_none-validate_hybrid c =
    simp
      (
        is_none-or_else, is_none-if, is_none-validate_oidc, is_none-validate_spiffe,
        is_none-validate_dapr_sentry,
      )
      (ground arith)

pub other_mode : (s m n : String) → (m == n) ≡ false → (s == m) ≡ true → (s == n) ≡ false
other_mode s m n k h = ground (arith, eq_iff s m)

module _ (c : AuthConfig) where
  abbrev IsMode : String → Type 0
  IsMode m = (c.mode == m) ≡ true

  abbrev Agrees : Type 0
  Agrees = is_none (validate c) ≡ (not c.enabled || (c.mode == mode_disabled || can_authenticate c))

  -- A mode is none of the others.
  not_mode : (m n : String) → IsMode m → (m == n) ≡ false → (c.mode == n) ≡ false
  not_mode m n h k = other_mode c.mode m n k h

  agrees-oidc : IsMode mode_oidc → Agrees
  unfolding validate
  agrees-oidc h = ground (
    arith,
    h,
    is_none-validate_oidc c.oidc,
    not_mode mode_oidc mode_spiffe h refl,
    not_mode mode_oidc mode_hybrid h refl,
    not_mode mode_oidc mode_dapr_sentry h refl,
    not_mode mode_oidc mode_disabled h refl,
  )

  agrees-spiffe : IsMode mode_spiffe → Agrees
  unfolding validate
  agrees-spiffe h = ground (
    arith,
    h,
    is_none-validate_spiffe c.spiffe,
    not_mode mode_spiffe mode_oidc h refl,
    not_mode mode_spiffe mode_hybrid h refl,
    not_mode mode_spiffe mode_dapr_sentry h refl,
    not_mode mode_spiffe mode_disabled h refl,
  )

  agrees-dapr_sentry : IsMode mode_dapr_sentry → Agrees
  unfolding validate
  agrees-dapr_sentry h = ground (
    arith,
    h,
    is_none-validate_dapr_sentry c.dapr_sentry,
    not_mode mode_dapr_sentry mode_oidc h refl,
    not_mode mode_dapr_sentry mode_spiffe h refl,
    not_mode mode_dapr_sentry mode_hybrid h refl,
    not_mode mode_dapr_sentry mode_disabled h refl,
  )

  agrees-hybrid : IsMode mode_hybrid → Agrees
  unfolding validate
  agrees-hybrid h = ground (
    arith,
    h,
    is_none-validate_hybrid c,
    not_mode mode_hybrid mode_oidc h refl,
    not_mode mode_hybrid mode_spiffe h refl,
    not_mode mode_hybrid mode_dapr_sentry h refl,
    not_mode mode_hybrid mode_disabled h refl,
  )

  agrees-rest :
      (c.mode == mode_oidc) ≡ false
      → (c.mode == mode_spiffe) ≡ false
      → (c.mode == mode_dapr_sentry) ≡ false
      → (c.mode == mode_hybrid) ≡ false
      → Agrees
  unfolding validate
  agrees-rest h i j k = ground (arith, h, i, j, k)

  -- A configuration is accepted exactly when authentication is off, by its flag or its mode, or the
  -- mode uses some enabled method and every method that it uses has the settings it needs.
  pub is_none-validate :
      is_none (validate c) ≡ (not c.enabled || (c.mode == mode_disabled || can_authenticate c))
  is_none-validate = elim (Bool-cases (c.mode == mode_oidc)) [
    | inl h ↦ agrees-oidc h
    | inr h ↦ elim (Bool-cases (c.mode == mode_spiffe)) [
      | inl i ↦ agrees-spiffe i
      | inr i ↦ elim (Bool-cases (c.mode == mode_dapr_sentry)) [
        | inl j ↦ agrees-dapr_sentry j
        | inr j ↦ elim (Bool-cases (c.mode == mode_hybrid)) [
          | inl k ↦ agrees-hybrid k
          | inr k ↦ agrees-rest h i j k
        ]
      ]
    ]
  ]
