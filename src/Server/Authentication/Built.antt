-- ===== src/Server/Authentication/Built.antt =====
-- A server that asks for authentication has an authenticator.
use dapr_mcp.Base.{
  String, Bool, true, false, not, ◌||◌, ◌+◌, ℕ, none, List, [], ◌∷◌, ◌++◌, length, length-append,
  if◌then◌else◌, Result, ok, ◌==◌, ◌≡◌, refl, sym, ◌∙◌, ap, subst, arith, Bool-cases, inl, inr,
}
use dapr_mcp.Mcp.{Act, pure, call}
use dapr_mcp.Mcp.Outcomes.{IfOk, IfOk-bind, IfOk-all}
use dapr_mcp.Auth.{
  Authenticator, mode_disabled, mode_oidc, mode_spiffe, mode_hybrid, mode_dapr_sentry,
}
use dapr_mcp.Auth.Config.{AuthConfig, validate}
use dapr_mcp.Auth.Config.Accepted.{
  is_none, uses_oidc, uses_spiffe, uses_dapr_sentry, can_authenticate, is_none-validate, other_mode,
}
use dapr_mcp.Server.Authentication.{
  Constructors, add, when, add_oidc, add_spiffe, add_dapr_sentry, build_hybrid,
  build_authenticators,
}

abbrev one_if : Bool → ℕ
one_if b = if b then 1 else 0

module _ {W : Type 0} (make : Constructors W) (cfg : AuthConfig) where
  -- A result that is a list has the length.
  abbrev pub HasLength : ℕ → Result String (List (Authenticator W)) × W → Type 0
  HasLength n = IfOk (λ auths. length auths ≡ n)

  HasLength-add :
      (name : String) (m : Act W (Authenticator W)) (auths : List (Authenticator W)) (n : ℕ) (w : W)
      → length auths ≡ n
      → HasLength (n + 1) (add make cfg name m auths w)
  HasLength-add name m auths n w e =
      IfOk-bind (λ a. Unit) (λ (l : List (Authenticator W)). length l ≡ n + 1)
        (λ a. pure (auths ++ a ∷ [])) (call m _) w (IfOk-all (λ a. Unit) (λ a. tt) (call m _ w))
        (λ a v u. omega (arith, e, length-append auths (a ∷ [])))

  abbrev Step : Type 0
  Step = List (Authenticator W) → Act W (List (Authenticator W))

  abbrev AddsOne : Step → Type 0
  AddsOne step =
      (auths : List (Authenticator W)) (n : ℕ) (w : W)
      → length auths ≡ n
      → HasLength (n + 1) (step auths w)

  HasLength-when :
      (b : Bool) (step : Step) (auths : List (Authenticator W)) (n : ℕ) (w : W)
      → AddsOne step
      → length auths ≡ n
      → HasLength (n + one_if b) (when make cfg b step auths w)
  HasLength-when true step auths n w one e = one auths n w e
  HasLength-when false step auths n w one e = omega (arith, e)

  hybrid_count : ℕ
  hybrid_count =
      0 + one_if cfg.oidc.enabled + one_if cfg.spiffe.enabled + one_if cfg.dapr_sentry.enabled

  HasLength-build_hybrid : (w : W) → HasLength hybrid_count (build_hybrid make cfg w)
  unfolding hybrid_count
  HasLength-build_hybrid w =
      let P = λ (n : ℕ) (l : List (Authenticator W)). length l ≡ n in
      let n = 0 + one_if cfg.oidc.enabled in
      IfOk-bind (P n) (P hybrid_count) _ (when make cfg cfg.oidc.enabled (add_oidc make cfg) []) w
        (HasLength-when cfg.oidc.enabled (add_oidc make cfg) [] 0 w
          (HasLength-add "OIDC" (make.new_oidc cfg.oidc)) refl)
        (λ first v e.
          IfOk-bind (P (n + one_if cfg.spiffe.enabled)) (P hybrid_count) _
            (when make cfg cfg.spiffe.enabled (add_spiffe make cfg) first) v
            (HasLength-when cfg.spiffe.enabled (add_spiffe make cfg) first n v
              (HasLength-add "SPIFFE" (make.new_spiffe cfg.spiffe)) e)
            (λ second u k.
              HasLength-when cfg.dapr_sentry.enabled (add_dapr_sentry make cfg) second _ u
                (HasLength-add "Dapr Sentry" (make.new_dapr_sentry cfg.dapr_sentry)) k))

  abbrev pub methods : ℕ
  methods = one_if (uses_oidc cfg) + (one_if (uses_spiffe cfg) + one_if (uses_dapr_sentry cfg))

  -- For a configuration that is on and valid, the methods of each mode.
  module _ (valid : validate cfg ≡ none) (on : cfg.enabled ≡ true) where
    accepted : (not cfg.enabled || (cfg.mode == mode_disabled || can_authenticate cfg)) ≡ true
    accepted = sym (is_none-validate cfg) ∙ ap is_none valid

    methods-oidc : (cfg.mode == mode_oidc) ≡ true → 1 ≡ methods
    methods-oidc h = ground (
      arith,
      h,
      on,
      accepted,
      other_mode cfg.mode mode_oidc mode_spiffe refl h,
      other_mode cfg.mode mode_oidc mode_dapr_sentry refl h,
      other_mode cfg.mode mode_oidc mode_hybrid refl h,
      other_mode cfg.mode mode_oidc mode_disabled refl h,
    )

    methods-spiffe : (cfg.mode == mode_spiffe) ≡ true → 1 ≡ methods
    methods-spiffe h = ground (
      arith,
      h,
      on,
      accepted,
      other_mode cfg.mode mode_spiffe mode_oidc refl h,
      other_mode cfg.mode mode_spiffe mode_dapr_sentry refl h,
      other_mode cfg.mode mode_spiffe mode_hybrid refl h,
      other_mode cfg.mode mode_spiffe mode_disabled refl h,
    )

    methods-dapr_sentry : (cfg.mode == mode_dapr_sentry) ≡ true → 1 ≡ methods
    methods-dapr_sentry h = ground (
      arith,
      h,
      on,
      accepted,
      other_mode cfg.mode mode_dapr_sentry mode_oidc refl h,
      other_mode cfg.mode mode_dapr_sentry mode_spiffe refl h,
      other_mode cfg.mode mode_dapr_sentry mode_hybrid refl h,
      other_mode cfg.mode mode_dapr_sentry mode_disabled refl h,
    )

    methods-hybrid : (cfg.mode == mode_hybrid) ≡ true → hybrid_count ≡ methods
    unfolding hybrid_count
    methods-hybrid h = ground (
      arith,
      h,
      on,
      accepted,
      other_mode cfg.mode mode_hybrid mode_oidc refl h,
      other_mode cfg.mode mode_hybrid mode_spiffe refl h,
      other_mode cfg.mode mode_hybrid mode_dapr_sentry refl h,
      other_mode cfg.mode mode_hybrid mode_disabled refl h,
    )

    built_as :
        (n : ℕ) (w : W) (r : Result String (List (Authenticator W)) × W)
        → build_authenticators make cfg w ≡ r
        → n ≡ methods
        → HasLength n r
        → HasLength methods (build_authenticators make cfg w)
    built_as n w r e count h =
        subst (HasLength methods) (sym e) (subst (λ k. HasLength k r) count h)

    -- With authentication on and a configuration that validates, a successful build has one
    -- authenticator for each method that the mode uses.
    pub build_authenticators-HasLength :
        (w : W) → HasLength methods (build_authenticators make cfg w)
    unfolding build_authenticators
    build_authenticators-HasLength w = elim (Bool-cases (cfg.mode == mode_oidc)) [
      | inl h ↦
          built_as 1 w (add_oidc make cfg [] w) (rw h refl) (methods-oidc h)
            (HasLength-add "OIDC" (make.new_oidc cfg.oidc) [] 0 w refl)
      | inr h ↦ elim (Bool-cases (cfg.mode == mode_spiffe)) [
        | inl i ↦
            built_as 1 w (add_spiffe make cfg [] w) (rw (h, i) refl) (methods-spiffe i)
              (HasLength-add "SPIFFE" (make.new_spiffe cfg.spiffe) [] 0 w refl)
        | inr i ↦ elim (Bool-cases (cfg.mode == mode_dapr_sentry)) [
          | inl j ↦
              built_as 1 w (add_dapr_sentry make cfg [] w) (rw (h, i, j) refl)
                (methods-dapr_sentry j)
                (HasLength-add "Dapr Sentry" (make.new_dapr_sentry cfg.dapr_sentry) [] 0 w refl)
          | inr j ↦ elim (Bool-cases (cfg.mode == mode_hybrid)) [
            | inl k ↦
                built_as hybrid_count w (build_hybrid make cfg w) (rw (h, i, j, k) refl)
                  (methods-hybrid k) (HasLength-build_hybrid w)
            | inr k ↦
                built_as 0 w (ok [], w) (rw (h, i, j, k) refl) (ground (arith, h, i, j, k)) refl
          ]
        ]
      ]
    ]
