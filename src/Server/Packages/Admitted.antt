-- ===== src/Server/Packages/Admitted.antt =====
-- What a request must bring to reach the MCP handler in the mode `dapr-sentry`.
use dapr_mcp.Base.{
  ℕ, String, true, false, not, ◌&&◌, Option, none, some, List, [], ◌∷◌, Result, ok, err, ◌==◌, ◌≡◌,
  refl, ap, Lacks, arith, Bool-cases, inl, inr, eq_iff, format,
}
use dapr_mcp.Mcp.{pure, call}
use dapr_mcp.Mcp.Outcomes.{IfOk, IfOk-bind, IfOk-call}
use dapr_mcp.Auth.{Failure, Identity, Authenticator, with_identity, mode_disabled, mode_dapr_sentry}
use dapr_mcp.Auth.Config.{AuthConfig, validate}
use dapr_mcp.Auth.Middleware.{
  Request, Response, Handler, http_error, should_skip, extract_token_with_source, handler,
}
use dapr_mcp.Auth.Middleware.Admission.{Tries, is_required, handler-Tries}
use dapr_mcp.Auth.Oidc.{OidcPackage}
use dapr_mcp.Auth.Spiffe.{SpiffePackage}
use dapr_mcp.Auth.Sentry.{Packages, State, authenticate, new_authenticator}
use dapr_mcp.Auth.Sentry.Keys.{IsProven, authenticate_sound}
use dapr_mcp.Server.Authentication.{build_authenticators, auth_middleware}
use dapr_mcp.Server.Start.{protect, when_valid, with_authenticators}
use dapr_mcp.Server.Start.Guarded.{middleware_of, Refuses-auth_middleware}
use dapr_mcp.Server.Packages.{dapr_sentry_authenticator, with_first_keys, auth_package}

module _ {W K J : Type 0} (sentry : Packages W J K) (cfg : AuthConfig) (lower : ℕ → String)
    (next : Handler (State W K)) (r : Request) where
  abbrev token : String
  token = (extract_token_with_source (middleware_of {W = State W K} lower cfg []) r).0

  -- A request is admitted with the identity of a proven token, or refused with 401.
  pub data Outcome (x : Response × State W K) : Type 0 where
    admitted :
        (id : Identity) (s : State W K)
        → IsProven sentry cfg.dapr_sentry token id s
        → x ≡ next (record r { context = with_identity r.context id }) s
        → Outcome x
    refused : (message : String) (s : State W K) → x ≡ (http_error message 401, s) → Outcome x

  abbrev pub Admits : Handler (State W K) → Type 0
  Admits h = (v : State W K) → Outcome (h r v)

  abbrev only_sentry : List (Authenticator (State W K))
  only_sentry = dapr_sentry_authenticator sentry cfg.dapr_sentry ∷ []

  module _ (d : Lacks b'/' cfg.dapr_sentry.trust_domain) where
    Outcome-handler :
        (v : State W K) (x : Result Failure Identity × State W K)
        → is_required (middleware_of lower cfg only_sentry) r ≡ true
        → (token == "") ≡ false
        → authenticate sentry cfg.dapr_sentry token v ≡ x
        → Outcome (handler (middleware_of lower cfg only_sentry) next r v)
    unfolding extract_token_with_source
    Outcome-handler v (ok id, s) on given e =
        Outcome.admitted id s (authenticate_sound sentry cfg.dapr_sentry token d v s id e) (
          handler-Tries (middleware_of lower cfg only_sentry) next r v s (some id) on
            (λ none_given. cc)
            (Tries.accepted (dapr_sentry_authenticator sentry cfg.dapr_sentry) [] v s id e))
    Outcome-handler v (err f, s) on given e = Outcome.refused "Unauthorized: invalid token" s (
        handler-Tries (middleware_of lower cfg only_sentry) next r v s none on (λ none_given. cc)
          (Tries.rejected (dapr_sentry_authenticator sentry cfg.dapr_sentry) [] v s s f none e
            (Tries.exhausted s)))

    Admits-auth_middleware :
        {P V S : Type 0} (oidc : OidcPackage W P V) (spiffe : SpiffePackage W S)
        (auths : List (Authenticator (State W K)))
        → (cfg.enabled && not (cfg.mode == mode_disabled)) ≡ true
        → should_skip cfg.skip_paths r.path ≡ false
        → auths ≡ only_sentry
        → Admits (auth_middleware (auth_package oidc spiffe sentry) cfg lower auths next)
    unfolding auth_middleware
    Admits-auth_middleware oidc spiffe auths on kept e v = elim (Bool-cases (token == "")) [
      | inl none_given ↦ Outcome.refused "Unauthorized: no token provided" v (
          Refuses-auth_middleware (λ f. "") lower (auth_package oidc spiffe sentry) cfg next r on
            kept ((eq_iff token "").0 none_given) auths v)
      | inr given ↦
          rw (on, e)
            (Outcome-handler v (authenticate sentry cfg.dapr_sentry token v)
              (ground (arith, on, kept)) given refl)
    ]

  module _ {P V S : Type 0} (oidc : OidcPackage W P V) (spiffe : SpiffePackage W S)
      (text : Failure → String) where
    abbrev message : String → String
    message e = format ("failed to create " ∷ "Dapr Sentry" ∷ " authenticator: " ∷ e ∷ [])

    IsOnly : Authenticator (State W K) → Type 0
    IsOnly a = a ≡ dapr_sentry_authenticator sentry cfg.dapr_sentry

    with_first_keys-IsOnly :
        (s : State W K) (x : Result String (State W K) × W)
        → IfOk IsOnly (with_first_keys oidc spiffe sentry cfg.dapr_sentry s x)
    unfolding IsOnly
    with_first_keys-IsOnly s (err e, w) = tt
    with_first_keys-IsOnly s (ok first, w) = refl

    build_authenticators-only_sentry :
        (s : State W K)
        → cfg.mode ≡ mode_dapr_sentry
        → IfOk
            (λ auths. auths ≡ only_sentry)
            (build_authenticators (auth_package oidc spiffe sentry) cfg s)
    unfolding build_authenticators IsOnly
    build_authenticators-only_sentry s e =
        let make = (auth_package oidc spiffe sentry).new_dapr_sentry cfg.dapr_sentry in
        rw e (
          IfOk-bind IsOnly (λ auths. auths ≡ only_sentry) (λ a. pure (a ∷ [])) (call make message) s
            (IfOk-call IsOnly make message s
              (with_first_keys-IsOnly s (new_authenticator sentry cfg.dapr_sentry s.world)))
            (λ a v same. ap (λ x. x ∷ []) same))

    module _ (d : Lacks b'/' cfg.dapr_sentry.trust_domain) where
      Admits-with_authenticators :
          (built : Result String (List (Authenticator (State W K))) × State W K)
          → (cfg.enabled && not (cfg.mode == mode_disabled)) ≡ true
          → should_skip cfg.skip_paths r.path ≡ false
          → IfOk (λ auths. auths ≡ only_sentry) built
          → IfOk Admits
              (with_authenticators text lower (auth_package oidc spiffe sentry) cfg next built)
      Admits-with_authenticators (ok auths, s) on kept e =
          Admits-auth_middleware d oidc spiffe auths on kept e
      Admits-with_authenticators (err f, s) on kept e = tt

      Admits-when_valid :
          (o : Option Failure) (s : State W K)
          → cfg.enabled ≡ true
          → cfg.mode ≡ mode_dapr_sentry
          → should_skip cfg.skip_paths r.path ≡ false
          → IfOk Admits (when_valid text lower (auth_package oidc spiffe sentry) cfg next o s)
      Admits-when_valid (some f) s enabled mode kept = tt
      Admits-when_valid none s enabled mode kept =
          let on : (cfg.enabled && not (cfg.mode == mode_disabled)) ≡ true =
            rw (enabled, mode) refl in
          rw on (
            Admits-with_authenticators
              (build_authenticators (auth_package oidc spiffe sentry) cfg s) on kept
              (build_authenticators-only_sentry s mode))

      -- In the mode `dapr-sentry`, whatever handler `main` puts before the MCP handler `next`, it
      -- answers a request to a path that is not skipped in one of two ways: it passes it on to
      -- `next` with the identity of a token of Dapr Sentry whose signature a cached key verifies and
      -- whose claims hold for this server, or it answers 401 itself. The trust domain holds no slash.
      pub protect-Admits :
          (s : State W K)
          → cfg.enabled ≡ true
          → cfg.mode ≡ mode_dapr_sentry
          → should_skip cfg.skip_paths r.path ≡ false
          → IfOk Admits (protect text lower (auth_package oidc spiffe sentry) cfg next s)
      unfolding protect
      protect-Admits s enabled mode kept = Admits-when_valid (validate cfg) s enabled mode kept
