-- ===== src/Auth/Oidc.antt =====
-- pkg/auth/oidc.go: the authenticator for OIDC tokens.
use dapr_mcp.Base.{String, Bool, List, [], ◌∷◌, Dict, Result, ok, err, format}
use dapr_mcp.Mcp.{Act, pure, call, ◌>>=◌}
use dapr_mcp.Auth.{
  Failure, wrapping, plain, invalid_token, Claim, Identity, Authenticator, mode_oidc,
}
use dapr_mcp.Auth.Config.{OidcConfig}

-- `oidc.IDToken` as far as it is read: the two uses of `Claims` decode its payload.
pub record IdToken : Type 0 where
  pub subject : String
  pub issuer : String
  pub audience : List String
  pub decode_profile : Result String (String × String)
  pub decode_all : Result String (Dict Claim)

abbrev all_claims : Result String (Dict Claim) → Dict Claim
all_claims (ok claims) = claims
all_claims (err e) = []

abbrev read_claims : IdToken → Result Failure Identity
read_claims t = elim t.decode_profile [
  | err e ↦ err (plain ("failed to parse token claims: " ∷ e ∷ []))
  | ok profile ↦ ok (record {
    subject = t.subject;
    issuer = t.issuer;
    audience = t.audience;
    email = profile.0;
    name = profile.1;
    claims = all_claims t.decode_all;
    auth_method = mode_oidc;
  })
]

abbrev read_token : {W : Type 0} → Result String IdToken × W → Result Failure Identity × W
read_token (err e, w) = (err (wrapping invalid_token (e ∷ [])), w)
read_token (ok t, w) = (read_claims t, w)

-- `Authenticate`; the verifier of go-oidc is a parameter.
abbrev pub authenticate_id_token :
    {W : Type 0}
    → (String → W → Result String IdToken × W)
    → String
    → W
    → Result Failure Identity × W
authenticate_id_token verify token w = read_token (verify token w)

-- `oidc.Config` as far as it is set.
pub record VerifierConfig : Type 0 where
  pub client_id : String
  pub skip_issuer_check : Bool
  pub supported_signing_algs : List String

-- go-oidc: `NewProvider`, which reads the issuer's discovery document, `Provider.Verifier`, and
-- `IDTokenVerifier.Verify`.
pub record OidcPackage (W P V : Type 0) : Type 0 where
  pub new_provider : String → Act W P
  pub verifier : P → VerifierConfig → V
  pub verify : V → String → W → Result String IdToken × W

-- `OIDCAuthenticator`.
pub record OidcAuthenticator (P V : Type 0) : Type 0 where
  pub provider : P
  pub verifier : V
  pub config : OidcConfig

module _ {W P V : Type 0} (oidc : OidcPackage W P V) where
  abbrev pub verifier_of : OidcConfig → P → V
  verifier_of cfg provider = oidc.verifier provider (record {
    client_id = cfg.client_id;
    skip_issuer_check = cfg.skip_issuer_check;
    supported_signing_algs = cfg.allowed_algorithms;
  })

  -- `NewOIDCAuthenticator`.
  unfoldable pub new_oidc_authenticator : OidcConfig → Act W (OidcAuthenticator P V)
  new_oidc_authenticator cfg = do
    provider ←
        call (oidc.new_provider cfg.issuer_url)
          λ e. format ("failed to create OIDC provider: " ∷ e ∷ [])
    pure (record { provider = provider; verifier = verifier_of cfg provider; config = cfg })

  -- What `main` uses of it.
  abbrev pub oidc_authenticator : OidcAuthenticator P V → Authenticator W
  oidc_authenticator a = record {
    mode = mode_oidc;
    authenticate = authenticate_id_token (oidc.verify a.verifier);
  }
