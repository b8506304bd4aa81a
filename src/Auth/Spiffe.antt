-- ===== src/Auth/Spiffe.antt =====
-- pkg/auth/spiffe.go: the authenticator for SPIFFE JWT-SVIDs.
pub mod Accepted
use dapr_mcp.Base.{
  String, Bool, true, false, not, ◌&&◌, ◌||◌, List, [], ◌∷◌, if◌then◌else◌, ltb, length, mem, Dict,
  Result, ok, err, format, ◌==◌, ◌≡◌, arith, eq_iff, refl,
}
use dapr_mcp.Mcp.{Act}
use dapr_mcp.Auth.{
  Failure, wrapping, invalid_token, invalid_issuer, Claim, Identity, Authenticator, mode_spiffe,
}
use dapr_mcp.Auth.Config.{SpiffeConfig}

-- `jwtsvid.SVID` as far as it is read: `ID.String()`, `ID.TrustDomain()` by `Name` and by `String`.
pub record Svid : Type 0 where
  pub id : String
  pub trust_domain_name : String
  pub trust_domain : String
  pub audience : List String
  pub claims : Dict Claim

-- `SPIFFEAuthenticator`, with the text of its server ID, and in place of its JWT source the two calls
-- on that: `ParseAndValidate` of go-spiffe, which takes the token and the accepted audiences, and
-- `Close`.
pub record SpiffeAuthenticator (W : Type 0) : Type 0 where
  pub config : SpiffeConfig
  pub server_id : String
  pub allowed : List String
  pub parse_and_validate : String → List String → W → Result String Svid × W
  pub close_source : Act W (Unit {0})

-- The loop that builds the map of allowed clients: its keys.
unfoldable pub allowed_clients : List String → List String
allowed_clients [] = []
allowed_clients (c ∷ cs) = let rest = allowed_clients cs in if mem c rest then rest else c ∷ rest

abbrev check_svid : {W : Type 0} → SpiffeAuthenticator W → Svid → Result Failure Identity
check_svid a svid =
    if not (svid.trust_domain_name == a.config.trust_domain)
    then err (wrapping invalid_issuer ("trust domain mismatch" ∷ []))
    else if ltb 0 (length a.allowed) && not (mem svid.id a.allowed)
    then err (wrapping invalid_token ("client not in allowlist" ∷ []))
    else ok (record {
      subject = svid.id;
      issuer = svid.trust_domain;
      audience = svid.audience;
      email = "";
      name = "";
      claims = svid.claims;
      auth_method = mode_spiffe;
    })

abbrev checked :
    {W : Type 0} → SpiffeAuthenticator W → Result String Svid × W → Result Failure Identity × W
checked a (err e, w) = (err (wrapping invalid_token (e ∷ [])), w)
checked a (ok svid, w) = (check_svid a svid, w)

abbrev pub is_ok : Result Failure Identity → Bool
is_ok (ok id) = true
is_ok (err e) = false

abbrev pub is_empty : List String → Bool
is_empty [] = true
is_empty (c ∷ cs) = false

module _ {W : Type 0} where
  -- `Authenticate`.
  unfoldable pub authenticate_svid :
      SpiffeAuthenticator W → String → W → Result Failure Identity × W
  authenticate_svid a token w = checked a (a.parse_and_validate token (a.server_id ∷ []) w)

-- `workloadapi.JWTSourceOption` as far as it is used: the address of the Workload API.
pub data SourceOption : Type 0 where
  with_addr : String → SourceOption

-- go-spiffe: `spiffeid.FromString`, by the text of the ID that it gives back, `NewJWTSource` under
-- the deadline of ten seconds, with its error and whether the deadline has passed, `ParseAndValidate`
-- and `JWTSource.Close`.
pub record SpiffePackage (W S : Type 0) : Type 0 where
  pub from_string : String → Result String String
  pub new_jwt_source : List SourceOption → W → Result (String × Bool) S × W
  pub parse_and_validate : S → String → List String → W → Result String Svid × W
  pub close_source : S → Act W (Unit {0})

abbrev pub source_options : SpiffeConfig → List SourceOption
source_options cfg = if cfg.endpoint_socket == "" then [] else with_addr cfg.endpoint_socket ∷ []

abbrev source_error : SpiffeConfig → String → Bool → String
source_error cfg e true =
    format
      ("timeout connecting to SPIRE agent at " ∷ cfg.endpoint_socket ∷ " (waited 10s): " ∷ e ∷ [])
source_error cfg e false = format ("failed to create JWT source: " ∷ e ∷ [])

module _ {W S : Type 0} (spiffe : SpiffePackage W S) (cfg : SpiffeConfig) where
  abbrev pub built : String → S → SpiffeAuthenticator W
  built id source = record {
    config = cfg;
    server_id = id;
    allowed = allowed_clients cfg.allowed_clients;
    parse_and_validate = spiffe.parse_and_validate source;
    close_source = spiffe.close_source source;
  }

  abbrev with_source :
      String → Result (String × Bool) S × W → Result String (SpiffeAuthenticator W) × W
  with_source id (err (e, late), w) = (err (source_error cfg e late), w)
  with_source id (ok source, w) = (ok (built id source), w)

  abbrev with_server_id : Result String String → W → Result String (SpiffeAuthenticator W) × W
  with_server_id (err e) w = (err (format ("invalid server SPIFFE ID: " ∷ e ∷ [])), w)
  with_server_id (ok id) w = with_source id (spiffe.new_jwt_source (source_options cfg) w)

  -- `NewSPIFFEAuthenticator`.
  unfoldable pub new_spiffe_authenticator : Act W (SpiffeAuthenticator W)
  new_spiffe_authenticator w = with_server_id (spiffe.from_string cfg.server_id) w

-- `Close`.
abbrev pub close : {W : Type 0} → SpiffeAuthenticator W → Act W (Unit {0})
close a = a.close_source

-- What `main` uses of it.
abbrev pub spiffe_authenticator : {W : Type 0} → SpiffeAuthenticator W → Authenticator W
spiffe_authenticator a = record { mode = mode_spiffe; authenticate = authenticate_svid a }
