-- ===== src/Auth/Sentry/Keys.antt =====
-- The keys that `Authenticate` trusts, and when the cached ones are fetched again.
use dapr_mcp.Base.{
  String, Option, none, some, List, [], ◌∷◌, if◌then◌else◌, Result, ok, err, ◌≡◌, refl, ap, subst,
  Lacks,
}
use dapr_mcp.Auth.{Failure, Identity}
use dapr_mcp.Auth.Config.{DaprSentryConfig}
use dapr_mcp.Auth.Sentry.{
  WebKey, SentryClaims, Packages, Cache, State, is_stale, identity_of, check_claims, refresh_jwks,
  matching, keys_of, first_key, search_again, search, search_in, get_signing_key, judge, verified,
  for_header, parsed, authenticate,
}
use dapr_mcp.Auth.Sentry.Claims.{Meets, check_claims_sound}

module _ {W J K : Type 0} (p : Packages W J K) (cfg : DaprSentryConfig) where
  -- The key is the first of the cached keys that match the ID.
  abbrev pub IsTrusted : String → K → Cache K → Type 0
  IsTrusted key_id key c =
      (k : WebKey K) × (rest : List (WebKey K)) × (matching p cfg key_id (keys_of p cfg c.jwks)
        ≡ k ∷ rest)
      × (k.key ≡ key)

  abbrev Trusts : String → Result String K × State W K → Type 0
  Trusts key_id (err e, s) = Unit
  Trusts key_id (ok key, s) = IsTrusted key_id key s.cache

  first_key-Trusts :
      (key_id : String) (keys : List (WebKey K)) (s : State W K)
      → matching p cfg key_id (keys_of p cfg s.cache.jwks) ≡ keys
      → Trusts key_id (first_key p cfg key_id keys s)
  unfolding first_key
  first_key-Trusts key_id [] s e = tt
  first_key-Trusts key_id (k ∷ ks) s e = (k, ks, e, refl)

  search_again-Trusts :
      (key_id : String) (r : Result String (Unit {0}) × State W K)
      → Trusts key_id (search_again p cfg key_id r)
  unfolding search_again
  search_again-Trusts key_id (err e, s) = tt
  search_again-Trusts key_id (ok u, s) = first_key-Trusts key_id _ s refl

  search-Trusts :
      (key_id : String) (keys : List (WebKey K)) (s : State W K)
      → matching p cfg key_id (keys_of p cfg s.cache.jwks) ≡ keys
      → Trusts key_id (search p cfg key_id keys s)
  unfolding search
  search-Trusts key_id [] s e = search_again-Trusts key_id (refresh_jwks p cfg s)
  search-Trusts key_id (k ∷ ks) s e = first_key-Trusts key_id (k ∷ ks) s e

  search_in-Trusts :
      (key_id : String) (jwks : Option (List (WebKey K))) (s : State W K)
      → s.cache.jwks ≡ jwks
      → Trusts key_id (search_in p cfg key_id jwks s)
  unfolding search_in
  search_in-Trusts key_id none s e = tt
  search_in-Trusts key_id (some keys) s e =
      search-Trusts key_id (matching p cfg key_id keys) s
        (ap (λ o. matching p cfg key_id (keys_of p cfg o)) e)

  get_signing_key-Trusts :
      (key_id : String) (s : State W K) → Trusts key_id (get_signing_key p cfg key_id s)
  unfolding get_signing_key
  get_signing_key-Trusts key_id s =
      let s' =
        if is_stale (p.now s.world) s.cache.last_refresh cfg.refresh_interval
        then (refresh_jwks p cfg s).1
        else s in
      search_in-Trusts key_id s'.cache.jwks s' refl

  -- What an accepted token has been checked for.
  pub record IsProven (token : String) (id : Identity) (s : State W K) : Type 0 where
    pub jwt : J
    pub key_id : String
    pub other_ids : List String
    pub key : K
    pub claims : SentryClaims
    pub parsed : p.parse_signed token ≡ ok jwt
    pub header : p.header_key_ids jwt ≡ key_id ∷ other_ids
    pub trusted : IsTrusted key_id key s.cache
    pub signed : p.verify jwt key ≡ ok claims
    pub meets : Meets cfg (p.now s.world) claims
    pub built : id ≡ identity_of claims

  module _ (token : String) (d : Lacks b'/' cfg.trust_domain) where
    -- What a result of the steps says: an accepted token is proven.
    abbrev Proves : Result Failure Identity × State W K → Type 0
    Proves (err e, s) = Unit
    Proves (ok id, s) = IsProven token id s

    judge-Proves :
        (jwt : J) (key_id : String) (ids : List String) (key : K) (r : Result String SentryClaims)
        (s : State W K)
        → p.parse_signed token ≡ ok jwt
        → p.header_key_ids jwt ≡ key_id ∷ ids
        → IsTrusted key_id key s.cache
        → p.verify jwt key ≡ r
        → Proves (judge p cfg r s)
    unfolding judge
    judge-Proves jwt key_id ids key (err e) s pe he t v = tt
    judge-Proves jwt key_id ids key (ok claims) s pe he t v = accepted _ refl
      where
        accepted :
            (r : Result Failure Identity)
            → check_claims p.quote cfg (p.now s.world) claims ≡ r
            → Proves (r, s)
        accepted (err e) c = tt
        accepted (ok id) c =
            let sound = check_claims_sound p.quote cfg (p.now s.world) claims id d c in
            record {
              jwt = jwt;
              key_id = key_id;
              other_ids = ids;
              key = key;
              claims = claims;
              parsed = pe;
              header = he;
              trusted = t;
              signed = v;
              meets = sound.0;
              built = sound.1;
            }

    verified-Proves :
        (jwt : J) (key_id : String) (ids : List String) (r : Result String K × State W K)
        → p.parse_signed token ≡ ok jwt
        → p.header_key_ids jwt ≡ key_id ∷ ids
        → Trusts key_id r
        → Proves (verified p cfg jwt r)
    unfolding verified
    verified-Proves jwt key_id ids (err e, s) pe he t = tt
    verified-Proves jwt key_id ids (ok key, s) pe he t =
        judge-Proves jwt key_id ids key (p.verify jwt key) s pe he t refl

    for_header-Proves :
        (jwt : J) (ids : List String) (s : State W K)
        → p.parse_signed token ≡ ok jwt
        → p.header_key_ids jwt ≡ ids
        → Proves (for_header p cfg jwt ids s)
    unfolding for_header
    for_header-Proves jwt [] s pe he = tt
    for_header-Proves jwt (key_id ∷ ids) s pe he =
        verified-Proves jwt key_id ids (get_signing_key p cfg key_id s) pe he
          (get_signing_key-Trusts key_id s)

    parsed-Proves :
        (r : Result String J) (s : State W K) → p.parse_signed token ≡ r → Proves (parsed p cfg r s)
    unfolding parsed
    parsed-Proves (err e) s pe = tt
    parsed-Proves (ok jwt) s pe = for_header-Proves jwt (p.header_key_ids jwt) s pe refl

    -- An accepted token parses, and its signature is verified by the first cached key that matches
    -- the key ID of its first header; the claims under that signature have not expired, are valid
    -- already, name the configured audience if there is one, and their subject is a SPIFFE ID of the
    -- configured trust domain, which holds no slash. The identity is the one built of these claims.
    pub authenticate_sound :
        (s s' : State W K) (id : Identity)
        → authenticate p cfg token s ≡ (ok id, s')
        → IsProven token id s'
    unfolding authenticate
    authenticate_sound s s' id e = subst Proves e (parsed-Proves (p.parse_signed token) s refl)
