-- ===== src/Auth/Spiffe/Accepted.antt =====
-- Which SPIFFE JWT-SVIDs are accepted.
use dapr_mcp.Base.{
  String, true, not, ◌&&◌, ◌||◌, List, [], ◌∷◌, ltb, length, mem, ok, ◌==◌, ◌≡◌, refl, arith,
  eq_iff,
}
use dapr_mcp.Auth.Config.{SpiffeConfig}
use dapr_mcp.Auth.Spiffe.{
  Svid, SpiffeAuthenticator, SpiffePackage, allowed_clients, is_ok, is_empty, authenticate_svid,
  source_options, built, new_spiffe_authenticator,
}

mem-allowed_clients : (id : String) (cs : List String) → mem id (allowed_clients cs) ≡ mem id cs
unfolding allowed_clients
mem-allowed_clients id [] = refl
mem-allowed_clients id (c ∷ cs) =
    ground (arith, mem-allowed_clients id cs, mem-allowed_clients c cs, eq_iff id c)

mem_some : (c : String) (cs : List String) → mem c cs ≡ true → ltb 0 (length cs) ≡ true
mem_some c [] h = cc
mem_some c (d ∷ cs) h = ground arith

some_allowed : (cs : List String) → ltb 0 (length (allowed_clients cs)) ≡ not (is_empty cs)
unfolding allowed_clients
some_allowed [] = refl
some_allowed (c ∷ cs) = ground (arith, mem_some c (allowed_clients cs))

pub authenticate_svid_iff :
    {W : Type 0} (a : SpiffeAuthenticator W) (token : String) (w w' : W) (svid : Svid)
    → a.allowed ≡ allowed_clients a.config.allowed_clients
    → a.parse_and_validate token (a.server_id ∷ []) w ≡ (ok svid, w')
    → is_ok (authenticate_svid a token w).0 ≡ (
        (svid.trust_domain_name == a.config.trust_domain)
        && (is_empty a.config.allowed_clients || mem svid.id a.config.allowed_clients))
unfolding authenticate_svid
authenticate_svid_iff a token w w' svid built valid =
    rw (valid, built)
      (ground (
        arith,
        some_allowed a.config.allowed_clients,
        mem-allowed_clients svid.id a.config.allowed_clients,
      ))

-- Where the server's ID parses and the Workload API answers, the authenticator is built, and of the
-- tokens that go-spiffe validates for the server's ID it accepts exactly those whose trust domain
-- is the configured one and whose ID is on the configured list of clients, unless that list is
-- empty.
pub authenticate_svid-new_spiffe_authenticator :
    {W S : Type 0} (spiffe : SpiffePackage W S) (cfg : SpiffeConfig) (id : String) (source : S)
    (w0 w1 w w' : W) (token : String) (svid : Svid)
    → spiffe.from_string cfg.server_id ≡ ok id
    → spiffe.new_jwt_source (source_options cfg) w0 ≡ (ok source, w1)
    → spiffe.parse_and_validate source token (id ∷ []) w ≡ (ok svid, w')
    → (new_spiffe_authenticator spiffe cfg w0 ≡ (ok (built spiffe cfg id source), w1))
      × (is_ok (authenticate_svid (built spiffe cfg id source) token w).0 ≡ (
          (svid.trust_domain_name == cfg.trust_domain)
          && (is_empty cfg.allowed_clients || mem svid.id cfg.allowed_clients)))
unfolding new_spiffe_authenticator
authenticate_svid-new_spiffe_authenticator spiffe cfg id source w0 w1 w w' token svid parsed
      connected valid =
    (
      rw parsed (rw connected refl),
      authenticate_svid_iff (built spiffe cfg id source) token w w' svid refl valid,
    )
