-- ===== src/Auth/Sentry/Claims.antt =====
-- Which claims of a verified token `Authenticate` accepts.
use dapr_mcp.Base.{
  String, true, false, ◌||◌, List, [], ◌∷◌, ok, ◌==◌, ◌≡◌, ◌⊎◌, inl, inr, arith, eq_iff, In, Lacks,
  ◌↔◌, Bool-cases, subst, has_prefix,
}
use dapr_mcp.Auth.{Identity}
use dapr_mcp.Auth.Config.{DaprSentryConfig}
use dapr_mcp.Auth.Sentry.{
  Instant, SentryClaims, contains_audience, is_valid_spiffe_id, is_expired, is_early, identity_of,
  check_claims,
}
use dapr_mcp.Auth.Sentry.SpiffeId.{IsMember, is_valid_spiffe_id_iff}

contains_audience-In :
    (auds : List String) (a : String) → contains_audience auds a ≡ true → In a auds
unfolding contains_audience
contains_audience-In [] a h = absurd (ground arith)
contains_audience-In (x ∷ xs) a h = ground (arith, eq_iff x a, contains_audience-In xs a)

-- The claims hold for this server at an instant.
pub record Meets (cfg : DaprSentryConfig) (now : Instant) (c : SentryClaims) : Type 0 where
  pub in_time : is_expired now c.expiry ≡ false
  pub started : is_early now c.not_before ≡ false
  pub for_us : (cfg.audience ≡ "") ⊎ In cfg.audience c.audience
  pub from_domain : IsMember cfg.trust_domain c.subject

passed :
    (quote : String → String) (cfg : DaprSentryConfig) (now : Instant) (c : SentryClaims)
    (id : Identity)
    → check_claims quote cfg now c ≡ ok id
    → (is_expired now c.expiry ≡ false)
      × (is_early now c.not_before ≡ false)
      × ((cfg.audience == "" || contains_audience c.audience cfg.audience) ≡ true)
      × (is_valid_spiffe_id c.subject cfg.trust_domain ≡ true)
      × (id ≡ identity_of c)
unfolding check_claims
passed quote cfg now c id h = ground arith

pub check_claims_sound :
    (quote : String → String) (cfg : DaprSentryConfig) (now : Instant) (c : SentryClaims)
    (id : Identity)
    → Lacks b'/' cfg.trust_domain
    → check_claims quote cfg now c ≡ ok id
    → Meets cfg now c × (id ≡ identity_of c)
check_claims_sound quote cfg now c id h e =
    let p = passed quote cfg now c id e in
    (
      record {
        in_time = p.0;
        started = p.1;
        for_us =
            ground (arith, eq_iff cfg.audience "", contains_audience-In c.audience cfg.audience);
        from_domain = (is_valid_spiffe_id_iff c.subject cfg.trust_domain h).0 p.3;
      },
      p.4,
    )

contains_audience_of_In :
    (auds : List String) (a : String) → In a auds → contains_audience auds a ≡ true
unfolding contains_audience
contains_audience_of_In [] a m = elim m [ ]
contains_audience_of_In (x ∷ xs) a m = ground (arith, eq_iff x a, contains_audience_of_In xs a)

nonempty_of_valid : (id domain : String) → is_valid_spiffe_id id domain ≡ true → (id == "") ≡ false
unfolding is_valid_spiffe_id has_prefix
nonempty_of_valid id domain h = elim (Bool-cases (id == "")) [
  | inl e ↦
      absurd (
        no_scheme
          (subst (λ x. has_prefix x "spiffe://" ≡ true) ((eq_iff id "").0 e) (ground arith)))
  | inr n ↦ n
]
  where
    no_scheme : has_prefix "" "spiffe://" ≡ true → ⊥
    no_scheme h = ground arith

-- A verified token is accepted exactly if it has not expired, is valid already, names the
-- configured audience if there is one, and its subject is a SPIFFE ID of the configured trust
-- domain, which holds no slash; the identity is then the one built of its claims.
pub check_claims_iff :
    (quote : String → String) (cfg : DaprSentryConfig) (now : Instant) (c : SentryClaims)
    (id : Identity)
    → Lacks b'/' cfg.trust_domain
    → (check_claims quote cfg now c ≡ ok id) ↔ (Meets cfg now c × (id ≡ identity_of c))
unfolding check_claims
check_claims_iff quote cfg now c id h =
    (check_claims_sound quote cfg now c id h, λ m. complete m.0 m.1)
  where
    complete : Meets cfg now c → id ≡ identity_of c → check_claims quote cfg now c ≡ ok id
    complete m e =
        let valid = (is_valid_spiffe_id_iff c.subject cfg.trust_domain h).1 m.from_domain in
        ground (
          arith,
          m.in_time,
          m.started,
          m.for_us,
          valid,
          nonempty_of_valid c.subject cfg.trust_domain valid,
          eq_iff cfg.audience "",
          contains_audience_of_In c.audience cfg.audience,
        )
