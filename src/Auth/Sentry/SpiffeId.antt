-- ===== src/Auth/Sentry/SpiffeId.antt =====
-- Which subjects `isValidSPIFFEID` accepts.
use dapr_mcp.Base.{
  String, Char, code, true, nat_eq, ◌≡◌, ◌↔◌, ◌⊎◌, inl, inr, refl, sym, ap, ◌∙◌, arith, eq_iff,
  eq_refl, Bool-cases, cut, has_prefix, trim_prefix, ◌+++◌, Lacks, cut-append, has_prefix-append,
  trim_prefix-append, after_prefix-append,
}
use dapr_mcp.Auth.Sentry.{is_valid_spiffe_id}
use text.Mathlib.TextLemmas.{nil-append, cons-append}
use text.Mathlib.TextEquality.{Char-path}

abbrev slash : Char
slash = "/"

-- The SPIFFE IDs of a trust domain: the domain alone, or with a path.
abbrev pub IsMember : String → String → Type 0
IsMember trust_domain id =
    (id ≡ "spiffe://" +++ trust_domain)
    ⊎ ((path : String) × (id ≡ "spiffe://" +++ (trust_domain +++ (String.◌∷◌ slash path))))

-- What `cut` takes apart.
cut-cases :
    (s : String)
    → (s ≡ (cut b'/' s).0) ⊎ ((r : String) × (s ≡ (cut b'/' s).0 +++ (String.◌∷◌ slash r)))
unfolding cut
cut-cases String.[] = inl refl
cut-cases (String.◌∷◌ c s) = elim (Bool-cases (nat_eq (code c) b'/')) [
  | inl e ↦ rw e (
      inr (
        s,
        (λ i. String.◌∷◌ (Char-path c slash (ground (arith, e)) i) s)
            ∙ sym (nil-append (String.◌∷◌ slash s)),
      ))
  | inr e ↦ rw e (elim (cut-cases s) [
    | inl h ↦ inl (ap (String.◌∷◌ c) h)
    | inr (r, h) ↦
        inr (r, ap (String.◌∷◌ c) h ∙ sym (cons-append c (cut b'/' s).0 (String.◌∷◌ slash r)))
  ])
]

cut-Lacks : (s : String) → Lacks b'/' s → (cut b'/' s).0 ≡ s
unfolding cut
cut-Lacks String.[] h = refl
cut-Lacks (String.◌∷◌ c s) h = ground (arith, cut-Lacks s h.1)

module _ (id trust_domain : String) where
  scheme : has_prefix id "spiffe://" ≡ true → id ≡ "spiffe://" +++ trim_prefix id "spiffe://"
  unfolding trim_prefix
  scheme h = rw h (after_prefix-append id "spiffe://" h)

  IsMember-of_valid : is_valid_spiffe_id id trust_domain ≡ true → IsMember trust_domain id
  unfolding is_valid_spiffe_id
  IsMember-of_valid h =
      let rest = trim_prefix id "spiffe://" in
      let prefixed = scheme (ground arith) in
      let domain : (cut b'/' rest).0 ≡ trust_domain =
        (eq_iff (cut b'/' rest).0 trust_domain).0 (ground arith) in
      elim (cut-cases rest) [
        | inl e ↦ inl (prefixed ∙ ap (λ x. "spiffe://" +++ x) (e ∙ domain))
        | inr (r, e) ↦ inr (
          r,
          prefixed
              ∙ ap (λ x. "spiffe://" +++ x) e
              ∙ ap (λ x. "spiffe://" +++ (x +++ (String.◌∷◌ slash r))) domain,
        )
      ]

  valid_of_IsMember :
      Lacks b'/' trust_domain → IsMember trust_domain id → is_valid_spiffe_id id trust_domain ≡ true
  unfolding is_valid_spiffe_id
  valid_of_IsMember h (inl e) =
      rw
        (
          e,
          has_prefix-append "spiffe://" trust_domain,
          trim_prefix-append "spiffe://" trust_domain,
          cut-Lacks trust_domain h,
        )
        (ground (arith, eq_refl trust_domain))
  valid_of_IsMember h (inr (r, e)) =
      let rest = trust_domain +++ (String.◌∷◌ slash r) in
      rw
        (
          e,
          has_prefix-append "spiffe://" rest,
          trim_prefix-append "spiffe://" rest,
          cut-append b'/' slash trust_domain r refl h,
        )
        (ground (arith, eq_refl trust_domain))

-- For a trust domain without a slash, a subject is accepted exactly if it is the SPIFFE ID of the
-- domain, with or without a path.
pub is_valid_spiffe_id_iff :
    (id trust_domain : String)
    → Lacks b'/' trust_domain
    → (is_valid_spiffe_id id trust_domain ≡ true) ↔ IsMember trust_domain id
is_valid_spiffe_id_iff id trust_domain h =
    (IsMember-of_valid id trust_domain, valid_of_IsMember id trust_domain h)
