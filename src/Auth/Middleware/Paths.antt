-- ===== src/Auth/Middleware/Paths.antt =====
-- Which paths pass without authentication.
use dapr_mcp.Base.{
  String, true, List, [], ◌∷◌, ◌==◌, ◌≡◌, ◌↔◌, ◌⊎◌, inl, inr, In, arith, eq_iff, refl, subst,
  Bool-cases, trim_suffix, after_prefix, ◌+++◌, has_prefix-append, after_prefix-append,
  has_suffix-append, trim_suffix-eq, trim_suffix-append,
}
use dapr_mcp.Auth.Middleware.{path_matches, should_skip}

-- A skip path covers itself, and if it ends in `*`, every path that begins with what is before it.
abbrev pub Covers : String → String → Type 0
Covers skip path =
    (path ≡ skip) ⊎ ((p : String) × (r : String) × (skip ≡ p +++ "*") × (path ≡ p +++ r))

path_matches-Covers : (path skip : String) → path_matches path skip ≡ true → Covers skip path
unfolding path_matches
path_matches-Covers path skip h = elim (Bool-cases (path == skip)) [
  | inl e ↦ inl ((eq_iff path skip).0 e)
  | inr e ↦
      let p = trim_suffix skip "*" in
      inr (
        p,
        after_prefix path p,
        trim_suffix-eq skip "*" (ground arith),
        after_prefix-append path p (ground arith),
      )
]

covered_by_prefix : (p r : String) → path_matches (p +++ r) (p +++ "*") ≡ true
unfolding path_matches
covered_by_prefix p r =
    rw (trim_suffix-append p "*", has_suffix-append p "*", has_prefix-append p r) (ground arith)

path_matches_of_Covers : (path skip : String) → Covers skip path → path_matches path skip ≡ true
unfolding path_matches
path_matches_of_Covers path skip (inl e) = ground (arith, eq_iff path skip)
path_matches_of_Covers path skip (inr (p, r, e, f)) = rw (e, f) (covered_by_prefix p r)

-- A path passes without authentication exactly if one of the configured skip paths covers it:
-- it is that path, or the skip path is some text and `*`, and the path begins with that text.
pub should_skip_iff :
    (skips : List String) (path : String)
    → (should_skip skips path ≡ true) ↔ ((skip : String) × In skip skips × Covers skip path)
unfolding should_skip
should_skip_iff skips path = (there skips, λ h. back skips h.0 h.1 h.2)
  where
    there :
        (skips : List String)
        → should_skip skips path ≡ true
        → (skip : String) × In skip skips × Covers skip path
    there [] h = absurd (ground arith)
    there (s ∷ ss) h = elim (Bool-cases (path_matches path s)) [
      | inl e ↦ (s, inl refl, path_matches-Covers path s e)
      | inr e ↦ let (skip, m, c) = there ss (ground arith) in (skip, inr m, c)
    ]

    back :
        (skips : List String) (skip : String)
        → In skip skips
        → Covers skip path
        → should_skip skips path ≡ true
    back [] skip m c = elim m [ ]
    back (s ∷ ss) skip (inl e) c =
        ground (arith, path_matches_of_Covers path s (subst (λ x. Covers x path) e c))
    back (s ∷ ss) skip (inr m) c = ground (arith, back ss skip m c)
