-- ===== src/Base/Text/Affixes.antt =====
-- `HasPrefix`, `HasSuffix` and `TrimSuffix` against the texts they were made from.
use Prim.Native.Char.{Char}
use Prim.Native.String.{String, [], ◌∷◌, ◌++◌}
use mathlib.Core.Path.{◌≡◌, refl, sym, ap, ◌∙◌}
use mathlib.Core.Bool.{true, false, ◌||◌}
use mathlib.Core.Logic.{inl, inr}
use native.Mathlib.Omega.{arith}
use text.Mathlib.Text.{◌==◌}
use text.Mathlib.TextEquality.{eq_iff, Char-path}
use text.Mathlib.TextPositions.{eq_refl}
use text.Mathlib.TextLemmas.{
  nil-append, cons-append, append-ne-nil_of_right_ne-nil, cons-ne-nil, tail-eq_of_cons-eq,
}
use dapr_mcp.Base.Tests.{Bool-cases}
use dapr_mcp.Base.Text.{has_prefix, contains, has_suffix, trim_suffix, trim_prefix, after_prefix}

pub has_prefix-append : (p r : String) → has_prefix (p ++ r) p ≡ true
unfolding has_prefix
has_prefix-append [] r = refl
has_prefix-append (c ∷ p) r = rw cons-append (ground (arith, has_prefix-append p r))

pub after_prefix-append : (s p : String) → has_prefix s p ≡ true → s ≡ p ++ after_prefix s p
unfolding has_prefix after_prefix
after_prefix-append s [] h = sym (nil-append s)
after_prefix-append [] (d ∷ p) h = cc
after_prefix-append (c ∷ s) (d ∷ p) h =
    let same : c ≡ d = Char-path c d (ground arith) in
    let rest : s ≡ p ++ after_prefix s p = after_prefix-append s p (ground arith) in
    (λ i. same i ∷ rest i) ∙ sym (cons-append d p (after_prefix s p))

has_suffix_self : (t : String) → has_suffix t t ≡ true
unfolding has_suffix
has_suffix_self [] = refl
has_suffix_self (c ∷ t) = rw (eq_refl (c ∷ t)) refl

pub has_suffix-append : (p t : String) → has_suffix (p ++ t) t ≡ true
unfolding has_suffix
has_suffix-append [] t = rw nil-append (has_suffix_self t)
has_suffix-append (c ∷ p) t = rw cons-append (ground (arith, has_suffix-append p t))

pub trim_suffix-eq : (s t : String) → has_suffix s t ≡ true → s ≡ trim_suffix s t ++ t
unfolding has_suffix trim_suffix
trim_suffix-eq [] t h = sym (nil-append t ∙ ground (arith, eq_iff t ""))
trim_suffix-eq (c ∷ s) t h = elim (Bool-cases (c ∷ s == t)) [
  | inl e ↦ rw e (sym (nil-append t ∙ ground (arith, eq_iff (c ∷ s) t)))
  | inr e ↦
      rw e
        (ap (◌∷◌ c) (trim_suffix-eq s t (ground arith)) ∙ sym (cons-append c (trim_suffix s t) t))
]

append_one-ne : (d c : Char) (p : String) → ((d ∷ (p ++ (c ∷ []))) == (c ∷ [])) ≡ false
append_one-ne d c p = elim (Bool-cases ((d ∷ (p ++ (c ∷ []))) == (c ∷ []))) [
  | inl h ↦ absurd (
      append-ne-nil_of_right_ne-nil p (cons-ne-nil c [])
        (tail-eq_of_cons-eq ((eq_iff (d ∷ (p ++ (c ∷ []))) (c ∷ [])).0 h)))
  | inr h ↦ h
]

-- A suffix of one character.
pub trim_suffix-append : (p : String) (c : Char) → trim_suffix (p ++ (c ∷ [])) (c ∷ []) ≡ p
unfolding trim_suffix
trim_suffix-append [] c = rw nil-append (rw (eq_refl (c ∷ [])) refl)
trim_suffix-append (d ∷ p) c =
    rw cons-append (rw (append_one-ne d c p) (ap (◌∷◌ d) (trim_suffix-append p c)))

after_prefix_of_append : (p r : String) → after_prefix (p ++ r) p ≡ r
unfolding after_prefix
after_prefix_of_append [] r = nil-append r
after_prefix_of_append (c ∷ p) r = rw cons-append (after_prefix_of_append p r)

pub trim_prefix-append : (p r : String) → trim_prefix (p ++ r) p ≡ r
unfolding trim_prefix
trim_prefix-append p r = rw (has_prefix-append p r) (after_prefix_of_append p r)

-- Two prefixes of one text: one of them is a prefix of the other.
comparable :
    (s p q : String)
    → has_prefix s p ≡ true
    → has_prefix s q ≡ true
    → (has_prefix p q || has_prefix q p) ≡ true
unfolding has_prefix
comparable s [] [] h k = refl
comparable s [] (d ∷ q) h k = refl
comparable s (c ∷ p) [] h k = refl
comparable [] (c ∷ p) (d ∷ q) h k = cc
comparable (b ∷ s) (c ∷ p) (d ∷ q) h k = ground (arith, comparable s p q)

pub prefixes_apart :
    (s p q : String)
    → (has_prefix p q || has_prefix q p) ≡ false
    → has_prefix s p ≡ true
    → has_prefix s q ≡ false
prefixes_apart s p q n h = elim (Bool-cases (has_prefix s q)) [
  | inl k ↦ cc (comparable s p q h k, n)
  | inr k ↦ k
]

-- A prefix of a prefix is contained in the text.
has_prefix_trans :
    (s p q : String) → has_prefix s p ≡ true → has_prefix p q ≡ true → has_prefix s q ≡ true
unfolding has_prefix
has_prefix_trans s p [] h k = refl
has_prefix_trans s [] (d ∷ q) h k = cc
has_prefix_trans [] (c ∷ p) (d ∷ q) h k = cc
has_prefix_trans (b ∷ s) (c ∷ p) (d ∷ q) h k = ground (arith, has_prefix_trans s p q)

contains_of_has_prefix : (s q : String) → has_prefix s q ≡ true → contains s q ≡ true
unfolding contains
contains_of_has_prefix [] q h = h
contains_of_has_prefix (c ∷ s) q h = rw h refl

pub contains-prefix :
    (s p q : String) → has_prefix p q ≡ true → has_prefix s p ≡ true → contains s q ≡ true
contains-prefix s p q k h = contains_of_has_prefix s q (has_prefix_trans s p q h k)
