-- ===== src/Base/Perms.antt =====
-- The order of a map's entries, which Go leaves open, and what does not depend on it.
use Prim.Native.String.{String}
use mathlib.Core.Path.{◌≡◌, refl, sym, ◌∙◌, ap}
use mathlib.Core.List.{List, Permᴰ}
use native.Mathlib.Omega.{arith}
use text.Mathlib.TextEquality.{eq_iff}
use dapr_mcp.Base.Lists.{length}
use dapr_mcp.Base.Maps.{Dict, mem, IsDistinct, lookup, keys, IsMap}

pub mem-perm : (k : String) {xs ys : List String} → Permᴰ xs ys → mem k xs ≡ mem k ys
mem-perm k Permᴰ.nil = refl
mem-perm k (Permᴰ.cons e p) = cc (mem-perm k p)
mem-perm k (Permᴰ.swap {a} {b} e f) = ground arith
mem-perm k (Permᴰ.trans p q) = mem-perm k p ∙ mem-perm k q

pub IsDistinct-perm : {xs ys : List String} → Permᴰ xs ys → IsDistinct xs → IsDistinct ys
IsDistinct-perm Permᴰ.nil h = tt
IsDistinct-perm (Permᴰ.cons {a} {b} {l₁} e p) h =
    (sym (mem-perm b p) ∙ ap (λ x. mem x l₁) (sym e) ∙ h.0, IsDistinct-perm p h.1)
IsDistinct-perm (Permᴰ.swap {a} {b} {a'} {b'} e f) h =
    ground (arith, eq_iff a b, eq_iff b a, eq_iff a' b')
IsDistinct-perm (Permᴰ.trans p q) h = IsDistinct-perm q (IsDistinct-perm p h)

module _ {ℓ} {V : Type ℓ} where
  pub keys-perm : {m n : Dict V} → Permᴰ m n → Permᴰ (keys m) (keys n)
  keys-perm Permᴰ.nil = Permᴰ.nil
  keys-perm (Permᴰ.cons e p) = Permᴰ.cons (ap (λ x. x.0) e) (keys-perm p)
  keys-perm (Permᴰ.swap e f) = Permᴰ.swap (ap (λ x. x.0) e) (ap (λ x. x.0) f)
  keys-perm (Permᴰ.trans p q) = Permᴰ.trans (keys-perm p) (keys-perm q)

  pub IsMap-perm : {m n : Dict V} → Permᴰ m n → IsMap m → IsMap n
  IsMap-perm p h = IsDistinct-perm (keys-perm p) h

  pub lookup-perm : (k : String) {m n : Dict V} → Permᴰ m n → IsMap m → lookup k m ≡ lookup k n
  lookup-perm k Permᴰ.nil h = refl
  lookup-perm k (Permᴰ.cons {a} {b} e p) h =
      ground (arith, ap (λ x. x.0) e, ap (λ x. x.1) e, lookup-perm k p h.1)
  lookup-perm k (Permᴰ.swap {a} {b} e f) h = ground (
    arith,
    ap (λ x. x.0) e,
    ap (λ x. x.1) e,
    ap (λ x. x.0) f,
    ap (λ x. x.1) f,
    eq_iff k a.0,
    eq_iff k b.0,
    eq_iff a.0 b.0,
  )
  lookup-perm k (Permᴰ.trans p q) h = lookup-perm k p h ∙ lookup-perm k q (IsMap-perm p h)

pub length-perm {ℓ} : {A : Type ℓ} {xs ys : List A} → Permᴰ xs ys → length xs ≡ length ys
length-perm Permᴰ.nil = refl
length-perm (Permᴰ.cons e p) = cc (length-perm p)
length-perm (Permᴰ.swap e f) = refl
length-perm (Permᴰ.trans p q) = length-perm p ∙ length-perm q
