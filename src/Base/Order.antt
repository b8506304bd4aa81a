-- ===== src/Base/Order.antt =====
-- The order of texts: code point by code point, which is the order of the UTF-8 bytes.
use Prim.Native.Nat.{ℕ, Ordering, compare as compare_ℕ}
use Prim.Native.Char.{code}
use Prim.Native.String.compare
use Prim.Native.String.{String, [], ◌∷◌, compare, then as after}
use mathlib.Core.Path.{◌≡◌, refl}
use mathlib.Core.Bool.{Bool, true, false}
use native.Mathlib.Omega.{arith}
use text.Mathlib.Text.{is_le}
use text.Mathlib.TextEquality.{path_by_compare}

abbrev flip : Ordering → Ordering
flip Ordering.lt = Ordering.gt
flip Ordering.eq = Ordering.eq
flip Ordering.gt = Ordering.lt

compare_ℕ-flip : (m n : ℕ) → compare_ℕ n m ≡ flip (compare_ℕ m n)
compare_ℕ-flip m n = ground arith

after-flip : (o p : Ordering) → after (flip o) (flip p) ≡ flip (after o p)
after-flip Ordering.lt p = refl
after-flip Ordering.eq p = refl
after-flip Ordering.gt p = refl

compare-flip : (s t : String) → compare t s ≡ flip (compare s t)
compare-flip [] [] = rw compare.nil-nil
compare-flip [] (d ∷ t) = rw (compare.cons-nil, compare.nil-cons)
compare-flip (c ∷ s) [] = rw (compare.cons-nil, compare.nil-cons)
compare-flip (c ∷ s) (d ∷ t) =
    rw
      (
        compare.cons-cons d c t s,
        compare.cons-cons c d s t,
        compare_ℕ-flip (code c) (code d),
        compare-flip s t,
      )
      (after-flip (compare_ℕ (code c) (code d)) (compare s t))

-- `s <= t`
abbrev pub text_le : String → String → Bool
text_le s t = is_le (compare s t)

pub text_le-total : (s t : String) → text_le s t ≡ false → text_le t s ≡ true
text_le-total s t h = ground (arith, compare-flip s t)

pub text_le_antisymm : (s t : String) → text_le s t ≡ true → text_le t s ≡ true → s ≡ t
text_le_antisymm s t h k = path_by_compare s t (ground (arith, compare-flip s t))

pub text_le_trans : (s t u : String) → text_le s t ≡ true → text_le t u ≡ true → text_le s u ≡ true
text_le_trans [] t [] h k = refl
text_le_trans [] t (e ∷ u) h k = rw compare.nil-cons
text_le_trans (c ∷ s) [] u h k = cc (compare.cons-nil c s)
text_le_trans (c ∷ s) (d ∷ t) [] h k = cc (compare.cons-nil d t)
text_le_trans (c ∷ s) (d ∷ t) (e ∷ u) h k = ground (
  arith,
  compare.cons-cons c d s t,
  compare.cons-cons d e t u,
  compare.cons-cons c e s u,
  text_le_trans s t u,
)
