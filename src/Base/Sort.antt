-- ===== src/Base/Sort.antt =====
-- `sort.Strings`: the ascending arrangement of a list of texts. There is only one, so insertion
-- serves for Go's algorithm.
use Prim.Native.String.{String}
use mathlib.Core.Path.{◌≡◌, refl, ◌∙◌}
use mathlib.Core.Bool.{true, false, ◌||◌}
use mathlib.Core.List.{List, [], ◌∷◌, Permᴰ}
use native.Mathlib.Omega.{arith}
use text.Mathlib.Text.{◌==◌}
use text.Mathlib.TextEquality.{eq_iff}
use dapr_mcp.Base.Tests.{if◌then◌else◌}
use dapr_mcp.Base.Maps.{mem, IsDistinct}
use dapr_mcp.Base.Lists.{All}
use dapr_mcp.Base.Order.{text_le, text_le-total, text_le_antisymm, text_le_trans}

insert_sorted : String → List String → List String
insert_sorted x [] = x ∷ []
insert_sorted x (y ∷ ys) = if text_le x y then x ∷ y ∷ ys else y ∷ insert_sorted x ys

unfoldable pub sort : List String → List String
unfolding insert_sorted
sort [] = []
sort (x ∷ xs) = insert_sorted x (sort xs)

-- Ascending: each text is at most every later one.
abbrev pub IsSorted : List String → Type 0
IsSorted [] = Unit
IsSorted (x ∷ xs) = All (λ y. text_le x y ≡ true) xs × IsSorted xs

mem-insert_sorted :
    (k x : String) (xs : List String) → mem k (insert_sorted x xs) ≡ (k == x || mem k xs)
unfolding insert_sorted
mem-insert_sorted k x [] = refl
mem-insert_sorted k x (y ∷ ys) = ground (arith, mem-insert_sorted k x ys)

pub mem-sort : (k : String) (xs : List String) → mem k (sort xs) ≡ mem k xs
unfolding sort
mem-sort k [] = refl
mem-sort k (x ∷ xs) = ground (arith, mem-insert_sorted k x (sort xs), mem-sort k xs)

All-le_trans :
    (x y : String) (ys : List String)
    → text_le x y ≡ true
    → All (λ z. text_le y z ≡ true) ys
    → All (λ z. text_le x z ≡ true) ys
All-le_trans x y [] h k = tt
All-le_trans x y (z ∷ ys) h k = (text_le_trans x y z h k.0, All-le_trans x y ys h k.1)

All-insert_sorted :
    (P : String → Type 0) (x : String) (xs : List String)
    → P x
    → All P xs
    → All P (insert_sorted x xs)
unfolding insert_sorted
All-insert_sorted P x [] p h = (p, tt)
All-insert_sorted P x (y ∷ ys) p h = ground (arith, All-insert_sorted P x ys p h.1)

insert_sorted-IsSorted :
    (x : String) (xs : List String) → IsSorted xs → IsSorted (insert_sorted x xs)
unfolding insert_sorted
insert_sorted-IsSorted x [] h = (tt, tt)
insert_sorted-IsSorted x (y ∷ ys) h = ground (
  arith,
  All-le_trans x y ys,
  text_le-total x y,
  All-insert_sorted (λ z. text_le y z ≡ true) x ys,
  insert_sorted-IsSorted x ys h.1,
)

pub sort-IsSorted : (xs : List String) → IsSorted (sort xs)
unfolding sort
sort-IsSorted [] = tt
sort-IsSorted (x ∷ xs) = insert_sorted-IsSorted x (sort xs) (sort-IsSorted xs)

insert_sorted-IsDistinct :
    (x : String) (xs : List String)
    → mem x xs ≡ false
    → IsDistinct xs
    → IsDistinct (insert_sorted x xs)
unfolding insert_sorted
insert_sorted-IsDistinct x [] n h = (n, tt)
insert_sorted-IsDistinct x (y ∷ ys) n h =
    ground (arith, eq_iff x y, eq_iff y x, mem-insert_sorted y x ys, insert_sorted-IsDistinct x ys)

pub sort-IsDistinct : (xs : List String) → IsDistinct xs → IsDistinct (sort xs)
unfolding sort
sort-IsDistinct [] h = tt
sort-IsDistinct (x ∷ xs) h =
    insert_sorted-IsDistinct x (sort xs) (mem-sort x xs ∙ h.0) (sort-IsDistinct xs h.1)

insert_sorted_comm :
    (x y : String) (l : List String)
    → insert_sorted x (insert_sorted y l) ≡ insert_sorted y (insert_sorted x l)
unfolding insert_sorted
insert_sorted_comm x y [] =
    ground (arith, text_le-total x y, text_le-total y x, text_le_antisymm x y)
insert_sorted_comm x y (z ∷ l) = ground (
  arith,
  text_le-total x y,
  text_le_antisymm x y,
  text_le-total y x,
  text_le_trans x y z,
  text_le_trans y x z,
  insert_sorted_comm x y l,
)

-- The result does not depend on the order in which the texts are collected.
pub sort-perm : {xs ys : List String} → Permᴰ xs ys → sort xs ≡ sort ys
unfolding sort
sort-perm Permᴰ.nil = refl
sort-perm (Permᴰ.cons e p) = cc (sort-perm p)
sort-perm (Permᴰ.swap {a} {b} {l = l} e f) = cc (insert_sorted_comm a b (sort l))
sort-perm (Permᴰ.trans p q) = sort-perm p ∙ sort-perm q
