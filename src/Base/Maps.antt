-- ===== src/Base/Maps.antt =====
-- Go's `map[string]V` as a list of entries. The order of the list is one order in which `range`
-- may deliver the entries; the program's results are shown not to depend on it where they do not.
use Prim.Native.String.{String}
use mathlib.Core.Path.{◌≡◌, refl}
use mathlib.Core.Bool.{Bool, true, false, ◌||◌}
use mathlib.Core.Logic.{inl, inr}
use mathlib.Core.Option.{Option, none, some}
use mathlib.Core.List.{List, [], ◌∷◌}
use native.Mathlib.Omega.{arith}
use text.Mathlib.Text.{◌==◌}
use text.Mathlib.TextEquality.{eq_iff}
use dapr_mcp.Base.Tests.{if◌then◌else◌, Bool-cases}

abbrev pub Dict {ℓ} : Type ℓ → Type ℓ
Dict V = List (String × V)

-- Is the text one of the list?
abbrev pub mem : String → List String → Bool
mem k [] = false
mem k (x ∷ xs) = k == x || mem k xs

-- No text occurs twice.
abbrev pub IsDistinct : List String → Type 0
IsDistinct [] = Unit
IsDistinct (x ∷ xs) = (mem x xs ≡ false) × IsDistinct xs

module _ {ℓ} {V : Type ℓ} where
  -- `m[k]`
  abbrev pub lookup : String → Dict V → Option V
  lookup k [] = none
  lookup k ((j, v) ∷ m) = if k == j then some v else lookup k m

  -- `m[k] = v`
  abbrev pub insert : String → V → Dict V → Dict V
  insert k v [] = (k, v) ∷ []
  insert k v ((j, w) ∷ m) = if k == j then (k, v) ∷ m else (j, w) ∷ insert k v m

  abbrev pub keys : Dict V → List String
  keys [] = []
  keys ((k, v) ∷ m) = k ∷ keys m

  -- `_, ok := m[k]`
  abbrev pub has_key : String → Dict V → Bool
  has_key k m = mem k (keys m)

  -- A Go map holds each key once.
  abbrev pub IsMap : Dict V → Type 0
  IsMap m = IsDistinct (keys m)

  pub lookup-insert :
      (k j : String) (v : V) (m : Dict V)
      → lookup j (insert k v m) ≡ (if j == k then some v else lookup j m)
  lookup-insert k j v [] = refl
  lookup-insert k j v ((i, w) ∷ m) =
      ground (arith, eq_iff j k, eq_iff k i, eq_iff j i, lookup-insert k j v m)

  pub has_key-insert :
      (k j : String) (v : V) (m : Dict V) → has_key j (insert k v m) ≡ (j == k || has_key j m)
  has_key-insert k j v [] = refl
  has_key-insert k j v ((i, w) ∷ m) =
      ground (arith, eq_iff j k, eq_iff k i, eq_iff j i, has_key-insert k j v m)

  pub insert-IsMap : (k : String) (v : V) (m : Dict V) → IsMap m → IsMap (insert k v m)
  insert-IsMap k v [] h = (refl, tt)
  insert-IsMap k v ((i, w) ∷ m) h =
      ground (arith, eq_iff k i, eq_iff i k, has_key-insert k i v m, insert-IsMap k v m)

  -- A key is present exactly when a look-up finds a value.
  pub lookup-eq-none : (k : String) (m : Dict V) → has_key k m ≡ false → lookup k m ≡ none
  lookup-eq-none k [] h = refl
  lookup-eq-none k ((j, v) ∷ m) h = ground (arith, lookup-eq-none k m)

  pub lookup_of_has_key :
      (k : String) (m : Dict V) → has_key k m ≡ true → (v : V) × (lookup k m ≡ some v)
  lookup_of_has_key k [] h = absurd (cc)
  lookup_of_has_key k ((j, v) ∷ m) h = elim (Bool-cases (k == j)) [
    | inl e ↦ (v, rw e)
    | inr e ↦ rw e (lookup_of_has_key k m (ground arith))
  ]

  pub has_key_of_lookup :
      (k : String) (m : Dict V) (v : V) → lookup k m ≡ some v → has_key k m ≡ true
  has_key_of_lookup k [] v h = cc
  has_key_of_lookup k ((j, w) ∷ m) v h = ground (arith, has_key_of_lookup k m v)

  abbrev pub is_some : Option V → Bool
  is_some none = false
  is_some (some v) = true

  pub is_some-lookup : (k : String) (m : Dict V) → is_some (lookup k m) ≡ has_key k m
  is_some-lookup k [] = refl
  is_some-lookup k ((j, v) ∷ m) = ground (arith, is_some-lookup k m)
