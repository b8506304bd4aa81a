-- ===== src/Server/Offered/Names.antt =====
-- The names under which the tools are offered.
use dapr_mcp.Base.{
  String, Bool, true, List, [], ◌∷◌, ◌++◌, map, Dict, mem, has_key, IsDistinct, Bool-cases, inl,
  inr, not, ◌&&◌, ◌≡◌, refl, ap, sym, subst, ◌∙◌, ◌||◌, arith,
}
use mathlib.Core.List.{append_assoc}
use dapr_mcp.Registration.Tool.{Tool}
use dapr_mcp.Server.Components.{
  registered_packages, core_packages, conditional_packages, present, component_presence,
}
use dapr_mcp.Server.Offered.{Services, register_tools, register_all, offered_tools}

abbrev pub names : {W : Type 0} → List (Tool W) → List String
names ts = map (λ t. t.name) ts

mem-append : (x : String) (xs ys : List String) → mem x (xs ++ ys) ≡ (mem x xs || mem x ys)
mem-append x [] ys = refl
mem-append x (y ∷ xs) ys = ground (arith, mem-append x xs ys)

names-append : {W : Type 0} (xs ys : List (Tool W)) → names (xs ++ ys) ≡ names xs ++ names ys
names-append [] ys = refl
names-append (t ∷ xs) ys = ap (λ ns. t.name ∷ ns) (names-append xs ys)

and_parts : (a b : Bool) → a && b ≡ true → (a ≡ true) × (b ≡ true)
and_parts a b h = ground arith

append_right-IsDistinct : (xs ys : List String) → IsDistinct (xs ++ ys) → IsDistinct ys
append_right-IsDistinct [] ys h = h
append_right-IsDistinct (x ∷ xs) ys h = append_right-IsDistinct xs ys h.1

-- Leaving out a middle part.
without_middle-IsDistinct :
    (xs ys zs : List String) → IsDistinct (xs ++ (ys ++ zs)) → IsDistinct (xs ++ zs)
without_middle-IsDistinct [] ys zs h = append_right-IsDistinct ys zs h
without_middle-IsDistinct (x ∷ xs) ys zs h = (
  ground (arith, h.0, mem-append x xs (ys ++ zs), mem-append x ys zs, mem-append x xs zs),
  without_middle-IsDistinct xs ys zs h.1,
)

abbrev distinct : List String → Bool
distinct [] = true
distinct (x ∷ xs) = not (mem x xs) && distinct xs

IsDistinct-of_distinct : (xs : List String) → distinct xs ≡ true → IsDistinct xs
IsDistinct-of_distinct [] h = tt
IsDistinct-of_distinct (x ∷ xs) h =
    let (fresh, rest) = and_parts (not (mem x xs)) (distinct xs) h in
    (ground (arith, fresh), IsDistinct-of_distinct xs rest)

module _ {F W : Type 0} (s : Services F W) where
  abbrev registered : List String → List String
  registered pkgs = names (register_all s pkgs)

  registered-cons :
      (before : List String) (pkg : String) (pkgs : List String)
      → before ++ registered (pkg ∷ pkgs)
        ≡ before ++ (names (register_tools s pkg) ++ registered pkgs)
  registered-cons before pkg pkgs =
      ap (λ ns. before ++ ns) (names-append (register_tools s pkg) (register_all s pkgs))

  -- Leaving out the packages whose components are not there keeps the names distinct.
  IsDistinct-registered :
      (before kinds : List String) (m : Dict Bool)
      → IsDistinct (before ++ registered kinds)
      → IsDistinct (before ++ registered (present kinds m))
  unfolding present
  IsDistinct-registered before [] m h = h
  IsDistinct-registered before (kind ∷ kinds) m h =
      let h' = subst IsDistinct (registered-cons before kind kinds) h in
      elim (Bool-cases (has_key kind m)) [
        | inl e ↦ rw e (
            subst IsDistinct
              (append_assoc before (names (register_tools s kind)) (registered (present kinds m))
                ∙ sym (registered-cons before kind (present kinds m)))
              (IsDistinct-registered (before ++ names (register_tools s kind)) kinds m (
                subst IsDistinct
                  (sym (append_assoc before (names (register_tools s kind)) (registered kinds)))
                  h')))
        | inr e ↦ rw e (
            IsDistinct-registered before kinds m (
              without_middle-IsDistinct before (names (register_tools s kind)) (registered kinds)
                h'))
      ]

  every_name-IsDistinct : IsDistinct (registered (core_packages ++ conditional_packages))
  unfolding register_tools
  every_name-IsDistinct =
      IsDistinct-of_distinct (registered (core_packages ++ conditional_packages)) refl

  -- Whatever components the sidecar has, no two tools are offered under one name.
  pub names-offered_tools-IsDistinct :
      (types : List String) → IsDistinct (names (offered_tools s types))
  unfolding offered_tools registered_packages register_tools
  names-offered_tools-IsDistinct types =
      IsDistinct-registered (registered core_packages) conditional_packages
        (component_presence types []) every_name-IsDistinct
