-- ===== src/Server/Components/Kinds.antt =====
-- The tools that a component brings, by the prefix of its type.
use dapr_mcp.Base.{
  String, Bool, true, false, ◌&&◌, ◌||◌, Option, none, some, List, [], ◌∷◌, Dict, has_key, mem,
  has_prefix, ◌==◌, ◌≡◌, refl, arith, eq_iff, has_key-insert, prefixes_apart, In, All, All-In, ◌++◌,
}
use dapr_mcp.Server.Components.{
  component_kind, note_kind, component_presence, present, conditional_packages, core_packages,
  registered_packages,
}

-- The prefixes of the component types that bring a package.
abbrev pub kind_prefixes : Dict String
kind_prefixes =
    ("pubsub", "pubsub.")
    ∷ ("bindings", "bindings.")
    ∷ ("state", "state.")
    ∷ ("secrets", "secretstores.")
    ∷ ("conversation", "conversation.")
    ∷ ("crypto", "crypto.")
    ∷ ("lock", "lock.")
    ∷ []

abbrev pub some_has_prefix : String → List String → Bool
some_has_prefix prefix [] = false
some_has_prefix prefix (type ∷ types) = has_prefix type prefix || some_has_prefix prefix types

abbrev is_kind : String → Option String → Bool
is_kind kind none = false
is_kind kind (some k) = k == kind

-- The kind that the chain of tests finds is the one whose prefix the type has.
abbrev Finds : String → String × String → Type 0
Finds type a = is_kind a.0 (component_kind type) ≡ has_prefix type a.1

module _ (type : String) where
  Finds-state : Finds type ("state", "state.")
  unfolding component_kind has_prefix
  Finds-state = ground arith

  Finds-pubsub : Finds type ("pubsub", "pubsub.")
  unfolding component_kind has_prefix
  Finds-pubsub = ground (arith, prefixes_apart type "pubsub." "state." refl)

  Finds-bindings : Finds type ("bindings", "bindings.")
  unfolding component_kind has_prefix
  Finds-bindings = ground (
    arith,
    prefixes_apart type "bindings." "state." refl,
    prefixes_apart type "bindings." "pubsub." refl,
  )

  Finds-secrets : Finds type ("secrets", "secretstores.")
  unfolding component_kind has_prefix
  Finds-secrets = ground (
    arith,
    prefixes_apart type "secretstores." "state." refl,
    prefixes_apart type "secretstores." "pubsub." refl,
    prefixes_apart type "secretstores." "bindings." refl,
  )

  Finds-lock : Finds type ("lock", "lock.")
  unfolding component_kind has_prefix
  Finds-lock = ground (
    arith,
    prefixes_apart type "lock." "state." refl,
    prefixes_apart type "lock." "pubsub." refl,
    prefixes_apart type "lock." "bindings." refl,
    prefixes_apart type "lock." "secretstores." refl,
  )

  Finds-conversation : Finds type ("conversation", "conversation.")
  unfolding component_kind has_prefix
  Finds-conversation = ground (
    arith,
    prefixes_apart type "conversation." "state." refl,
    prefixes_apart type "conversation." "pubsub." refl,
    prefixes_apart type "conversation." "bindings." refl,
    prefixes_apart type "conversation." "secretstores." refl,
    prefixes_apart type "conversation." "lock." refl,
  )

  Finds-crypto : Finds type ("crypto", "crypto.")
  unfolding component_kind has_prefix
  Finds-crypto = ground (
    arith,
    prefixes_apart type "crypto." "state." refl,
    prefixes_apart type "crypto." "pubsub." refl,
    prefixes_apart type "crypto." "bindings." refl,
    prefixes_apart type "crypto." "secretstores." refl,
    prefixes_apart type "crypto." "lock." refl,
    prefixes_apart type "crypto." "conversation." refl,
  )

  Finds-All : All (Finds type) kind_prefixes
  Finds-All = (
    Finds-pubsub,
    (
      Finds-bindings,
      (Finds-state, (Finds-secrets, (Finds-conversation, (Finds-crypto, (Finds-lock, tt))))),
    ),
  )

is_kind_eq : (kind k : String) → (kind == k) ≡ (k == kind)
is_kind_eq kind k = ground (arith, eq_iff kind k, eq_iff k kind)

has_key-note_kind :
    (kind : String) (o : Option String) (m : Dict Bool)
    → has_key kind (note_kind o m) ≡ (is_kind kind o || has_key kind m)
has_key-note_kind kind none m = refl
has_key-note_kind kind (some k) m = ground (arith, has_key-insert k kind true m, is_kind_eq kind k)

has_key-component_presence :
    (a : String × String) (types : List String) (m : Dict Bool)
    → In a kind_prefixes
    → has_key a.0 (component_presence types m) ≡ (some_has_prefix a.1 types || has_key a.0 m)
unfolding component_presence
has_key-component_presence a [] m h = refl
has_key-component_presence a (type ∷ types) m h =
    let finds : Finds type a = All-In (Finds type) kind_prefixes (Finds-All type) a h in
    ground (
      arith,
      finds,
      has_key-component_presence a types (note_kind (component_kind type) m) h,
      has_key-note_kind a.0 (component_kind type) m,
    )

mem-present :
    (kind : String) (kinds : List String) (m : Dict Bool)
    → mem kind (present kinds m) ≡ (mem kind kinds && has_key kind m)
unfolding present
mem-present kind [] m = refl
mem-present kind (k ∷ kinds) m = ground (arith, mem-present kind kinds m, eq_iff kind k)

abbrev IsConditional : String × String → Type 0
IsConditional a = (mem a.0 core_packages ≡ false) × (mem a.0 conditional_packages ≡ true)

conditional : (a : String × String) → In a kind_prefixes → IsConditional a
conditional a h = All-In IsConditional kind_prefixes all_conditional a h
  where
    all_conditional : All IsConditional kind_prefixes
    all_conditional = ground arith

mem-append : (k : String) (xs ys : List String) → mem k (xs ++ ys) ≡ (mem k xs || mem k ys)
mem-append k [] ys = refl
mem-append k (x ∷ xs) ys = ground (arith, mem-append k xs ys)

-- A package of the table is registered exactly if the type of some component begins with the
-- package's prefix.
pub mem-registered_packages :
    (a : String × String) (types : List String)
    → In a kind_prefixes
    → mem a.0 (registered_packages types) ≡ some_has_prefix a.1 types
unfolding registered_packages
mem-registered_packages a types h = ground (
  arith,
  mem-append a.0 core_packages (present conditional_packages (component_presence types [])),
  mem-present a.0 conditional_packages (component_presence types []),
  has_key-component_presence a types [] h,
  conditional a h,
)
