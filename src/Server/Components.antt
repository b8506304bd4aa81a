-- ===== src/Server/Components.antt =====
-- cmd/dapr-mcp-server/main.go: which groups of tools the components of the sidecar bring.
pub mod Kinds
use dapr_mcp.Base.{
  String, Char, code, Bool, true, false, ◌&&◌, ◌||◌, not, Option, none, some, List, [], ◌∷◌,
  if◌then◌else◌, nat_eq, Dict, insert, lookup, has_key, mem, has_prefix, Bool-cases, inl, inr, ◌==◌,
  ◌≡◌, refl, sym, ap, ◌∙◌, arith, eq_iff, has_key-insert, ◌+++◌,
}
use Prim.Native.String
use mathlib.Core.List

-- The `else if` chain over the type of a component: the key that is set in `componentPresence`.
unfoldable pub component_kind : String → Option String
component_kind type =
    if has_prefix type "state."
    then some "state"
    else if has_prefix type "pubsub."
    then some "pubsub"
    else if has_prefix type "bindings."
    then some "bindings"
    else if has_prefix type "secretstores."
    then some "secrets"
    else if has_prefix type "lock."
    then some "lock"
    else if has_prefix type "conversation."
    then some "conversation"
    else if has_prefix type "crypto."
    then some "crypto"
    else none

abbrev pub note_kind : Option String → Dict Bool → Dict Bool
note_kind none m = m
note_kind (some kind) m = insert kind true m

-- The loop over the types of the components.
unfoldable pub component_presence : List String → Dict Bool → Dict Bool
unfolding component_kind
component_presence [] m = m
component_presence (type ∷ types) m = component_presence types (note_kind (component_kind type) m)

-- The packages that are registered whatever the components, and in order those that are registered
-- for a kind of component.
abbrev pub core_packages : List String
core_packages = "metadata" ∷ "invoke" ∷ "actors" ∷ "workflow" ∷ []

abbrev pub conditional_packages : List String
conditional_packages =
    "pubsub" ∷ "bindings" ∷ "state" ∷ "secrets" ∷ "conversation" ∷ "crypto" ∷ "lock" ∷ []

unfoldable pub present : List String → Dict Bool → List String
present [] m = []
present (kind ∷ kinds) m =
    let rest = present kinds m in if has_key kind m then kind ∷ rest else rest

-- The packages whose tools `main` registers.
unfoldable pub registered_packages : List String → List String
unfolding component_presence present
registered_packages types =
    List.◌++◌ core_packages (present conditional_packages (component_presence types []))
