-- ===== src/Metadata/Packages.antt =====
-- The listed components against the choice of the tools in cmd/dapr-mcp-server/main.go.
use dapr_mcp.Base.{
  String, Bool, false, none, Bool-cases, inl, inr, List, [], ◌∷◌, Dict, In, mem, has_prefix,
  contains-prefix, ◌≡◌, refl, sym, ap, ◌∙◌, arith,
}
use dapr_mcp.Server.Components.{component_kind, component_presence, note_kind, registered_packages}
use dapr_mcp.Server.Start.{component_types}
use dapr_mcp.Server.Components.Kinds.{kind_prefixes, some_has_prefix, mem-registered_packages}
use dapr_mcp.Metadata.{RegisteredComponent, is_listed, live_components}

abbrev pub registered_types : List RegisteredComponent → List String
registered_types [] = []
registered_types (c ∷ cs) = c.type ∷ registered_types cs

-- A component that is not listed brings no tools.
component_kind_of_unlisted : (type : String) → is_listed type ≡ false → component_kind type ≡ none
unfolding component_kind is_listed has_prefix
component_kind_of_unlisted type h = ground (
  arith,
  contains-prefix type "state." "state" refl,
  contains-prefix type "pubsub." "pubsub" refl,
  contains-prefix type "bindings." "binding" refl,
  contains-prefix type "secretstores." "secretstores" refl,
  contains-prefix type "lock." "lock" refl,
  contains-prefix type "conversation." "conversation" refl,
  contains-prefix type "crypto." "crypto" refl,
)

component_presence_of_unlisted :
    (type : String) (types : List String) (m : Dict Bool)
    → is_listed type ≡ false
    → component_presence (type ∷ types) m ≡ component_presence types m
unfolding component_presence
component_presence_of_unlisted type types m h =
    ap (λ o. component_presence types (note_kind o m)) (component_kind_of_unlisted type h)

component_presence-live_components :
    (cs : List RegisteredComponent) (m : Dict Bool)
    → component_presence (component_types (live_components cs)) m
      ≡ component_presence (registered_types cs) m
unfolding component_presence live_components
component_presence-live_components [] m = refl
component_presence-live_components (c ∷ cs) m = elim (Bool-cases (is_listed c.type)) [
  | inl h ↦ rw h (component_presence-live_components cs (note_kind (component_kind c.type) m))
  | inr h ↦ rw h (
      component_presence-live_components cs m
      ∙ sym (component_presence_of_unlisted c.type (registered_types cs) m h))
]

pub registered_packages-live_components :
    (cs : List RegisteredComponent)
    → registered_packages (component_types (live_components cs))
      ≡ registered_packages (registered_types cs)
unfolding registered_packages
registered_packages-live_components cs = rw (component_presence-live_components cs []) refl

-- The filter of the component list loses no tools: among the packages that are registered for the
-- listed components is a package of the table exactly if the type of some component of the sidecar,
-- listed or not, begins with the package's prefix.
pub mem-registered_packages-live_components :
    (a : String × String) (cs : List RegisteredComponent)
    → In a kind_prefixes
    → mem a.0 (registered_packages (component_types (live_components cs)))
      ≡ some_has_prefix a.1 (registered_types cs)
mem-registered_packages-live_components a cs h =
    rw (registered_packages-live_components cs) (mem-registered_packages a (registered_types cs) h)
