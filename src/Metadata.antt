-- ===== src/Metadata.antt =====
-- pkg/metadata/tools.go: the list of the components of the sidecar that bring tools.
pub mod Packages
use dapr_mcp.Base.{
  String, Bool, true, false, ◌||◌, Option, none, some, List, [], ◌∷◌, length, if◌then◌else◌,
  contains, decimal, format, Result, ok, err,
}
use dapr_mcp.Mcp.{Act, call, pure, ◌>>=◌}

-- `dapr.MetadataRegisteredComponents`; the capabilities may be nil.
pub record RegisteredComponent : Type 0 where
  pub name : String
  pub type : String
  pub version : String
  pub capabilities : Option (List String)

pub record MetadataClient (W : Type 0) : Type 0 where
  pub get_metadata : Act W (List RegisteredComponent)

pub record ComponentInfo : Type 0 where
  pub name : String
  pub type : String
  pub version : String
  pub capabilities : List String

-- The condition of the loop of `GetLiveComponentList`.
unfoldable pub is_listed : String → Bool
is_listed type =
    contains type "pubsub"
    || contains type "state"
    || contains type "binding"
    || contains type "conversation"
    || contains type "secretstores"
    || contains type "lock"
    || contains type "crypto"

abbrev or_no_capabilities : Option (List String) → List String
or_no_capabilities none = []
or_no_capabilities (some cs) = cs

abbrev pub component_info : RegisteredComponent → ComponentInfo
component_info c = record {
  name = c.name;
  type = c.type;
  version = c.version;
  capabilities = or_no_capabilities c.capabilities;
}

unfoldable pub live_components : List RegisteredComponent → List ComponentInfo
live_components [] = []
live_components (c ∷ cs) =
    let rest = live_components cs in if is_listed c.type then component_info c ∷ rest else rest

-- The result of `getMetadataTool`, with its typed structured result.
pub record MetadataResult : Type 0 where
  pub text : String
  pub is_error : Bool
  pub components : List ComponentInfo

abbrev pub metadata_error : String → MetadataResult
metadata_error message = record { text = message; is_error = true; components = [] }

abbrev or_unserialized : Option String → String
or_unserialized none = "(failed to serialize component details)"
or_unserialized (some s) = s

module _ {W : Type 0} where
  unfoldable pub get_live_component_list : MetadataClient W → Act W (List ComponentInfo)
  unfolding live_components is_listed
  get_live_component_list client = do
    components ← call client.get_metadata λ e. format ("failed to fetch Dapr metadata: " ∷ e ∷ [])
    pure (live_components components)

  abbrev pub metadata_answer :
      (List ComponentInfo → Option String)
      → Result String (List ComponentInfo) × W
      → MetadataResult × W
  metadata_answer print (err e, w) =
      (metadata_error (format ("Error fetching live Dapr component list: " ∷ e ∷ [])), w)
  metadata_answer print (ok components, w) = (
    record {
      text = format (
          "Successfully retrieved "
          ∷ decimal (length components)
          ∷ " Dapr component(s):\n"
          ∷ or_unserialized (print components)
          ∷ []);
      is_error = false;
      components = components;
    },
    w,
  )

  -- `json.MarshalIndent` is the parameter `print`.
  unfoldable pub get_metadata_tool :
      (List ComponentInfo → Option String) → Option (MetadataClient W) → W → MetadataResult × W
  unfolding get_live_component_list
  get_metadata_tool print none w =
      (metadata_error "Dapr client not initialized on the server side.", w)
  get_metadata_tool print (some client) w = metadata_answer print (get_live_component_list client w)
