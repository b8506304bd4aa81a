-- ===== src/Registration/Metadata.antt =====
-- pkg/metadata/tools.go: the tools that `RegisterTools` registers.
use dapr_mcp.Base.{String, true, false, List, [], ◌∷◌, Option, none, some, format}
use dapr_mcp.Registration.Tool.{Tool}
use dapr_mcp.Metadata.{MetadataClient, ComponentInfo, MetadataResult, get_metadata_tool}

module _ {W : Type 0} (client : MetadataClient W) (print : List ComponentInfo → Option String) where
  unfoldable pub get_components_entry : Tool W
  get_components_entry = record {
    name = "get_components";
    title = "Retrieve Live Dapr Component List (Call This First)";
    description = format (
        "Call this tool first. It retrieves a detailed list of all currently running Dapr components (state stores, pub/sub brokers, bindings, conversations, secret stores, locks, cryptography, etc.) in the sidecar. Use the structured result of this call to discover valid component names (e.g., 'statestore-redis') and capabilities before invoking other tools."
        ∷ []);
    annotations = record {
      read_only_hint = true;
      destructive_hint = none;
      idempotent_hint = false;
      open_world_hint = none;
    };
    Args = Unit;
    Reply = MetadataResult;
    handler = λ args. get_metadata_tool print (some client);
  }

  unfoldable pub metadata_tools : List (Tool W)
  unfolding get_components_entry
  metadata_tools = get_components_entry ∷ []
