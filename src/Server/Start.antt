-- ===== src/Server/Start.antt =====
-- cmd/dapr-mcp-server/main.go: the steps of `main` up to the registered tools, and the handler that
-- it puts in front of the MCP server. Where `main` exits, the result is an error.
pub mod Ready
pub mod Guarded
use dapr_mcp.Base.{
  String, ℕ, Bool, true, false, not, ◌&&◌, Option, none, some, List, [], ◌∷◌, Dict, keys, length,
  ltb, sort, map, if◌then◌else◌, ◌==◌, Result, ok, err,
}
use dapr_mcp.Mcp.{Act, pure, fail, lift, ◌>>=◌}
use dapr_mcp.Auth.{Failure, Authenticator, mode_disabled}
use dapr_mcp.Auth.Config.{AuthConfig, validate}
use dapr_mcp.Auth.Middleware.{Handler}
use dapr_mcp.Metadata.{ComponentInfo, MetadataClient, get_live_component_list}
use dapr_mcp.Workflow.Client.{WorkflowClient}
use dapr_mcp.Workflow.Config.{apps_env_var}
use dapr_mcp.Workflow.Registry.{Registry, new_registry}
use dapr_mcp.Server.Connect.{connect_with_retry, initialize_workflow_apps}
use dapr_mcp.Server.Components.{registered_packages}
use dapr_mcp.Server.Authentication.{Constructors, build_authenticators, auth_middleware}

-- What `main` uses of Dapr and Go: for a type `C` of Dapr clients, the two ways to connect, the
-- clients over a connection, the ID that `GetMetadata` reports, and an order of a map's entries.
pub record Outside (W C : Type 0) : Type 0 where
  pub getenv : String → String
  pub sleep : W → W
  pub connect : Act W C
  pub dial : String → Act W C
  pub workflow_client : C → WorkflowClient W
  pub metadata_client : C → MetadataClient W
  pub metadata_id : C → Act W (Option String)
  pub order : Dict String → Dict String

-- The app-id of the server's own sidecar: `default` if the metadata cannot be read, are nil or have
-- no ID.
abbrev pub own_app_id : Result String (Option String) → String
own_app_id (err e) = "default"
own_app_id (ok none) = "default"
own_app_id (ok (some id)) = if id == "" then "default" else id

-- The app-ids of the instructions, if workflow apps are configured.
unfoldable pub others : String → List String → List String
others id [] = []
others id (x ∷ xs) = let rest = others id xs in if x == id then rest else x ∷ rest

unfoldable pub instruction_ids : {A : Type 0} → String → Dict A → List String
unfolding others
instruction_ids id pool = if ltb 0 (length pool) then sort (id ∷ others id (keys pool)) else []

abbrev pub component_types : List ComponentInfo → List String
component_types cs = map (λ c. c.type) cs

-- The server before it serves: the registry of the workflow tools, the app-ids of its instructions,
-- and the packages whose tools are registered.
pub record Started (W : Type 0) : Type 0 where
  pub registry : Registry W
  pub instruction_ids : List String
  pub packages : List String

module _ {W C : Type 0} (out : Outside W C) where
  abbrev pub ask_app_id : C → Act W String
  ask_app_id c w = let (result, w') = out.metadata_id c w in (ok (own_app_id result), w')

  abbrev pub started_with : C → String → Dict (WorkflowClient W) → List ComponentInfo → Started W
  started_with client id pool components = record {
    registry = new_registry (out.workflow_client client) id pool;
    instruction_ids = instruction_ids id pool;
    packages = registered_packages (component_types components);
  }

  unfoldable pub start : Act W (Started W)
  start = do
    client ← connect_with_retry out.sleep out.connect
    pool ←
        initialize_workflow_apps out.sleep out.dial out.workflow_client out.order
          (out.getenv apps_env_var)
    id ← ask_app_id client
    components ← get_live_component_list (out.metadata_client client)
    pure (started_with client id pool components)

-- The part of `main` that puts authentication before the MCP handler `next`. `text` is the text of a
-- failure, and `lower` the lower case of code points beyond ASCII.
module _ {W : Type 0} (text : Failure → String) (lower : ℕ → String) (make : Constructors W)
    (cfg : AuthConfig) (next : Handler W) where
  abbrev pub with_authenticators :
      Result String (List (Authenticator W)) × W → Result String (Handler W) × W
  with_authenticators (err e, w) = (err e, w)
  with_authenticators (ok auths, w) = (ok (auth_middleware make cfg lower auths next), w)

  abbrev pub when_valid : Option Failure → Act W (Handler W)
  when_valid (some f) w = (err (text f), w)
  when_valid none w =
      if cfg.enabled && not (cfg.mode == mode_disabled)
      then with_authenticators (build_authenticators make cfg w)
      else (ok next, w)

  unfoldable pub protect : Act W (Handler W)
  protect w = when_valid (validate cfg) w
