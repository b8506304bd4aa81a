-- ===== src/Server/Offered.antt =====
-- cmd/dapr-mcp-server/main.go: the tools that `main` registers with the MCP server, in the order in
-- which it calls the packages.
pub mod Each
pub mod Names
pub mod ReadOnly
pub mod Descriptions
use dapr_mcp.Base.{String, List, [], ◌∷◌, ◌++◌, map, Option, if◌then◌else◌, ◌==◌}
use dapr_mcp.Mcp.{Act}
use dapr_mcp.Conversation.{ConversationClient, Temperatures, Printing}
use dapr_mcp.Metadata.{ComponentInfo, MetadataClient}
use dapr_mcp.Workflow.Client.{TimeFormat}
use dapr_mcp.Workflow.Registry.{Registry}
use dapr_mcp.Tools.OneCall.{Clients}
use dapr_mcp.Registration.Tool.{Tool}
use dapr_mcp.Registration.State.{state_tools}
use dapr_mcp.Registration.Lock.{lock_tools}
use dapr_mcp.Registration.Pubsub.{pubsub_tools}
use dapr_mcp.Registration.Secrets.{secrets_tools}
use dapr_mcp.Registration.Crypto.{crypto_tools}
use dapr_mcp.Registration.Invoke.{invoke_tools}
use dapr_mcp.Registration.Bindings.{bindings_tools}
use dapr_mcp.Registration.Actors.{actors_tools}
use dapr_mcp.Registration.Metadata.{metadata_tools}
use dapr_mcp.Registration.Conversation.{conversation_tools}
use dapr_mcp.Registration.Workflow.{workflow_tools}
use dapr_mcp.Server.Components.{registered_packages}

-- What `main` hands to the packages: the faces of its Dapr client, the workflow clients, and the
-- functions outside the repository.
pub record Services (F W : Type 0) : Type 0 where
  pub clients : Clients W
  pub metadata : MetadataClient W
  pub print_components : List ComponentInfo → Option String
  pub conversation : ConversationClient F W
  pub temperatures : Temperatures F
  pub printing : Printing
  pub new_random : Act W String
  pub time : TimeFormat
  pub registry : Registry W

module _ {F W : Type 0} (s : Services F W) where
  -- The call of `RegisterTools` for a package.
  unfoldable pub register_tools : String → List (Tool W)
  unfolding metadata_tools invoke_tools actors_tools workflow_tools pubsub_tools bindings_tools
      state_tools secrets_tools conversation_tools crypto_tools lock_tools
  register_tools pkg =
      if pkg == "metadata"
      then metadata_tools s.metadata s.print_components
      else if pkg == "invoke"
      then invoke_tools s.clients.invoke s.clients.json
      else if pkg == "actors"
      then actors_tools s.clients.actors
      else if pkg == "workflow"
      then workflow_tools s.time s.registry
      else if pkg == "pubsub"
      then pubsub_tools s.clients.pubsub s.clients.inject
      else if pkg == "bindings"
      then bindings_tools s.clients.bindings s.clients.inject s.clients.json
      else if pkg == "state"
      then state_tools s.clients.state s.clients.inject
      else if pkg == "secrets"
      then secrets_tools s.clients.secrets s.clients.inject s.clients.print_secret
          s.clients.print_secrets
      else if pkg == "conversation"
      then conversation_tools s.conversation s.temperatures s.printing s.new_random
      else if pkg == "crypto"
      then crypto_tools s.clients.crypto
      else if pkg == "lock"
      then lock_tools s.clients.lock
      else []

  abbrev pub register_all : List String → List (Tool W)
  register_all [] = []
  register_all (pkg ∷ pkgs) = register_tools pkg ++ register_all pkgs

  -- The tools that the server offers, for the types of the sidecar's components.
  unfoldable pub offered_tools : List String → List (Tool W)
  unfolding register_tools
  offered_tools types = register_all (registered_packages types)
