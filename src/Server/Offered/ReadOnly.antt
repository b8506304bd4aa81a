-- ===== src/Server/Offered/ReadOnly.antt =====
-- What the tools do to the world that are offered as read-only.
use dapr_mcp.Base.{
  ℕ, String, Bool, true, false, List, Dict, ℤ, some, In, inl, inr, All, get_elem?, ok, Result-cases,
  ◌≡◌, ◌≢◌, refl, ◌∙◌, arith,
}
use dapr_mcp.Mcp.{with_context, ◌>>=◌}
use dapr_mcp.Crypto.{DecryptOptions, decrypt_options}
use dapr_mcp.Metadata.{get_metadata_tool}
use dapr_mcp.Tools.OneCall.{MakesOneCall-of_Clients}
use dapr_mcp.Workflow.Client.{TimeFormat, ListOption}
use dapr_mcp.Workflow.Registry.{Registry, Target, targets, client_for}
use dapr_mcp.Workflow.Registry.Routing.{In-targets_of_client_for}
use dapr_mcp.Workflow.Instance.{InstanceArgs, get_workflow_status}
use dapr_mcp.Workflow.History.{get_workflow_history}
use dapr_mcp.Workflow.Listing.{ListWorkflowsArgs, list_workflows}
use dapr_mcp.Workflow.Listing.Workers.{list_options}
use dapr_mcp.Server.Offered.Each.{each_offered}
use dapr_mcp.Workflow.Listing.ReadOnly.{list_workflows-world}
use dapr_mcp.Registration.Tool.{Tool}
use dapr_mcp.Server.Components.{core_packages, conditional_packages}
use dapr_mcp.Server.Offered.{Services, register_tools, register_all, offered_tools}

-- The queries of a workflow client change nothing.
pub record IsQuiet {W : Type 0} (t : Target W) : Type 0 where
  pub list : (options : List ListOption) (w : W) → (t.client.list_instance_ids options w).1 ≡ w
  pub fetch :
      (id : String) (full : Bool) (w : W) → (t.client.fetch_workflow_metadata id full w).1 ≡ w
  pub history : (id : String) (w : W) → (t.client.get_instance_history id w).1 ≡ w

-- The calls of the sidecars that Dapr documents as reading change nothing.
pub record HasQuietReads {F W : Type 0} (s : Services F W) : Type 0 where
  pub get_state : (store key : String) (w : W) → (s.clients.state.get_state store key w).1 ≡ w
  pub get_bulk_state :
      (store : String) (keys : List String) (parallelism : ℤ) (w : W)
      → (s.clients.state.get_bulk_state store keys parallelism w).1 ≡ w
  pub get_secret :
      (store name : String) (metadata : Dict String) (w : W)
      → (s.clients.secrets.get_secret store name metadata w).1 ≡ w
  pub get_bulk_secret :
      (store : String) (metadata : Dict String) (w : W)
      → (s.clients.secrets.get_bulk_secret store metadata w).1 ≡ w
  pub decrypt :
      (cipher : String) (options : DecryptOptions) (w : W)
      → ((s.clients.crypto.decrypt cipher options >>= λ stream. stream) w).1 ≡ w
  pub get_metadata : (w : W) → (s.metadata.get_metadata w).1 ≡ w
  pub workflows : (t : Target W) → In t (targets s.registry) → IsQuiet t

module _ {W : Type 0} (time : TimeFormat) (r : Registry W)
    (quiet : (t : Target W) → In t (targets r) → IsQuiet t) where
  pub resolved : (id : String) (t : Target W) → client_for r id ≡ ok t → IsQuiet t
  resolved id t e = quiet t (In-targets_of_client_for r id t e)

  pub get_workflow_status-world :
      (args : InstanceArgs) (w : W) → (get_workflow_status time r args w).1 ≡ w
  unfolding get_workflow_status
  get_workflow_status-world args w = elim (Result-cases (client_for r args.app_id)) [
    | inl (t, e) ↦ rw e (ground (arith, (resolved args.app_id t e).fetch args.instance_id true w))
    | inr (m, e) ↦ rw e
  ]

  pub get_workflow_history-world :
      (args : InstanceArgs) (w : W) → (get_workflow_history time r args w).1 ≡ w
  unfolding get_workflow_history
  get_workflow_history-world args w = elim (Result-cases (client_for r args.app_id)) [
    | inl (t, e) ↦ rw e (ground (arith, (resolved args.app_id t e).history args.instance_id w))
    | inr (m, e) ↦ rw e
  ]

  pub list_world : (args : ListWorkflowsArgs) (w : W) → (list_workflows time r args w).1 ≡ w
  list_world args w = list_workflows-world time r args w (λ size token t m. record {
    list = (quiet t m).list (list_options size token) w;
    fetch = λ id. (quiet t m).fetch id false w;
  })

-- A tool that is offered as read-only, and is not `converse_with_llm`, leaves the world as it was.
abbrev IsHarmless : {W : Type 0} → Tool W → Type 0
IsHarmless {W} t =
    t.annotations.read_only_hint ≡ true
    → t.name ≢ "converse_with_llm"
    → (args : t.Args) (w : W) → (t.handler args w).1 ≡ w

infixr 3 ◌&◌
abbrev pub ◌&◌ : {A B : Type 0} → A → B → A × B
a & b = (a, b)

pub writes : {A : Type 0} → false ≡ true → A
writes e = cc

module _ {F W : Type 0} (s : Services F W) (reads : HasQuietReads s) where
  pub get_metadata_tool-world :
      (w : W) → (get_metadata_tool s.print_components (some s.metadata) w).1 ≡ w
  unfolding get_metadata_tool
  get_metadata_tool-world w = ground (arith, reads.get_metadata w)

  All-IsHarmless-core : All IsHarmless (register_all s core_packages)
  unfolding register_tools
  All-IsHarmless-core =
      (λ e n args w. get_metadata_tool-world w)
      & writes
      & writes
      & writes
      & (λ e n. get_workflow_status-world s.time s.registry reads.workflows)
      & (λ e n. get_workflow_history-world s.time s.registry reads.workflows)
      & writes
      & (λ e n. list_world s.time s.registry reads.workflows)
      & writes
      & writes
      & writes
      & writes
      & writes
      & tt

  All-IsHarmless-conditional : All IsHarmless (register_all s conditional_packages)
  unfolding register_tools
  All-IsHarmless-conditional =
      let once = MakesOneCall-of_Clients s.clients in
      writes
      & writes
      & writes
      & writes
      & (λ e n args w. (once.get_state args w).0 ∙ reads.get_state args.store_name args.key w)
      & (λ e n args w.
          (once.get_bulk_state args w).0
          ∙ reads.get_bulk_state args.store_name args.keys args.parallelism w)
      & writes
      & writes
      & (λ e n args w.
          (once.get_secret args w).0
          ∙ reads.get_secret args.store_name args.secret_name
              (with_context s.clients.inject args.metadata) w)
      & (λ e n args w.
          (once.get_bulk_secret args w).0
          ∙ reads.get_bulk_secret args.store_name (with_context s.clients.inject args.metadata) w)
      & (λ e n. absurd (n refl))
      & writes
      & (λ e n args w.
          (once.decrypt args w).0 ∙ reads.decrypt args.cipher_text (decrypt_options args) w)
      & writes
      & writes
      & tt

  -- A tool whose annotation says that it is read-only leaves the world as it was, whatever its
  -- arguments and whatever components the sidecar has, if the reading calls of the Dapr client do;
  -- `converse_with_llm` is left out, which is offered as read-only too.
  pub offered_tools-read_only :
      (types : List String) (i : ℕ) (t : Tool W)
      → get_elem? (offered_tools s types) i ≡ some t
      → t.annotations.read_only_hint ≡ true
      → t.name ≢ "converse_with_llm"
      → (args : t.Args) (w : W) → (t.handler args w).1 ≡ w
  offered_tools-read_only types i t =
      each_offered s IsHarmless types i t All-IsHarmless-core All-IsHarmless-conditional
