-- ===== src/Server/Start/Ready.antt =====
-- What a start that succeeds has set up.
use dapr_mcp.Base.{
  String, true, Option, none, some, List, [], ◌∷◌, Dict, keys, has_key, if◌then◌else◌, ◌==◌, Result,
  ok, err, inl, inr, ◌≡◌, ◌≢◌, refl, ap, arith, All, eq_iff, eq_refl, Bool-cases,
  ne-nil_of_StartsSolid,
}
use dapr_mcp.Mcp.{continue, wrap_error, Act, pure, ◌>>=◌}
use dapr_mcp.Mcp.Outcomes.{IfOk, IfOk-bind, IfOk-all}
use dapr_mcp.Metadata.{RegisteredComponent, live_components, get_live_component_list}
use dapr_mcp.Metadata.Packages.{registered_types, registered_packages-live_components}
use dapr_mcp.Workflow.Client.{WorkflowClient}
use dapr_mcp.Workflow.Config.{apps_env_var, parse_apps_config}
use dapr_mcp.Workflow.Config.Sound.{IsAppPair, parse_apps_config-IsApps}
use dapr_mcp.Workflow.Registry.{Registry, new_registry, client_for, app_ids, multi_app, without}
use dapr_mcp.Workflow.Registry.Laws.{is_ok}
use dapr_mcp.Server.Connect.{connect_with_retry, initialize_workflow_apps}
use dapr_mcp.Server.Connect.Pool.{initialize_workflow_apps_accepts}
use dapr_mcp.Server.Components.{registered_packages}
use dapr_mcp.Server.Start.{
  Outside, Started, start, own_app_id, others, instruction_ids, component_types, ask_app_id,
  started_with,
}

others-without : (id : String) (xs : List String) → others id xs ≡ without id xs
unfolding others without
others-without id [] = refl
others-without id (x ∷ xs) = ground (arith, others-without id xs)

-- The instructions list the app-ids of the registry's error messages, if there are several apps.
module _ {W : Type 0} where
  instruction_ids-app_ids :
      (client : WorkflowClient W) (id : String) (pool : Dict (WorkflowClient W))
      → id ≢ ""
      → instruction_ids id pool ≡ (
          if multi_app (new_registry client id pool)
          then app_ids (new_registry client id pool)
          else [])
  unfolding instruction_ids multi_app app_ids new_registry
  instruction_ids-app_ids client id pool h =
      ground (arith, eq_iff id "", others-without id (keys pool))

abbrev default_id : String
default_id = "default"

default_id_given : default_id ≢ ""
default_id_given h = ground (arith, eq_iff default_id "", h)

own_app_id_given : (r : Result String (Option String)) → own_app_id r ≢ ""
own_app_id_given (err e) = default_id_given
own_app_id_given (ok none) = default_id_given
own_app_id_given (ok (some id)) = elim (Bool-cases (id == "")) [
  | inl h ↦ rw h default_id_given
  | inr h ↦ rw h (λ e. ground (arith, eq_iff id "", e))
]

module _ {W C : Type 0} (out : Outside W C) where
  -- The components that some query of the metadata returned bring the packages.
  abbrev pub Brings : List String → Type 0
  Brings packages =
      (client : C) × (w : W) × (cs : List RegisteredComponent) × (((out.metadata_client
            client).get_metadata
          w).0
        ≡ ok cs)
      × (packages ≡ registered_packages (registered_types cs))

  pub record IsReady (apps : Dict String) (s : Started W) : Type 0 where
    pub accepts : All (λ a. is_ok (client_for s.registry a.0) ≡ true) apps
    pub instructions : s.instruction_ids ≡ (if multi_app s.registry then app_ids s.registry else [])
    pub packages : Brings s.packages

  abbrev AcceptsAll : Dict String → Dict (WorkflowClient W) → Type 0
  AcceptsAll apps pool =
      (client : WorkflowClient W) (id : String)
      → All (λ a. is_ok (client_for (new_registry client id pool) a.0) ≡ true) apps

  accepts_from :
      (apps all : Dict String) (r : Registry W)
      → ((k : String) → has_key k all ≡ true → k ≢ "" → is_ok (client_for r k) ≡ true)
      → ((k : String) → has_key k apps ≡ true → has_key k all ≡ true)
      → All IsAppPair apps
      → All (λ a. is_ok (client_for r a.0) ≡ true) apps
  accepts_from [] all r h sub words = tt
  accepts_from ((k, v) ∷ apps) all r h sub words = (
    h k (sub k (ground (arith, eq_refl k))) (ne-nil_of_StartsSolid k words.0.0.solid),
    accepts_from apps all r h (λ j p. sub j (ground arith)) words.1,
  )

  accepted :
      (apps : Dict String) (w : W) (r : Result String (Dict (WorkflowClient W)) × W)
      → ((k : String) → has_key k (out.order apps) ≡ has_key k apps)
      → parse_apps_config (out.getenv apps_env_var) ≡ ok apps
      → initialize_workflow_apps out.sleep out.dial out.workflow_client out.order
          (out.getenv apps_env_var)
          w
        ≡ r
      → IfOk (AcceptsAll apps) r
  accepted apps w (err m, w') same parsed e = tt
  accepted apps w (ok pool, w') same parsed e = λ client id.
      accepts_from apps apps (new_registry client id pool)
        (initialize_workflow_apps_accepts out.sleep out.dial out.workflow_client out.order
          (out.getenv apps_env_var) apps client id pool w w' same parsed e).2
        (λ k h. h) (parse_apps_config-IsApps (out.getenv apps_env_var) apps parsed).words

  brought :
      (client : C) (w : W) (message : String → String)
      (r : Result String (List RegisteredComponent) × W)
      → (out.metadata_client client).get_metadata w ≡ r
      → IfOk
          (λ cs. Brings (registered_packages (component_types cs)))
          (continue (λ cs. pure (live_components cs)) (wrap_error message r))
  brought client w message (err m, w') e = tt
  brought client w message (ok cs, w') e =
      (client, w, cs, ap (λ x. x.0) e, registered_packages-live_components cs)

  components_of :
      (client : C) (w : W)
      → IfOk
          (λ cs. Brings (registered_packages (component_types cs)))
          (get_live_component_list (out.metadata_client client) w)
  unfolding get_live_component_list
  components_of client w = brought client w _ ((out.metadata_client client).get_metadata w) refl

  -- The rest of the start after each of its calls.
  abbrev after_id : C → Dict (WorkflowClient W) → String → Act W (Started W)
  after_id client pool id = get_live_component_list (out.metadata_client client) >>= λ cs.
      pure (started_with out client id pool cs)

  abbrev after_pool : C → Dict (WorkflowClient W) → Act W (Started W)
  after_pool client pool = ask_app_id out client >>= after_id client pool

  abbrev connect_pool : Act W (Dict (WorkflowClient W))
  connect_pool w =
      initialize_workflow_apps out.sleep out.dial out.workflow_client out.order
        (out.getenv apps_env_var) w

  abbrev after_client : C → Act W (Started W)
  after_client client = connect_pool >>= after_pool client

  module _ (apps : Dict String) where
    IsReady-after_id :
        (client : C) (pool : Dict (WorkflowClient W)) (id : String) (w : W)
        → AcceptsAll apps pool
        → id ≢ ""
        → IfOk (IsReady apps) (after_id client pool id w)
    IsReady-after_id client pool id w accepts given =
        IfOk-bind (λ cs. Brings (registered_packages (component_types cs))) (IsReady apps)
          (λ cs. pure (started_with out client id pool cs))
          (get_live_component_list (out.metadata_client client)) w (components_of client w)
          (λ cs w4 brings. record {
            accepts = accepts (out.workflow_client client) id;
            instructions = instruction_ids-app_ids (out.workflow_client client) id pool given;
            packages = brings;
          })

    IsReady-after_pool :
        (client : C) (pool : Dict (WorkflowClient W)) (w : W)
        → AcceptsAll apps pool
        → IfOk (IsReady apps) (after_pool client pool w)
    IsReady-after_pool client pool w accepts =
        IfOk-bind (λ id. id ≢ "") (IsReady apps) (after_id client pool) (ask_app_id out client) w
          (own_app_id_given (out.metadata_id client w).0)
          (λ id w3 given. IsReady-after_id client pool id w3 accepts given)

  -- If the setting of the workflow apps is valid, a start that succeeds is ready: a call that names
  -- a configured app-id is accepted, the instructions list the app-ids of the error messages exactly
  -- if there are several apps, and the registered packages are those that all components of the
  -- sidecar bring, listed or not. The order of the map keeps its keys.
  pub start-IsReady :
      (apps : Dict String) (w : W)
      → ((k : String) → has_key k (out.order apps) ≡ has_key k apps)
      → parse_apps_config (out.getenv apps_env_var) ≡ ok apps
      → IfOk (IsReady apps) (start out w)
  unfolding start
  start-IsReady apps w same parsed =
      IfOk-bind (λ client. Unit {0}) (IsReady apps) after_client
        (connect_with_retry out.sleep out.connect) w
        (IfOk-all (λ client. Unit {0}) (λ client. tt) (connect_with_retry out.sleep out.connect w))
        (λ client w1 u.
          IfOk-bind (AcceptsAll apps) (IsReady apps) (after_pool client) connect_pool w1
            (accepted apps w1 (connect_pool w1) same parsed refl)
            (λ pool w2 accepts. IsReady-after_pool apps client pool w2 accepts))
