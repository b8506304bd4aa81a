-- ===== src/Workflow/Registry.antt =====
-- pkg/workflow/registry.go: the clients by app-id, and the choice of one for a call.
pub mod Laws
pub mod Order
pub mod Routing
use dapr_mcp.Base.{
  String, Bool, true, false, not, Option, none, some, List, [], ◌∷◌, ◌++◌, if◌then◌else◌, ltb,
  length, Dict, lookup, has_key, keys, sort, format, join, Result, ok, err, ◌==◌,
}
use dapr_mcp.Workflow.Client.{WorkflowClient}

abbrev pub fallback_app_id : String
fallback_app_id = "default"

-- `registry`: the server's own client, and one for each app of DAPR_MCP_SERVER_WORKFLOW_APPS.
pub record Registry (W : Type 0) : Type 0 where
  pub default_client : WorkflowClient W
  pub default_app_id : String
  pub by_app_id : Dict (WorkflowClient W)

-- `target`: a client together with the app-id that it serves.
pub record Target (W : Type 0) : Type 0 where
  pub app_id : String
  pub client : WorkflowClient W

-- The loop of `appIDs`: every key but the server's own app-id.
unfoldable pub without : String → List String → List String
without id [] = []
without id (x ∷ xs) = let rest = without id xs in if x == id then rest else x ∷ rest

module _ {W : Type 0} where
  unfoldable pub new_registry : WorkflowClient W → String → Dict (WorkflowClient W) → Registry W
  new_registry client id apps = record {
    default_client = client;
    default_app_id = if id == "" then fallback_app_id else id;
    by_app_id = apps;
  }

  -- `multiApp`.
  unfoldable pub multi_app : Registry W → Bool
  multi_app r = ltb 0 (length r.by_app_id)

  -- `appIDs`.
  unfoldable pub app_ids : Registry W → List String
  unfolding without
  app_ids r = sort (r.default_app_id ∷ without r.default_app_id (keys r.by_app_id))

  -- The second loop of `targets`: a look-up of each of the map's keys.
  pub pool_targets : List String → Dict (WorkflowClient W) → List (Target W)
  pool_targets [] apps = []
  pool_targets (id ∷ ids) apps = elim (lookup id apps) [
    | none ↦ pool_targets ids apps
    | some c ↦ record { app_id = id; client = c } ∷ pool_targets ids apps
  ]

  unfoldable pub targets : Registry W → List (Target W)
  unfolding pool_targets
  targets r =
      let pool = pool_targets (sort (keys r.by_app_id)) r.by_app_id in
      if has_key r.default_app_id r.by_app_id
      then pool
      else record { app_id = r.default_app_id; client = r.default_client } ∷ pool

  abbrev pub app_id_required : Registry W → String
  app_id_required r = format (
      "appID is required because multiple workflow apps are configured; pass one of: "
      ∷ join (app_ids r) ", "
      ∷ [])

  abbrev pub app_id_unknown : Registry W → String → String
  app_id_unknown r id =
      format ("unknown appID '" ∷ id ∷ "'; configured app-ids: " ∷ join (app_ids r) ", " ∷ [])

  -- `clientFor`.
  unfoldable pub client_for : Registry W → String → Result String (Target W)
  client_for r id =
      if id == ""
      then (if multi_app r
          then err (app_id_required r)
          else ok (record { app_id = r.default_app_id; client = r.default_client }))
      else elim (lookup id r.by_app_id) [
        | some c ↦ ok (record { app_id = id; client = c })
        | none ↦
            if id == r.default_app_id
            then ok (record { app_id = id; client = r.default_client })
            else err (app_id_unknown r id)
      ]
