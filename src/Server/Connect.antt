-- ===== src/Server/Connect.antt =====
-- cmd/dapr-mcp-server/main.go: the connections to the sidecars.
pub mod Attempts
pub mod Pool
use dapr_mcp.Base.{
  ℕ, zero, suc, String, Option, none, some, List, [], ◌∷◌, Dict, insert, Result, ok, err, format,
}
use dapr_mcp.Mcp.{Act}
use dapr_mcp.Workflow.Client.{WorkflowClient}
use dapr_mcp.Workflow.Config.{apps_env_var, parse_apps_config}

-- `maxRetries`, less the first attempt.
abbrev pub more_attempts : ℕ
more_attempts = 4

abbrev pub no_connection : String → String
no_connection e = format ("failed to create Dapr client after 5 attempts: " ∷ e ∷ [])

module _ {W C : Type 0} (sleep : W → W) (connect : Act W C) where
  abbrev last_attempt : Result String C × W → Result String C × W
  last_attempt (ok c, w) = (ok c, w)
  last_attempt (err e, w) = (err (no_connection e), w)

  -- The attempts of `connectWithRetry` from one that has `n` others after it: a pause follows each
  -- failure but the last.
  pub connect_from : ℕ → Act W C
  connect_from zero w = last_attempt (connect w)
  connect_from (suc n) w =
      let (result, w') = connect w in
      elim result [ ok c ↦ (ok c, w') | err e ↦ connect_from n (sleep w') ]

  -- `connectWithRetry`.
  unfoldable pub connect_with_retry : Act W C
  unfolding connect_from
  connect_with_retry w = connect_from more_attempts w

-- What `initializeWorkflowApps` uses: a connection to an address, the client over it, a pause.
module _ {W C : Type 0} (sleep : W → W) (dial : String → Act W C)
    (new_client : C → WorkflowClient W) where
  abbrev unreachable : String → String → String → String
  unreachable id addr e = format ("workflow app '" ∷ id ∷ "' at " ∷ addr ∷ ": " ∷ e ∷ [])

  -- The loop over the configured apps, in the order that Go delivers them.
  pub connect_apps : Dict String → Dict (WorkflowClient W) → Act W (Dict (WorkflowClient W))
  connect_apps [] pool w = (ok pool, w)
  connect_apps ((id, addr) ∷ apps) pool w =
      let (result, w') = connect_with_retry sleep (dial addr) w in
      elim result [
        | err e ↦ (err (unreachable id addr e), w')
        | ok c ↦ connect_apps apps (insert id (new_client c) pool) w'
      ]

  -- `initializeWorkflowApps`, for the value of the environment variable and an order of the map.
  unfoldable pub initialize_workflow_apps :
      (Dict String → Dict String) → String → Act W (Dict (WorkflowClient W))
  unfolding connect_apps
  initialize_workflow_apps order raw w = elim (parse_apps_config raw) [
    | err e ↦ (err e, w)
    | ok apps ↦ connect_apps (order apps) [] w
  ]
