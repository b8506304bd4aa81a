-- ===== src/Workflow/Listing/ReadOnly.antt =====
-- The world after a call of `list_workflows`.
use dapr_mcp.Base.{
  ℕ, String, List, [], ◌∷◌, In, inl, inr, All, All-of_In, Result-cases, Bool-cases, ◌==◌, ◌&&◌, ◌≡◌,
  refl, ap, ◌∙◌,
}
use dapr_mcp.Workflow.Client.{TimeFormat}
use dapr_mcp.Workflow.Registry.{Registry, Target, targets, client_for, multi_app}
use dapr_mcp.Workflow.Registry.Routing.{In-targets_of_client_for}
use dapr_mcp.Workflow.Listing.{
  ListWorkflowsArgs, list_workflows, list_everywhere, list_one, page_size,
}
use dapr_mcp.Workflow.Listing.Workers.{list_apps}
use dapr_mcp.Workflow.Listing.Workers.Interleave.{IsReadOnly, list_app-world}

module _ {W : Type 0} (time : TimeFormat) where
  list_apps-world :
      (size : ℕ) (token : String) (ts : List (Target W)) (w : W)
      → All (IsReadOnly time size token w) ts
      → (list_apps time size token ts w).1 ≡ w
  unfolding list_apps
  list_apps-world size token [] w h = refl
  list_apps-world size token (t ∷ ts) w h =
      ap (λ v. (list_apps time size token ts v).1) (list_app-world time size token t w h.0)
      ∙ list_apps-world size token ts w h.1

  module _ (r : Registry W) (w : W) (size : ℕ) (token : String)
      (quiet : (t : Target W) → In t (targets r) → IsReadOnly time size token w t) where
    list_everywhere-world : (list_everywhere time r size token w).1 ≡ w
    unfolding list_everywhere
    list_everywhere-world = elim (Bool-cases (token == "")) [
      | inl e ↦ rw e (
          list_apps-world size token (targets r) w
            (All-of_In (IsReadOnly time size token w) (targets r) quiet))
      | inr e ↦ rw e refl
    ]

    list_one-world : (id : String) → (list_one time r size token (client_for r id) w).1 ≡ w
    unfolding list_one
    list_one-world id = elim (Result-cases (client_for r id)) [
      | inl (t, e) ↦
          rw e (list_app-world time size token t w (quiet t (In-targets_of_client_for r id t e)))
      | inr (m, e) ↦ rw e refl
    ]

  -- Listing changes nothing if the queries of the sidecars change nothing.
  pub list_workflows-world :
      (r : Registry W) (args : ListWorkflowsArgs) (w : W)
      → ((size : ℕ) (token : String) (t : Target W)
          → In t (targets r)
          → IsReadOnly time size token w t)
      → (list_workflows time r args w).1 ≡ w
  unfolding list_workflows
  list_workflows-world r args w quiet =
      let size = page_size args.limit in
      let token = args.continuation_token in
      elim (Bool-cases (args.app_id == "" && multi_app r)) [
        | inl e ↦ rw e (list_everywhere-world r w size token (quiet size token))
        | inr e ↦ rw e (list_one-world r w size token (quiet size token) args.app_id)
      ]
