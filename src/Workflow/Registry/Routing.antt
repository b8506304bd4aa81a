-- ===== src/Workflow/Registry/Routing.antt =====
-- `clientFor` and `targets` agree on which client serves an app-id.
use dapr_mcp.Base.{
  String, true, false, some, List, [], ◌∷◌, Dict, lookup, has_key, keys, ltb, length, mem, sort,
  mem-sort, ok, ◌≡◌, ◌≢◌, ◌↔◌, refl, sym, ◌∙◌, In, arith, eq_iff, is_some-lookup,
}
use dapr_mcp.Workflow.Client.{WorkflowClient}
use dapr_mcp.Workflow.Registry.{Registry, Target, multi_app, pool_targets, targets, client_for}

module _ {W : Type 0} where
  -- A target of the pool stands under one of the keys, with the client that the map holds for it.
  In-pool_targets :
      (t : Target W) (ids : List String) (apps : Dict (WorkflowClient W))
      → In t (pool_targets ids apps)
      → lookup t.app_id apps ≡ some t.client
  unfolding pool_targets
  In-pool_targets t [] apps h = elim h [ ]
  In-pool_targets t (i ∷ ids) apps h = ground (arith, In-pool_targets t ids apps)

  pool_targets_complete :
      (t : Target W) (ids : List String) (apps : Dict (WorkflowClient W))
      → mem t.app_id ids ≡ true
      → lookup t.app_id apps ≡ some t.client
      → In t (pool_targets ids apps)
  unfolding pool_targets
  pool_targets_complete t [] apps m h = cc
  pool_targets_complete t (i ∷ ids) apps m h =
      ground (arith, eq_iff t.app_id i, pool_targets_complete t ids apps)

  has_key_single :
      (r : Registry W) (k : String) → multi_app r ≡ false → has_key k r.by_app_id ≡ false
  unfolding multi_app
  has_key_single r k h = no_keys r.by_app_id h
    where
      no_keys : (m : Dict (WorkflowClient W)) → ltb 0 (length m) ≡ false → has_key k m ≡ false
      no_keys [] e = refl
      no_keys (x ∷ m) e = ground arith

  pub In-targets_of_client_for :
      (r : Registry W) (id : String) (t : Target W) → client_for r id ≡ ok t → In t (targets r)
  unfolding client_for targets
  In-targets_of_client_for r id t h = ground (
    arith,
    has_key_single r r.default_app_id,
    is_some-lookup id r.by_app_id,
    eq_iff id r.default_app_id,
    mem-sort id (keys r.by_app_id),
    pool_targets_complete t (sort (keys r.by_app_id)) r.by_app_id,
  )

  client_for_of_In-targets :
      (r : Registry W) (t : Target W)
      → t.app_id ≢ ""
      → In t (targets r)
      → client_for r t.app_id ≡ ok t
  unfolding client_for targets
  client_for_of_In-targets r t n h = ground (
    arith,
    eq_iff t.app_id "",
    eq_iff t.app_id r.default_app_id,
    is_some-lookup t.app_id r.by_app_id,
    In-pool_targets t (sort (keys r.by_app_id)) r.by_app_id,
  )

  app_id-client_for :
      (r : Registry W) (id : String) (t : Target W)
      → id ≢ ""
      → client_for r id ≡ ok t
      → t.app_id ≡ id
  unfolding client_for
  app_id-client_for r id t n h = ground (arith, eq_iff id "")

  -- A named app-id is served by exactly the target that a fan-out holds for it.
  pub client_for-iff_In-targets :
      (r : Registry W) (id : String) (t : Target W)
      → id ≢ ""
      → (client_for r id ≡ ok t) ↔ (In t (targets r) × (t.app_id ≡ id))
  client_for-iff_In-targets r id t n = (
    λ h. (In-targets_of_client_for r id t h, app_id-client_for r id t n h),
    λ h. rw (← h.1) (client_for_of_In-targets r t (λ e. n (sym h.1 ∙ e)) h.0),
  )
