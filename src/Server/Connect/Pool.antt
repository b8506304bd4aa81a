-- ===== src/Server/Connect/Pool.antt =====
-- What the pool of workflow clients holds after a successful start.
use dapr_mcp.Base.{
  String, true, ◌||◌, [], ◌∷◌, Dict, insert, has_key, IsMap, ok, ◌≡◌, ◌≢◌, sym, ap, subst, arith,
  eq_iff, has_key-insert, insert-IsMap, inl, inr, Result-cases, is_some-lookup,
}
use dapr_mcp.Mcp.{Act}
use dapr_mcp.Workflow.Client.{WorkflowClient}
use dapr_mcp.Workflow.Config.{parse_apps_config}
use dapr_mcp.Workflow.Registry.{new_registry, client_for}
use dapr_mcp.Workflow.Registry.Laws.{is_ok}
use dapr_mcp.Server.Connect.{connect_with_retry, connect_apps, initialize_workflow_apps}

-- Every key of the one or the other, and no key twice.
pub record IsUnion {ℓ} {A B : Type ℓ} (m : Dict A) (n p : Dict B) : Type ℓ where
  pub keys : (k : String) → has_key k p ≡ (has_key k m || has_key k n)
  pub is_map : IsMap p

module _ {W C : Type 0} (sleep : W → W) (dial : String → Act W C)
    (new_client : C → WorkflowClient W) where
  connect_apps-IsUnion :
      (apps : Dict String) (pool p : Dict (WorkflowClient W)) (w w' : W)
      → IsMap pool
      → connect_apps sleep dial new_client apps pool w ≡ (ok p, w')
      → IsUnion apps pool p
  unfolding connect_apps
  connect_apps-IsUnion [] pool p w w' h e =
      let same : pool ≡ p = ground arith in
      record { keys = λ k. ap (has_key k) (sym same); is_map = subst IsMap same h }
  connect_apps-IsUnion ((id, addr) ∷ apps) pool p w w' h e =
      elim (Result-cases (connect_with_retry sleep (dial addr) w).0) [
        | inl (c, k) ↦
            let more =
              connect_apps-IsUnion apps (insert id (new_client c) pool) p
                (connect_with_retry sleep (dial addr) w).1 w'
                (insert-IsMap id (new_client c) pool h) (ground (arith, k)) in
            record {
              keys = λ j.
                  ground (arith, more.keys j, has_key-insert id j (new_client c) pool, eq_iff j id);
              is_map = more.is_map;
            }
        | inr (x, k) ↦ absurd (ground (arith, k))
      ]

  -- After a successful start, whatever the order in which the apps were reached: the pool has one
  -- client for each configured app-id and no other, and a call that names a configured app-id is
  -- accepted by the registry that is made of the pool.
  pub initialize_workflow_apps_accepts :
      (order : Dict String → Dict String) (raw : String) (apps : Dict String)
      (client : WorkflowClient W) (id : String) (pool : Dict (WorkflowClient W)) (w w' : W)
      → ((k : String) → has_key k (order apps) ≡ has_key k apps)
      → parse_apps_config raw ≡ ok apps
      → initialize_workflow_apps sleep dial new_client order raw w ≡ (ok pool, w')
      → IsMap pool
        × ((k : String) → has_key k pool ≡ has_key k apps)
        × ((k : String)
            → has_key k apps ≡ true
            → k ≢ ""
            → is_ok (client_for (new_registry client id pool) k) ≡ true)
  unfolding initialize_workflow_apps client_for new_registry
  initialize_workflow_apps_accepts order raw apps client id pool w w' same parsed e =
      let all = connect_apps-IsUnion (order apps) [] pool w w' tt (ground (arith, parsed)) in
      let keys : (k : String) → has_key k pool ≡ has_key k apps =
        λ k. ground (arith, all.keys k, same k) in
      (all.is_map, keys, λ k h n. ground (arith, keys k, is_some-lookup k pool, eq_iff k ""))
