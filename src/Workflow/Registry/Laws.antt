-- ===== src/Workflow/Registry/Laws.antt =====
-- Which app-ids `clientFor` accepts, and how its answers agree with the targets of a fan-out.
use dapr_mcp.Base.{
  String, Bool, true, false, not, ◌&&◌, List, [], ◌∷◌, if◌then◌else◌, Dict, has_key, keys, mem,
  sort, mem-sort, sort-IsDistinct, IsDistinct, IsMap, Result, ok, err, ◌==◌, ◌≡◌, refl, arith,
  eq_iff, is_some-lookup,
}
use dapr_mcp.Workflow.Client.{WorkflowClient}
use dapr_mcp.Workflow.Registry.{
  Registry, Target, without, multi_app, app_ids, pool_targets, targets, client_for,
}

pub mem-without :
    (k id : String) (xs : List String) → mem k (without id xs) ≡ (not (k == id) && mem k xs)
unfolding without
mem-without k id [] = ground arith
mem-without k id (x ∷ xs) =
    ground (arith, mem-without k id xs, eq_iff x id, eq_iff k x, eq_iff k id)

pub without-IsDistinct :
    (id : String) (xs : List String) → IsDistinct xs → IsDistinct (without id xs)
unfolding without
without-IsDistinct id [] h = tt
without-IsDistinct id (x ∷ xs) h = ground (arith, mem-without x id xs, without-IsDistinct id xs h.1)

module _ {W : Type 0} where
  pub mem-app_ids :
      (r : Registry W) (id : String)
      → mem id (app_ids r) ≡ (if id == r.default_app_id then true else has_key id r.by_app_id)
  unfolding app_ids
  mem-app_ids r id = ground (
    arith,
    mem-sort id (r.default_app_id ∷ without r.default_app_id (keys r.by_app_id)),
    mem-without id r.default_app_id (keys r.by_app_id),
  )

  abbrev pub is_ok : Result String (Target W) → Bool
  is_ok (ok t) = true
  is_ok (err e) = false

  -- An app-id is accepted exactly when it is one of those that the error messages list; the empty
  -- one exactly when no additional apps are configured.
  pub is_ok-client_for :
      (r : Registry W) (id : String)
      → is_ok (client_for r id) ≡ (if id == "" then not (multi_app r) else mem id (app_ids r))
  unfolding client_for
  is_ok-client_for r id = ground (arith, mem-app_ids r id, is_some-lookup id r.by_app_id)

  abbrev pub target_ids : List (Target W) → List String
  target_ids [] = []
  target_ids (t ∷ ts) = t.app_id ∷ target_ids ts

  mem-pool_targets :
      (k : String) (ids : List String) (apps : Dict (WorkflowClient W))
      → mem k (target_ids (pool_targets ids apps)) ≡ (mem k ids && has_key k apps)
  unfolding pool_targets
  mem-pool_targets k [] apps = refl
  mem-pool_targets k (i ∷ ids) apps =
      ground (arith, mem-pool_targets k ids apps, eq_iff k i, is_some-lookup i apps)

  pool_targets-IsDistinct :
      (ids : List String) (apps : Dict (WorkflowClient W))
      → IsDistinct ids
      → IsDistinct (target_ids (pool_targets ids apps))
  unfolding pool_targets
  pool_targets-IsDistinct [] apps h = tt
  pool_targets-IsDistinct (i ∷ ids) apps h =
      ground (arith, mem-pool_targets i ids apps, pool_targets-IsDistinct ids apps h.1)

  -- A fan-out reaches every app-id that can be named, and no other.
  pub mem-targets :
      (r : Registry W) (id : String) → mem id (target_ids (targets r)) ≡ mem id (app_ids r)
  unfolding targets
  mem-targets r id = ground (
    arith,
    mem-app_ids r id,
    mem-pool_targets id (sort (keys r.by_app_id)) r.by_app_id,
    mem-sort id (keys r.by_app_id),
    eq_iff id r.default_app_id,
  )

  -- A fan-out lists no app twice.
  pub targets-IsDistinct :
      (r : Registry W) → IsMap r.by_app_id → IsDistinct (target_ids (targets r))
  unfolding targets
  targets-IsDistinct r h = ground (
    arith,
    mem-pool_targets r.default_app_id (sort (keys r.by_app_id)) r.by_app_id,
    mem-sort r.default_app_id (keys r.by_app_id),
    pool_targets-IsDistinct (sort (keys r.by_app_id)) r.by_app_id,
    sort-IsDistinct (keys r.by_app_id) h,
  )
