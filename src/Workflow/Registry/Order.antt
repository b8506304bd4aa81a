-- ===== src/Workflow/Registry/Order.antt =====
-- The registry's answers do not depend on the order in which Go delivers the map's entries.
use mathlib.Core.List.{Permᴰ}
use mathlib.Core.List.Permᴰ
use dapr_mcp.Base.{
  String, List, [], ◌∷◌, Dict, lookup, keys, sort, IsMap, ◌==◌, ◌≡◌, refl, sym, ap, arith, ltb,
  sort-perm, sort-IsSorted, IsSorted, sort-IsDistinct, IsDistinct, mem, Bool-cases, inl, inr,
  eq_refl, length-perm, mem-perm, keys-perm, lookup-perm,
}
use dapr_mcp.Workflow.Client.{WorkflowClient}
use dapr_mcp.Workflow.Registry.{
  Registry, without, multi_app, app_ids, pool_targets, targets, client_for,
}
use dapr_mcp.Workflow.Registry.Laws.{
  mem-without, without-IsDistinct, mem-targets, targets-IsDistinct, target_ids,
}

without-perm :
    (id : String) {xs ys : List String} → Permᴰ xs ys → Permᴰ (without id xs) (without id ys)
unfolding without
without-perm id Permᴰ.nil = Permᴰ.nil
without-perm id (Permᴰ.cons {a} e p) = rw (← e) (elim (Bool-cases (a == id)) [
  | inl h ↦ rw h (without-perm id p)
  | inr h ↦ rw h (Permᴰ.cons refl (without-perm id p))
])
without-perm id (Permᴰ.swap {a} {b} {l = l} e f) =
    rw (← e, ← f)
      (elim (Bool-cases (a == id)) [
        | inl h ↦ rw h (Permᴰ.refl _)
        | inr h ↦ rw h (elim (Bool-cases (b == id)) [
          | inl k ↦ rw k (Permᴰ.refl _)
          | inr k ↦ rw k (Permᴰ.swap refl refl)
        ])
      ])
without-perm id (Permᴰ.trans p q) = Permᴰ.trans (without-perm id p) (without-perm id q)

module _ {W : Type 0} where
  pub app_ids-IsSorted-IsDistinct :
      (r : Registry W) → IsMap r.by_app_id → IsSorted (app_ids r) × IsDistinct (app_ids r)
  unfolding app_ids
  app_ids-IsSorted-IsDistinct r h = (
    sort-IsSorted _,
    sort-IsDistinct _ (
      ground (
        arith,
        eq_refl r.default_app_id,
        mem-without r.default_app_id r.default_app_id (keys r.by_app_id),
      ),
      without-IsDistinct r.default_app_id (keys r.by_app_id) h,
    ),
  )

  pool_targets_congr :
      (ids : List String) (m n : Dict (WorkflowClient W))
      → ((k : String) → lookup k m ≡ lookup k n)
      → pool_targets ids m ≡ pool_targets ids n
  unfolding pool_targets
  pool_targets_congr [] m n h = refl
  pool_targets_congr (i ∷ ids) m n h = ground (arith, h i, pool_targets_congr ids m n h)

  module _ (r : Registry W) (apps : Dict (WorkflowClient W)) (p : Permᴰ r.by_app_id apps)
      (h : IsMap r.by_app_id) where
    abbrev reordered : Registry W
    reordered = record r { by_app_id = apps }

    app_ids-perm : app_ids reordered ≡ app_ids r
    unfolding app_ids
    app_ids-perm = sym (sort-perm (Permᴰ.cons refl (without-perm r.default_app_id (keys-perm p))))

    multi_app-perm : multi_app reordered ≡ multi_app r
    unfolding multi_app
    multi_app-perm = ap (ltb 0) (sym (length-perm p))

    targets-perm : targets reordered ≡ targets r
    unfolding targets
    targets-perm = ground (
      arith,
      mem-perm r.default_app_id (keys-perm p),
      sort-perm (keys-perm p),
      pool_targets_congr (sort (keys r.by_app_id)) r.by_app_id apps (λ k. lookup-perm k p h),
    )

    client_for-perm : (id : String) → client_for reordered id ≡ client_for r id
    unfolding client_for
    client_for-perm id = ground (arith, app_ids-perm, multi_app-perm, lookup-perm id p h)

    -- Whatever the order of the map's entries: the same app-ids, the same targets in the same order,
    -- and the same answer, error texts included, for every app-id.
    pub registry-perm :
        (app_ids reordered ≡ app_ids r)
        × (targets reordered ≡ targets r)
        × ((id : String) → client_for reordered id ≡ client_for r id)
    registry-perm = (app_ids-perm, targets-perm, client_for-perm)

  -- A fan-out reaches every app-id that can be named and no other, and lists none twice; the app-ids
  -- of the error messages are ascending and distinct.
  pub targets-app_ids :
      (r : Registry W)
      → IsMap r.by_app_id
      → ((id : String) → mem id (target_ids (targets r)) ≡ mem id (app_ids r))
        × IsDistinct (target_ids (targets r))
        × IsSorted (app_ids r)
        × IsDistinct (app_ids r)
  targets-app_ids r h =
      let ids = app_ids-IsSorted-IsDistinct r h in
      (mem-targets r, targets-IsDistinct r h, ids.0, ids.1)
