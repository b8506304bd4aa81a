-- ===== src/Lock/Exclusion.antt =====
-- That one owner at a time holds a lock, as far as the tools report it.
use dapr_mcp.Base.{
  String, Bool, true, false, ◌&&◌, Option, some, List, [], ◌∷◌, All, Result, ok, err, ◌==◌, ◌≡◌,
  ◌≢◌, refl, sym, ap, ◌∙◌, eq_iff, Bool-cases, inl, inr,
}
use dapr_mcp.Mcp.{ToolResult}
use dapr_mcp.Lock.{
  LockClient, LockRequest, UnlockRequest, AcquireLockArgs, ReleaseLockArgs, acquire_lock_tool,
  release_lock_tool,
}
use dapr_mcp.Lock.Reports.{
  acquired, released, is_granted, has_status, lock_request, unlock_request, unless_same,
  acquired-acquire_lock_tool, released-release_lock_tool, acquire_lock_tool-world,
  release_lock_tool-world,
}

-- What Dapr documents of a lock store, for a view of its holders, while no lock expires: a held lock
-- is not granted, one that is granted is held by the owner that asked, and a holder loses it only by
-- its own release; others are told that they did not release it.
pub record IsLockStore {W : Type 0} (client : LockClient W)
    (holder : W → String → String → Option String) : Type 0 where
  pub refused :
      (store owner : String) (r : LockRequest) (w : W)
      → holder w store r.resource_id ≡ some owner
      → (client.try_lock_alpha1 store r w).0 ≢ ok true
  pub granted :
      (store : String) (r : LockRequest) (w : W)
      → (client.try_lock_alpha1 store r w).0 ≡ ok true
      → holder (client.try_lock_alpha1 store r w).1 store r.resource_id ≡ some r.lock_owner
  pub kept :
      (store other id owner : String) (r : LockRequest) (w : W)
      → holder w other id ≡ some owner
      → holder (client.try_lock_alpha1 store r w).1 other id ≡ some owner
  pub not_released :
      (store owner : String) (r : UnlockRequest) (w : W)
      → holder w store r.resource_id ≡ some owner
      → r.lock_owner ≢ owner
      → (client.unlock_alpha1 store r w).0 ≢ ok "SUCCESS"
  pub still_held :
      (store other id owner : String) (r : UnlockRequest) (w : W)
      → holder w other id ≡ some owner
      → r.lock_owner ≢ owner
      → holder (client.unlock_alpha1 store r w).1 other id ≡ some owner

pub data LockCall : Type 0 where
  acquire : AcquireLockArgs → LockCall
  release : ReleaseLockArgs → LockCall

module _ {W : Type 0} (client : LockClient W) where
  abbrev pub run_call : LockCall → W → ToolResult × W
  run_call (acquire args) w = acquire_lock_tool client args w
  run_call (release args) w = release_lock_tool client args w

  -- A call on the lock that reports that it was acquired or released.
  abbrev pub takes_effect : String → String → LockCall → ToolResult → Bool
  takes_effect store id (acquire args) r =
      args.store_name == store && args.resource_id == id && acquired r
  takes_effect store id (release args) r =
      args.store_name == store && args.resource_id == id && released r

  abbrev pub NoneTakesEffect : String → String → List LockCall → W → Type 0
  NoneTakesEffect store id [] w = Unit
  NoneTakesEffect store id (c ∷ cs) w =
      (takes_effect store id c (run_call c w).0 ≡ false)
      × NoneTakesEffect store id cs (run_call c w).1

  -- Anyone may try to acquire, but only others than the owner release.
  abbrev pub IsNoReleaseBy : String → LockCall → Type 0
  IsNoReleaseBy owner (acquire args) = Unit
  IsNoReleaseBy owner (release args) = args.lock_owner ≢ owner

  module _ (holder : W → String → String → Option String) (laws : IsLockStore client holder)
      (store id owner : String) where
    not_granted : (o : Result String Bool) → o ≢ ok true → is_granted o ≡ false
    not_granted (ok true) h = absurd (h refl)
    not_granted (ok false) h = refl
    not_granted (err e) h = refl

    no_success : (o : Result String String) → o ≢ ok "SUCCESS" → has_status o ≡ false
    no_success (ok s) h = elim (Bool-cases (s == "SUCCESS")) [
      | inl e ↦ absurd (h (ap ok ((eq_iff s "SUCCESS").0 e)))
      | inr e ↦ e
    ]
    no_success (err e) h = refl

    at_lock :
        (store' id' : String) (w : W)
        → store' ≡ store
        → id' ≡ id
        → holder w store id ≡ some owner
        → holder w store' id' ≡ some owner
    at_lock store' id' w e f h = ap (λ s. holder w s id') e ∙ (ap (holder w store) f ∙ h)

    held_call :
        (c : LockCall) (w : W)
        → IsNoReleaseBy owner c
        → holder w store id ≡ some owner
        → (takes_effect store id c (run_call c w).0 ≡ false)
          × (holder (run_call c w).1 store id ≡ some owner)
    held_call (acquire args) w u h = (
      unless_same args.store_name store args.resource_id id
          (acquired (acquire_lock_tool client args w).0)
          (λ e f.
            acquired-acquire_lock_tool client args w
            ∙ not_granted (client.try_lock_alpha1 args.store_name (lock_request args) w).0 (
                laws.refused args.store_name owner (lock_request args) w
                  (at_lock args.store_name args.resource_id w e f h))),
      ap (λ v. holder v store id) (acquire_lock_tool-world client args w)
          ∙ laws.kept args.store_name store id owner (lock_request args) w h,
    )
    held_call (release args) w other h = (
      unless_same args.store_name store args.resource_id id
          (released (release_lock_tool client args w).0)
          (λ e f.
            released-release_lock_tool client args w
            ∙ no_success (client.unlock_alpha1 args.store_name (unlock_request args) w).0 (
                laws.not_released args.store_name owner (unlock_request args) w
                  (at_lock args.store_name args.resource_id w e f h) other)),
      ap (λ v. holder v store id) (release_lock_tool-world client args w)
          ∙ laws.still_held args.store_name store id owner (unlock_request args) w h other,
    )

    held_calls :
        (cs : List LockCall) (w : W)
        → All (IsNoReleaseBy owner) cs
        → holder w store id ≡ some owner
        → NoneTakesEffect store id cs w
    held_calls [] w others h = tt
    held_calls (c ∷ cs) w others h =
        let (silent, h') = held_call c w others.0 h in
        (silent, held_calls cs (run_call c w).1 others.1 h')

  module _ (holder : W → String → String → Option String) (laws : IsLockStore client holder) where
    was_granted : (o : Result String Bool) → is_granted o ≡ true → o ≡ ok true
    was_granted (ok true) h = refl
    was_granted (ok false) h = cc
    was_granted (err e) h = cc

    -- Once `acquire_lock` has reported to an owner that it acquired a lock, then whatever calls of
    -- the two lock tools follow, in whatever order and for whatever locks, as long as the owner does
    -- not release and no lock expires: none of them reports that this lock was acquired, to the
    -- owner or to another, and none reports that it was released.
    pub NoneTakesEffect-acquired :
        (args : AcquireLockArgs) (w : W) (calls : List LockCall)
        → acquired (acquire_lock_tool client args w).0 ≡ true
        → All (IsNoReleaseBy args.lock_owner) calls
        → NoneTakesEffect args.store_name args.resource_id calls (acquire_lock_tool client args w).1
    NoneTakesEffect-acquired args w calls got others =
        let m = client.try_lock_alpha1 args.store_name (lock_request args) w in
        held_calls holder laws args.store_name args.resource_id args.lock_owner calls
          (acquire_lock_tool client args w).1 others
          (ap (λ v. holder v args.store_name args.resource_id)
              (acquire_lock_tool-world client args w)
            ∙ laws.granted args.store_name (lock_request args) w
                (was_granted m.0 (sym (acquired-acquire_lock_tool client args w) ∙ got)))
