-- ===== src/Examples/Lock.antt =====
-- The lock tools at a concrete input, over a store with one lock: its world is the holder.
use dapr_mcp.Base.{
  String, true, false, Option, none, some, [], ◌∷◌, ok, if◌then◌else◌, pos, ◌==◌, ◌≡◌, ◌≢◌, refl,
  arith, eq_iff, Result, Bool,
}
use dapr_mcp.Lock.{
  LockClient, LockRequest, UnlockRequest, AcquireLockArgs, ReleaseLockArgs, acquire_lock_tool,
}
use dapr_mcp.Lock.Reports.{acquired}
use dapr_mcp.Lock.Exclusion.{
  IsLockStore, acquire, release, NoneTakesEffect, NoneTakesEffect-acquired,
}

abbrev Holder : Type 0
Holder = Option String

abbrev take : LockRequest → Holder → Result String Bool × Holder
take r none = (ok true, some r.lock_owner)
take r (some owner) = (ok false, some owner)

abbrev give_back : UnlockRequest → Holder → Result String String × Holder
give_back r none = (ok "LOCK_UNEXIST", none)
give_back r (some owner) =
    if r.lock_owner == owner then (ok "SUCCESS", none) else (ok "LOCK_BELONG_TO_OTHERS", some owner)

abbrev one_lock : LockClient Holder
one_lock = record { try_lock_alpha1 = λ store r. take r; unlock_alpha1 = λ store r. give_back r }

abbrev holder : Holder → String → String → Option String
holder w store id = w

refused : (owner : String) (r : LockRequest) (w : Holder) → w ≡ some owner → (take r w).0 ≢ ok true
refused owner r none h = λ e. cc
refused owner r (some o) h = λ e. cc

granted : (r : LockRequest) (w : Holder) → (take r w).0 ≡ ok true → (take r w).1 ≡ some r.lock_owner
granted r none h = refl
granted r (some o) h = cc

kept : (owner : String) (r : LockRequest) (w : Holder) → w ≡ some owner → (take r w).1 ≡ some owner
kept owner r none h = cc
kept owner r (some o) h = h

not_released :
    (owner : String) (r : UnlockRequest) (w : Holder)
    → w ≡ some owner
    → r.lock_owner ≢ owner
    → (give_back r w).0 ≢ ok "SUCCESS"
not_released owner r none h other = λ e. cc
not_released owner r (some o) h other = λ e.
    ground (arith, eq_iff r.lock_owner o, eq_iff "LOCK_BELONG_TO_OTHERS" "SUCCESS", h, other, e)

still_held :
    (owner : String) (r : UnlockRequest) (w : Holder)
    → w ≡ some owner
    → r.lock_owner ≢ owner
    → (give_back r w).1 ≡ some owner
still_held owner r none h other = cc
still_held owner r (some o) h other = ground (arith, eq_iff r.lock_owner o, h, other)

one_lock-IsLockStore : IsLockStore one_lock holder
one_lock-IsLockStore = record {
  refused = λ store owner r w. refused owner r w;
  granted = λ store r w. granted r w;
  kept = λ store other id owner r w. kept owner r w;
  not_released = λ store owner r w. not_released owner r w;
  still_held = λ store other id owner r w. still_held owner r w;
}

abbrev mine : AcquireLockArgs
mine = record {
  store_name = "locks";
  resource_id = "file";
  lock_owner = "a";
  expiry_in_seconds = pos 60;
}

abbrev given_up : ReleaseLockArgs
given_up = record { store_name = "locks"; resource_id = "file"; lock_owner = "b" }

got : acquired (acquire_lock_tool one_lock mine none).0 ≡ true
unfolding acquire_lock_tool
got = refl

other_owner : ◌≢◌ {A = String} "b" "a"
other_owner e = ground (arith, eq_iff "b" "a", e)

NoneTakesEffect-acquired_example :
    NoneTakesEffect one_lock "locks" "file"
      (acquire (record mine { lock_owner = "b" }) ∷ release given_up ∷ acquire mine ∷ [])
      (acquire_lock_tool one_lock mine none).1
NoneTakesEffect-acquired_example =
    NoneTakesEffect-acquired one_lock holder one_lock-IsLockStore mine none
      (acquire (record mine { lock_owner = "b" }) ∷ release given_up ∷ acquire mine ∷ []) got
      (tt, (other_owner, (tt, tt)))
