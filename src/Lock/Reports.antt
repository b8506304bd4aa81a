-- ===== src/Lock/Reports.antt =====
-- What the lock tools report of the answers of the client.
use dapr_mcp.Base.{
  String, Bool, false, ◌&&◌, Option, none, some, lookup, Result, ok, err, ◌==◌, ◌≡◌, refl, arith,
  eq_iff, Bool-cases, inl, inr,
}
use dapr_mcp.Mcp.{ToolResult, Value, Structured, object, scalar, flag, text}
use dapr_mcp.Lock.{
  LockClient, LockRequest, UnlockRequest, AcquireLockArgs, ReleaseLockArgs, acquire_lock_tool,
  release_lock_tool,
}

-- What the tools report: the flag of the one, and the status of the other.
abbrev pub is_flagged : Option Value → Bool
is_flagged (some (scalar (flag b))) = b
is_flagged (some v) = false
is_flagged none = false

abbrev pub is_success : Option Value → Bool
is_success (some (scalar (text s))) = s == "SUCCESS"
is_success (some v) = false
is_success none = false

abbrev pub entry : String → Option Structured → Option Value
entry key (some (object m)) = lookup key m
entry key (some s) = none
entry key none = none

abbrev pub acquired : ToolResult → Bool
acquired r = is_flagged (entry "lock_acquired" r.structured)

abbrev pub released : ToolResult → Bool
released r = is_success (entry "release_status_code" r.structured)

abbrev pub is_granted : Result String Bool → Bool
is_granted (ok b) = b
is_granted (err e) = false

abbrev pub has_status : Result String String → Bool
has_status (ok s) = s == "SUCCESS"
has_status (err e) = false

abbrev pub lock_request : AcquireLockArgs → LockRequest
lock_request args = record {
  lock_owner = args.lock_owner;
  resource_id = args.resource_id;
  expiry_in_seconds = args.expiry_in_seconds;
}

abbrev pub unlock_request : ReleaseLockArgs → UnlockRequest
unlock_request args = record { lock_owner = args.lock_owner; resource_id = args.resource_id }

pub unless_same :
    (s store r id : String) (b : Bool)
    → (s ≡ store → r ≡ id → b ≡ false)
    → (s == store && r == id && b) ≡ false
unless_same s store r id b h = elim (Bool-cases (s == store)) [
  | inr e ↦ rw e refl
  | inl e ↦ elim (Bool-cases (r == id)) [
    | inr f ↦ rw (e, f) refl
    | inl f ↦ rw (e, f) (h ((eq_iff s store).0 e) ((eq_iff r id).0 f))
  ]
]

module _ {W : Type 0} (client : LockClient W) where
  pub acquired-acquire_lock_tool :
      (args : AcquireLockArgs) (w : W)
      → acquired (acquire_lock_tool client args w).0
        ≡ is_granted (client.try_lock_alpha1 args.store_name (lock_request args) w).0
  unfolding acquire_lock_tool
  acquired-acquire_lock_tool args w = ground arith

  pub released-release_lock_tool :
      (args : ReleaseLockArgs) (w : W)
      → released (release_lock_tool client args w).0
        ≡ has_status (client.unlock_alpha1 args.store_name (unlock_request args) w).0
  unfolding release_lock_tool
  released-release_lock_tool args w = ground arith

  pub acquire_lock_tool-world :
      (args : AcquireLockArgs) (w : W)
      → (acquire_lock_tool client args w).1
        ≡ (client.try_lock_alpha1 args.store_name (lock_request args) w).1
  unfolding acquire_lock_tool
  acquire_lock_tool-world args w = ground arith

  pub release_lock_tool-world :
      (args : ReleaseLockArgs) (w : W)
      → (release_lock_tool client args w).1
        ≡ (client.unlock_alpha1 args.store_name (unlock_request args) w).1
  unfolding release_lock_tool
  release_lock_tool-world args w = ground arith
