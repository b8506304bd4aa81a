-- ===== src/Mcp/Outcomes.antt =====
-- What a chain of calls guarantees of its value, if it has one.
use dapr_mcp.Base.{String, Result, ok, err}
use dapr_mcp.Mcp.{Act, wrap_error, call, continue, ◌>>=◌}

abbrev pub IfOk : {W A : Type 0} → (A → Type 0) → Result String A × W → Type 0
IfOk P (ok a, w) = P a
IfOk P (err e, w) = Unit

module _ {W A : Type 0} (P : A → Type 0) where
  IfOk-wrap_error :
      (message : String → String) (r : Result String A × W)
      → IfOk P r
      → IfOk P (wrap_error message r)
  IfOk-wrap_error message (ok a, w) h = h
  IfOk-wrap_error message (err e, w) h = tt

  pub IfOk-call :
      (m : Act W A) (message : String → String) (w : W) → IfOk P (m w) → IfOk P (call m message w)
  IfOk-call m message w h = IfOk-wrap_error message (m w) h

  pub IfOk-all : ((a : A) → P a) → (r : Result String A × W) → IfOk P r
  IfOk-all h (ok a, w) = h a
  IfOk-all h (err e, w) = tt

module _ {W A B : Type 0} (P : A → Type 0) (Q : B → Type 0) (f : A → Act W B) where
  IfOk-continue :
      (r : Result String A × W)
      → IfOk P r
      → ((a : A) (w : W) → P a → IfOk Q (f a w))
      → IfOk Q (continue f r)
  IfOk-continue (ok a, w) h next = next a w h
  IfOk-continue (err e, w) h next = tt

  pub IfOk-bind :
      (m : Act W A) (w : W)
      → IfOk P (m w)
      → ((a : A) (v : W) → P a → IfOk Q (f a v))
      → IfOk Q ((m >>= f) w)
  IfOk-bind m w h next = IfOk-continue (m w) h next
