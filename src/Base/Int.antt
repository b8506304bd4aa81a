-- ===== src/Base/Int.antt =====
-- Go's signed integers. `negsuc n` is -(n + 1).
use Prim.Native.Nat.{ℕ, suc}
use Prim.Native.String.{String}
use mathlib.Core.List.{[], ◌∷◌}
use dapr_mcp.Base.Text.{decimal, format}

pub data ℤ : Type 0 where
  pos : ℕ → ℤ
  negsuc : ℕ → ℤ

-- `%d`.
unfoldable pub show : ℤ → String
unfolding decimal format
show (pos n) = decimal n
show (negsuc n) = format ("-" ∷ decimal (suc n) ∷ [])
