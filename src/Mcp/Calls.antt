-- ===== src/Mcp/Calls.antt =====
-- Tools that make one call of their client, and report how it ended.
use dapr_mcp.Base.{String, Bool, true, false, Result, ok, err, ◌≡◌}
use dapr_mcp.Mcp.{ToolResult, Act}

abbrev pub is_err : {A : Type 0} → Result String A → Bool
is_err (ok a) = false
is_err (err e) = true

-- The tool's run is one run of `m`: the world afterwards is that of `m`, and the result is an
-- error exactly when `m` failed.
abbrev pub Makes : {W A : Type 0} → Act W A → W → ToolResult × W → Type 0
Makes m w r = (r.1 ≡ (m w).1) × (r.0.is_error ≡ is_err (m w).0)
