-- ===== src/Telemetry/Logs.antt =====
-- The log levels of the two loggers: that of `main` in cmd/dapr-mcp-server/main.go, which becomes the
-- default, and that of initLogger in pkg/telemetry/telemetry.go.
use dapr_mcp.Base.{
  ℕ, String, ◌||◌, if◌then◌else◌, to_upper, ◌==◌, ◌≡◌, refl, arith, eq_iff, Bool-cases, inl, inr,
}

pub data Level : Type 0 where
  level_debug : Level
  level_info : Level
  level_warn : Level
  level_error : Level

-- The `switch` of `main` over `DAPR_MCP_SERVER_LOG_LEVEL`.
unfoldable pub main_level : (ℕ → String) → String → Level
main_level upper setting =
    let name = to_upper upper setting in
    if name == "DEBUG"
    then level_debug
    else if name == "WARN"
    then level_warn
    else if name == "ERROR"
    then level_error
    else level_info

-- `initLogger`, its level.
unfoldable pub logger_level : (ℕ → String) → String → Level
logger_level upper setting =
    let name = to_upper upper setting in
    if name == "DEBUG"
    then level_debug
    else if name == "WARN" || name == "WARNING"
    then level_warn
    else if name == "ERROR"
    then level_error
    else level_info

-- The two loggers have one level, but for the setting WARNING in letters of either case, at which
-- telemetry warns and `main` informs.
pub levels_agree :
    (upper : ℕ → String) (setting : String)
    → main_level upper setting
      ≡ (if to_upper upper setting == "WARNING" then level_info else logger_level upper setting)
unfolding main_level logger_level
levels_agree upper setting = elim (Bool-cases (to_upper upper setting == "WARNING")) [
  | inl e ↦ rw ((eq_iff (to_upper upper setting) "WARNING").0 e) refl
  | inr e ↦ rw e (ground (arith, e))
]
