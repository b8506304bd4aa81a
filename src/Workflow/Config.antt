-- ===== src/Workflow/Config.antt =====
-- pkg/workflow/config.go: the value of DAPR_MCP_SERVER_WORKFLOW_APPS.
pub mod Entries
pub mod Sound
use dapr_mcp.Base.{
  String, Bool, true, false, not, ◌||◌, List, [], ◌∷◌, if◌then◌else◌, Dict, has_key, insert, split,
  cut, trim_space, format, Result, ok, err, ◌==◌, ◌≡◌, refl,
}

abbrev pub apps_env_var : String
apps_env_var = "DAPR_MCP_SERVER_WORKFLOW_APPS"

abbrev pub invalid_entry : String → String
invalid_entry entry =
    format ("invalid " ∷ apps_env_var ∷ " entry '" ∷ entry ∷ "': expected app-id=host:port" ∷ [])

abbrev pub duplicate_app_id : String → String
duplicate_app_id id = format ("duplicate app-id '" ∷ id ∷ "' in " ∷ apps_env_var ∷ [])

-- The tests of one entry, already trimmed and not empty.
pub add_entry : String → Dict String → Result String (Dict String)
add_entry entry apps =
    let (before, after, found) = cut b'=' entry in
    let id = trim_space before in
    let addr = trim_space after in
    if not found || id == "" || addr == ""
    then err (invalid_entry entry)
    else if has_key id apps
    then err (duplicate_app_id id)
    else ok (insert id addr apps)

-- The loop over the entries.
pub parse_entries : List String → Dict String → Result String (Dict String)
parse_entries [] apps = ok apps
parse_entries (raw ∷ entries) apps =
    let entry = trim_space raw in
    let skipped = parse_entries entries apps in
    let added : Result String (Dict String) = elim (add_entry entry apps) [
      | err e ↦ err e
      | ok apps' ↦ parse_entries entries apps'
    ] in
    if entry == "" then skipped else added

-- `ParseAppsConfig`.
unfoldable pub parse_apps_config : String → Result String (Dict String)
unfolding parse_entries add_entry
parse_apps_config raw = parse_entries (split b',' raw) []

two_apps : parse_apps_config " a = h:1 ,, b=h=2 ," ≡ ok (("a", "h:1") ∷ ("b", "h=2") ∷ [])
unfolding parse_apps_config split cut trim_space
two_apps = refl

twice : parse_apps_config "a=1,a=2" ≡ err "duplicate app-id 'a' in DAPR_MCP_SERVER_WORKFLOW_APPS"
unfolding parse_apps_config split cut trim_space format
twice = refl

no_address :
    parse_apps_config "a=,"
    ≡ err "invalid DAPR_MCP_SERVER_WORKFLOW_APPS entry 'a=': expected app-id=host:port"
unfolding parse_apps_config split cut trim_space format
no_address = refl
