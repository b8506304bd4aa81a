-- ===== src/Workflow/Listing/Report.antt =====
-- pkg/workflow/tools.go, `listWorkflowsTool`: the text and the structured result.
use mathlib.Core.Option
use dapr_mcp.Base.{
  ℕ, String, Option, none, some, List, [], ◌∷◌, ◌++◌, map, if◌then◌else◌, ltb, length, Dict, lookup,
  keys, sort, pos, decimal, format,
}
use dapr_mcp.Mcp.{
  Scalar, text, number, ToolResult, Value, table, rows, tool_error, tool_success, text_value,
  number_value, entry_if, unless_empty,
}
use dapr_mcp.Workflow.Listing.Workers.{InstanceSummary, AppListing}
use dapr_mcp.Workflow.Listing.Sums.{Totals, no_totals, value_or_zero, add_listings}

-- `writeCounts`.
write_keys : List String → Dict ℕ → List String
write_keys [] counts = []
write_keys (k ∷ ks) counts =
    " " ∷ k ∷ "=" ∷ decimal (value_or_zero (lookup k counts)) ∷ write_keys ks counts

unfoldable pub write_counts : String → Dict ℕ → String
unfolding write_keys
write_counts label counts = format ("\n" ∷ label ∷ ":" ∷ write_keys (sort (keys counts)) counts)

write_instances : List InstanceSummary → List String
write_instances [] = []
write_instances (i ∷ is) =
    "\n- "
    ∷ i.instance_id
    ∷ " (app: "
    ∷ i.app_id
    ∷ ", workflow: "
    ∷ i.workflow_name
    ∷ ", status: "
    ∷ i.status
    ∷ ")"
    ∷ write_instances is

abbrev write_warning : String → Option String → List String
write_warning app none = []
write_warning app (some warning) = "\nWARNING (app '" ∷ app ∷ "'): " ∷ warning ∷ []

abbrev write_token : String → Option String → List String
write_token app none = []
write_token app (some token) =
    "\nMore instances are available on app '" ∷ app ∷ "': call list_workflows again with appID '"
    ∷ app ∷ "' and continuationToken '" ∷ token ∷ "'." ∷ []

write_notes : List AppListing → Totals → List String
write_notes [] s = []
write_notes (l ∷ ls) s =
    write_warning l.app_id (lookup l.app_id s.warnings)
    ++ (write_token l.app_id (lookup l.app_id s.continuation_tokens) ++ write_notes ls s)

abbrev summary_row : InstanceSummary → Dict Scalar
summary_row i =
    ("app_id", text i.app_id)
    ∷ ("instance_id", text i.instance_id)
    ∷ ("workflow_name", text i.workflow_name)
    ∷ ("status", text i.status)
    ∷ entry_if "created_at" (Option.map text (unless_empty i.created_at))

module _ {ℓ} {V : Type ℓ} (make : V → Scalar) where
  abbrev scalars : Dict V → Dict Scalar
  scalars [] = []
  scalars ((k, v) ∷ m) = (k, make v) ∷ scalars m

abbrev count_table : Dict ℕ → Value
count_table m = table (scalars (λ n. number (pos n)) m)

abbrev common_entries : Totals → Dict Value
common_entries s =
    ("instances", rows (map summary_row s.instances))
    ∷ ("count", number_value (pos (length s.instances)))
    ∷ ("counts_by_workflow", count_table s.counts_by_workflow)
    ∷ ("counts_by_status", count_table s.counts_by_status)
    ∷ []

abbrev warning_entries : Totals → Dict Value
warning_entries s =
    if ltb 0 (length s.warnings) then ("warnings", table (scalars text s.warnings)) ∷ [] else []

abbrev instance_counts : Totals → List String
instance_counts s =
    if ltb 0 (length s.instances)
    then write_counts "Counts by workflow" s.counts_by_workflow
      ∷ write_counts "Counts by status" s.counts_by_status
      ∷ []
    else []

-- The result of a fan-out over all apps.
pub all_apps_result : List AppListing → ToolResult
all_apps_result ls =
    let s = add_listings ls no_totals in
    tool_success
      (format (
        "Found "
          ∷ decimal (length s.instances)
          ∷ " workflow instance(s) across "
          ∷ decimal (length ls)
          ∷ " app(s)."
          ∷ instance_counts s
        ++ (write_counts "Counts by app" s.counts_by_app ∷ write_instances s.instances
            ++ write_notes ls s)))
      (common_entries s
        ++ (("counts_by_app", count_table s.counts_by_app)
            ∷ ("continuation_tokens", table (scalars text s.continuation_tokens))
            ∷ warning_entries s))

-- The result for one app; its failure is the tool's.
pub one_app_result : AppListing → ToolResult
one_app_result l = elim l.error [
  | some e ↦
      tool_error (format ("failed to list workflow instances on app '" ∷ l.app_id ∷ "': " ∷ e ∷ []))
  | none ↦
      let s = add_listings (l ∷ []) no_totals in
      tool_success
        (format (
          "Found "
            ∷ decimal (length s.instances)
            ∷ " workflow instance(s) on app '"
            ∷ l.app_id
            ∷ "'."
            ∷ instance_counts s
          ++ (write_instances s.instances ++ write_notes (l ∷ []) s)))
        (common_entries s
          ++ (("app_id", text_value l.app_id)
                ∷ entry_if "continuation_token"
                    (Option.map text_value (unless_empty l.continuation_token))
              ++ warning_entries s))
]
