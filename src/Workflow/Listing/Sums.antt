-- ===== src/Workflow/Listing/Sums.antt =====
-- pkg/workflow/tools.go, `listWorkflowsTool`: the loop that puts the listings together.
pub mod Counts
pub mod Agreement
use dapr_mcp.Base.{
  ℕ, ◌+◌, String, Option, none, some, List, [], ◌∷◌, ◌++◌, if◌then◌else◌, ltb, length, Dict, lookup,
  insert, decimal, format, ◌==◌,
}
use dapr_mcp.Workflow.Listing.Workers.{InstanceSummary, AppListing}

-- The maps that the loop over the listings fills.
pub record Totals : Type 0 where
  pub instances : List InstanceSummary
  pub counts_by_workflow : Dict ℕ
  pub counts_by_status : Dict ℕ
  pub counts_by_app : Dict ℕ
  pub continuation_tokens : Dict String
  pub warnings : Dict String

abbrev pub no_totals : Totals
no_totals = record {
  instances = [];
  counts_by_workflow = [];
  counts_by_status = [];
  counts_by_app = [];
  continuation_tokens = [];
  warnings = [];
}

abbrev pub value_or_zero : Option ℕ → ℕ
value_or_zero none = 0
value_or_zero (some n) = n

-- `counts[key]++`.
pub count_one : String → Dict ℕ → Dict ℕ
count_one k m = insert k (value_or_zero (lookup k m) + 1) m

-- The inner loop, over the instances of one app.
pub add_instances : List InstanceSummary → Totals → Totals
add_instances [] s = s
add_instances (i ∷ is) s = add_instances is (record s {
  counts_by_workflow = count_one i.workflow_name s.counts_by_workflow;
  counts_by_status = count_one i.status s.counts_by_status;
  instances = s.instances ++ i ∷ [];
})

abbrev pub listing_failed : String → String
listing_failed e = format ("listing failed, instances of this app are missing: " ∷ e ∷ [])

abbrev pub metadata_missing : ℕ → String
metadata_missing n =
    format ("metadata of " ∷ decimal n ∷ " instance(s) could not be fetched; they are missing" ∷ [])

-- One round of the loop over the listings, for a listing without an error: first its warning, its
-- continuation token and its count, then its instances.
pub note_app : AppListing → Totals → Totals
note_app l s = record s {
  warnings =
      if ltb 0 l.skipped
      then insert l.app_id (metadata_missing l.skipped) s.warnings
      else s.warnings;
  continuation_tokens =
      if l.continuation_token == ""
      then s.continuation_tokens
      else insert l.app_id l.continuation_token s.continuation_tokens;
  counts_by_app = insert l.app_id (length l.instances) s.counts_by_app;
}

pub add_healthy : AppListing → Totals → Totals
add_healthy l s = add_instances l.instances (note_app l s)

pub add_listing : AppListing → Totals → Totals
add_listing l s = elim l.error [
  | some e ↦ record s { warnings = insert l.app_id (listing_failed e) s.warnings }
  | none ↦ add_healthy l s
]

pub add_listings : List AppListing → Totals → Totals
add_listings [] s = s
add_listings (l ∷ ls) s = add_listings ls (add_listing l s)
