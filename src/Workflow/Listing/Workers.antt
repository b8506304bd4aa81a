-- ===== src/Workflow/Listing/Workers.antt =====
-- pkg/workflow/tools.go, `listApp`: one page of the instances of one app.
pub mod Pages
pub mod Interleave
use dapr_mcp.Base.{
  ℕ, ◌+◌, String, false, Option, none, some, List, [], ◌∷◌, ◌++◌, if◌then◌else◌, ltb, ℤ, pos,
  negsuc, Result, ok, err, ◌==◌,
}
use dapr_mcp.Workflow.Client.{
  Time, TimeFormat, ListOption, with_page_size, with_continuation_token, Metadata, InstancePage,
}
use dapr_mcp.Workflow.Registry.{Target}
use dapr_mcp.Workflow.Instance.{status_name}

abbrev pub default_list_limit : ℕ
default_list_limit = 100

abbrev pub max_list_limit : ℕ
max_list_limit = 500

-- `instanceSummary`.
pub record InstanceSummary : Type 0 where
  pub app_id : String
  pub instance_id : String
  pub workflow_name : String
  pub status : String
  pub created_at : String

-- `appListing`.
pub record AppListing : Type 0 where
  pub app_id : String
  pub instances : List InstanceSummary
  pub continuation_token : String
  pub skipped : ℕ
  pub error : Option String

-- The `switch` on the limit.
unfoldable pub page_size : ℤ → ℕ
page_size (negsuc n) = default_list_limit
page_size (pos n) =
    if ltb max_list_limit n then max_list_limit else if ltb 0 n then n else default_list_limit

abbrev pub time_text : TimeFormat → Option Time → String
time_text time none = ""
time_text time (some t) = time.print t

-- What one metadata fetch adds to the listing: a summary, or one more skipped instance.
pub add_instance : TimeFormat → String → Result String Metadata → AppListing → AppListing
add_instance time id (err e) l = record l { skipped = l.skipped + 1 }
add_instance time id (ok meta) l = record l {
  instances =
      l.instances
      ++ record {
        app_id = l.app_id;
        instance_id = id;
        workflow_name = meta.name;
        status = status_name meta.runtime_status;
        created_at = time_text time meta.created_at;
      }
        ∷ [];
}

abbrev pub empty_listing : String → AppListing
empty_listing id = record {
  app_id = id;
  instances = [];
  continuation_token = "";
  skipped = 0;
  error = none;
}

abbrev pub list_options : ℕ → String → List ListOption
list_options size token =
    with_page_size size ∷ (if token == "" then [] else with_continuation_token token ∷ [])

module _ {W : Type 0} (time : TimeFormat) where
  -- The loop of `listApp` over the instance IDs of the page.
  pub fetch_all : Target W → List String → AppListing → W → AppListing × W
  fetch_all t [] l w = (l, w)
  fetch_all t (id ∷ ids) l w =
      let (meta, w') = t.client.fetch_workflow_metadata id false w in
      fetch_all t ids (add_instance time id meta l) w'

  start_page : Target W → AppListing → Result String InstancePage × W → AppListing × W
  start_page t l (err e, w) = (record l { error = some e }, w)
  start_page t l (ok page, w) =
      fetch_all t page.instance_ids (record l { continuation_token = page.continuation_token }) w

  -- `listApp`.
  unfoldable pub list_app : ℕ → String → Target W → W → AppListing × W
  unfolding start_page
  list_app size token t w =
      start_page t (empty_listing t.app_id) (t.client.list_instance_ids (list_options size token) w)

  -- The workers of all targets, one after the other: one of the orders in which they may run.
  unfoldable pub list_apps : ℕ → String → List (Target W) → W → List AppListing × W
  list_apps size token [] w = ([], w)
  list_apps size token (t ∷ ts) w =
      let (l, w') = list_app size token t w in
      let (ls, w'') = list_apps size token ts w' in (l ∷ ls, w'')
