-- ===== src/Workflow/Listing/Workers/Pages.antt =====
-- One page: its size, and what becomes of each of its instances.
use dapr_mcp.Base.{
  ℕ, ◌+◌, ◌≤◌, String, List, [], ◌∷◌, ℤ, pos, negsuc, length, ◌≡◌, refl, ◌∙◌, false, arith, sym,
  subst, length-append, Result, ok, err, none, some, Option, suc, ◌++◌, trim_prefix,
}
use mathlib.Core.List.{append_assoc, append-nil}
use dapr_mcp.Workflow.Client.{Time, TimeFormat, InstancePage, Metadata}
use dapr_mcp.Workflow.Registry.{Target}
use dapr_mcp.Workflow.Instance.{status_name}
use dapr_mcp.Workflow.Listing.Workers.{
  page_size, max_list_limit, InstanceSummary, AppListing, add_instance, fetch_all, start_page,
  list_app, time_text, empty_listing, list_options,
}

-- Whatever the limit, a page has from 1 to 500 instances; a limit in that range is kept.
pub page_size_range : (limit : ℤ) → (1 ≤ page_size limit) × (page_size limit ≤ max_list_limit)
unfolding page_size
page_size_range (negsuc n) = omega arith
page_size_range (pos n) = ground arith

pub page_size_kept : (n : ℕ) → 1 ≤ n → n ≤ max_list_limit → page_size (pos n) ≡ n
unfolding page_size
page_size_kept n h k = ground arith

abbrev pub handled : AppListing → ℕ
handled l = length l.instances + l.skipped

-- The listing accounts for `n` instances more, and is otherwise as before.
abbrev Adds : ℕ → AppListing → AppListing → Type 0
Adds n l m =
    (handled m ≡ handled l + n)
    × (m.app_id ≡ l.app_id)
    × (m.continuation_token ≡ l.continuation_token)
    × (m.error ≡ l.error)

Adds-add_instance :
    (time : TimeFormat) (id : String) (r : Result String Metadata) (l : AppListing)
    → Adds 1 l (add_instance time id r l)
unfolding add_instance
Adds-add_instance time id (ok meta) l =
    (omega (arith, length-append {0} l.instances), refl, refl, refl)
Adds-add_instance time id (err e) l = (omega arith, refl, refl, refl)

-- The row of one instance, by its ID and metadata.
abbrev written_time : TimeFormat → Option Time → String
written_time time none = ""
written_time time (some t) = time.print t

pub record IsRow (time : TimeFormat) (app_id id : String) (meta : Metadata) (row : InstanceSummary)
    : Type 0 where
  pub app : row.app_id ≡ app_id
  pub instance_of : row.instance_id ≡ id
  pub workflow : row.workflow_name ≡ meta.name
  pub state : row.status ≡ trim_prefix meta.runtime_status "ORCHESTRATION_STATUS_"
  pub created : row.created_at ≡ written_time time meta.created_at

module _ {W : Type 0} (time : TimeFormat) (t : Target W) where
  -- The rows and the number of skipped instances that the metadata of the instance IDs give, fetched
  -- in their order: a row for each that can be fetched, and one skipped for each that cannot.
  pub data Fetches (app_id : String) : List String → List InstanceSummary → ℕ → W → W → Type 0 where
    finished : (w : W) → Fetches app_id [] [] 0 w w
    listed :
        (id : String) (ids : List String) (meta : Metadata) (row : InstanceSummary)
        (rows : List InstanceSummary) (skipped : ℕ) (w v u : W)
        → t.client.fetch_workflow_metadata id false w ≡ (ok meta, v)
        → IsRow time app_id id meta row
        → Fetches app_id ids rows skipped v u
        → Fetches app_id (id ∷ ids) (row ∷ rows) skipped w u
    unread :
        (id e : String) (ids : List String) (rows : List InstanceSummary) (skipped : ℕ) (w v u : W)
        → t.client.fetch_workflow_metadata id false w ≡ (err e, v)
        → Fetches app_id ids rows skipped v u
        → Fetches app_id (id ∷ ids) rows (suc skipped) w u

  -- What a run of `listApp` makes of the page that the sidecar answered with.
  abbrev pub Accounts : AppListing × W → Result String InstancePage × W → Type 0
  Accounts (l, v) (err e, w) = (l.error ≡ some e) × (l.instances ≡ []) × (v ≡ w)
  Accounts (l, v) (ok page, w) =
      (l.error ≡ none)
      × (l.continuation_token ≡ page.continuation_token)
      × (length l.instances + l.skipped ≡ length page.instance_ids)
      × Fetches t.app_id page.instance_ids l.instances l.skipped w v

  -- The rows and skipped instances that a run adds to a listing.
  abbrev AddsRows : List String → AppListing → W → AppListing × W → Type 0
  AddsRows ids l w (m, v) =
      (rows : List InstanceSummary) × (skipped : ℕ) × (m.instances ≡ l.instances ++ rows)
      × (m.skipped ≡ l.skipped + skipped)
      × Fetches l.app_id ids rows skipped w v

  time_text_written : (o : Option Time) → time_text time o ≡ written_time time o
  time_text_written none = refl
  time_text_written (some v) = refl

  AddsRows-fetched :
      (id : String) (ids : List String) (l : AppListing) (w : W) (x : Result String Metadata × W)
      → t.client.fetch_workflow_metadata id false w ≡ x
      → AddsRows ids
          (add_instance time id x.0 l)
          x.1
          (fetch_all time t ids (add_instance time id x.0 l) x.1)
      → AddsRows (id ∷ ids) l w (fetch_all time t ids (add_instance time id x.0 l) x.1)
  unfolding add_instance status_name
  AddsRows-fetched id ids l w (ok meta, v) e (rows, k, same, more, f) = (
    _ ∷ rows,
    k,
    same ∙ append_assoc l.instances (_ ∷ []) rows,
    more,
    listed id ids meta _ rows k w v _ e
        (record {
          app = refl;
          instance_of = refl;
          workflow = refl;
          state = refl;
          created = time_text_written meta.created_at;
        })
        f,
  )
  AddsRows-fetched id ids l w (err m, v) e (rows, k, same, more, f) =
      (rows, suc k, same, omega (arith, more), unread id m ids rows k w v _ e f)

  AddsRows-fetch_all :
      (ids : List String) (l : AppListing) (w : W) → AddsRows ids l w (fetch_all time t ids l w)
  unfolding fetch_all
  AddsRows-fetch_all [] l w = ([], 0, sym (append-nil l.instances), omega arith, finished w)
  AddsRows-fetch_all (id ∷ ids) l w =
      let x = t.client.fetch_workflow_metadata id false w in
      AddsRows-fetched id ids l w x refl (AddsRows-fetch_all ids (add_instance time id x.0 l) x.1)

  Adds-fetch_all :
      (ids : List String) (l : AppListing) (w : W)
      → Adds (length ids) l (fetch_all time t ids l w).0
  unfolding fetch_all
  Adds-fetch_all [] l w = (omega arith, refl, refl, refl)
  Adds-fetch_all (id ∷ ids) l w =
      let (meta, w') = t.client.fetch_workflow_metadata id false w in
      let one = Adds-add_instance time id meta l in
      let more = Adds-fetch_all ids (add_instance time id meta l) w' in
      (omega (arith, one.0, more.0), more.1 ∙ one.1, more.2 ∙ one.2, more.3 ∙ one.3)

  Accounts-start_page :
      (r : Result String InstancePage × W)
      → Accounts (start_page time t (empty_listing t.app_id) r) r
        × ((start_page time t (empty_listing t.app_id) r).0.app_id ≡ t.app_id)
  unfolding start_page
  Accounts-start_page (err e, w) = ((refl, refl, refl), refl)
  Accounts-start_page (ok page, w) =
      let start : AppListing = record (empty_listing t.app_id) {
        continuation_token = page.continuation_token;
      } in
      let more = Adds-fetch_all page.instance_ids start w in
      let (rows, k, same, skip, f) = AddsRows-fetch_all page.instance_ids start w in
      let m = fetch_all time t page.instance_ids start w in
      (
        (
          more.3,
          more.2,
          omega (arith, more.0),
          subst (λ xs. Fetches t.app_id page.instance_ids xs m.0.skipped w m.1) (sym same)
              (subst (λ n. Fetches t.app_id page.instance_ids rows n w m.1) (omega (arith, skip))
                f),
        ),
        more.1,
      )

  -- The listing of an app names the app. It carries the error of a page that could not be read. Of a
  -- page that was read it carries the continuation token, and it accounts for its instance IDs in
  -- their order: the metadata of each is fetched once, and those that can be read have a row with the
  -- ID, the name, the status and the creation time, all others are counted as skipped.
  pub list_app-Accounts :
      (size : ℕ) (token : String) (w : W)
      → Accounts
          (list_app time size token t w)
          (t.client.list_instance_ids (list_options size token) w)
        × ((list_app time size token t w).0.app_id ≡ t.app_id)
  unfolding list_app
  list_app-Accounts size token w =
      Accounts-start_page (t.client.list_instance_ids (list_options size token) w)
