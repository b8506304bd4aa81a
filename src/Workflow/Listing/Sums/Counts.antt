-- ===== src/Workflow/Listing/Sums/Counts.antt =====
-- The counts of `list_workflows` add up, and its maps say of each app what its listing says.
use dapr_mcp.Base.{
  ℕ, ◌+◌, String, true, false, none, some, List, [], ◌∷◌, ◌++◌, length, Dict, insert, has_key, mem,
  IsDistinct, ◌≡◌, refl, sym, ap, ◌∙◌, arith, eq_iff, eq_refl, length-append, has_key-insert, inl,
  inr, Option-cases,
}
use mathlib.Core.List
use dapr_mcp.Workflow.Listing.Workers.{InstanceSummary, AppListing}
use dapr_mcp.Workflow.Listing.Sums.{
  Totals, no_totals, count_one, add_instances, add_healthy, add_listing, add_listings, note_app,
}

-- The sum of a map's counts.
abbrev pub total : Dict ℕ → ℕ
total [] = 0
total ((k, n) ∷ m) = n + total m

total-count_one : (k : String) (m : Dict ℕ) → total (count_one k m) ≡ total m + 1
unfolding count_one
total-count_one k [] = omega arith
total-count_one k ((j, n) ∷ m) = ground (arith, total-count_one k m)

total-insert :
    (k : String) (n : ℕ) (m : Dict ℕ) → has_key k m ≡ false → total (insert k n m) ≡ total m + n
total-insert k n [] h = omega arith
total-insert k n ((j, i) ∷ m) h = ground (arith, total-insert k n m)

instances-add_instances :
    (is : List InstanceSummary) (s : Totals) → (add_instances is s).instances ≡ s.instances ++ is
unfolding add_instances
instances-add_instances [] s = sym (List.append-nil s.instances)
instances-add_instances (i ∷ is) s =
    instances-add_instances is _ ∙ List.append_assoc s.instances (i ∷ []) is

counts-add_instances :
    (is : List InstanceSummary) (s : Totals)
    → (total (add_instances is s).counts_by_workflow ≡ total s.counts_by_workflow + length is)
      × (total (add_instances is s).counts_by_status ≡ total s.counts_by_status + length is)
unfolding add_instances
counts-add_instances [] s = omega arith
counts-add_instances (i ∷ is) s = omega (
  arith,
  counts-add_instances is _,
  total-count_one i.workflow_name s.counts_by_workflow,
  total-count_one i.status s.counts_by_status,
)

pub maps-add_instances :
    (is : List InstanceSummary) (s : Totals)
    → ((add_instances is s).counts_by_app ≡ s.counts_by_app)
      × ((add_instances is s).continuation_tokens ≡ s.continuation_tokens)
      × ((add_instances is s).warnings ≡ s.warnings)
unfolding add_instances
maps-add_instances [] s = (refl, refl, refl)
maps-add_instances (i ∷ is) s = maps-add_instances is _

-- The three kinds of counts add up to the number of instances.
pub record IsBalanced (s : Totals) : Type 0 where
  pub by_workflow : total s.counts_by_workflow ≡ length s.instances
  pub by_status : total s.counts_by_status ≡ length s.instances
  pub by_app : total s.counts_by_app ≡ length s.instances

abbrev pub listing_ids : List AppListing → List String
listing_ids [] = []
listing_ids (l ∷ ls) = l.app_id ∷ listing_ids ls

-- The instances of the listings without an error, in order.
abbrev pub healthy_instances : List AppListing → List InstanceSummary
healthy_instances [] = []
healthy_instances (l ∷ ls) = elim l.error [
  | some e ↦ healthy_instances ls
  | none ↦ l.instances ++ healthy_instances ls
]

add_healthy-IsBalanced :
    (l : AppListing) (s : Totals)
    → has_key l.app_id s.counts_by_app ≡ false
    → IsBalanced s
    → IsBalanced (add_healthy l s)
unfolding add_healthy note_app
add_healthy-IsBalanced l s new h =
    let after = note_app l s in
    let counts = counts-add_instances l.instances after in
    let size = ap length (instances-add_instances l.instances after) in
    let sum = length-append s.instances l.instances in
    record {
      by_workflow = omega (arith, counts, size, sum);
      by_status = omega (arith, counts, size, sum);
      by_app = omega (
        arith,
        ap total (maps-add_instances l.instances after).0,
        total-insert l.app_id (length l.instances) s.counts_by_app new,
        size,
        sum,
      );
    }

-- What a listing adds to the counts by app.
has_key-add_listing :
    (k : String) (l : AppListing) (s : Totals)
    → (k ≡ l.app_id → ⊥)
    → has_key k s.counts_by_app ≡ false
    → has_key k (add_listing l s).counts_by_app ≡ false
unfolding add_listing add_healthy note_app
has_key-add_listing k l s n h = ground (
  arith,
  maps-add_instances l.instances (note_app l s),
  has_key-insert l.app_id k (length l.instances) s.counts_by_app,
  eq_iff k l.app_id,
)

add_listing-IsBalanced :
    (l : AppListing) (s : Totals)
    → has_key l.app_id s.counts_by_app ≡ false
    → IsBalanced s
    → IsBalanced (add_listing l s)
unfolding add_listing add_healthy note_app
add_listing-IsBalanced l s new h = elim (Option-cases l.error) [
  | inl e ↦ rw e (add_healthy-IsBalanced l s new h)
  | inr (reason, e) ↦
      rw e (record { by_workflow = h.by_workflow; by_status = h.by_status; by_app = h.by_app })
]

add_listings-IsBalanced :
    (ls : List AppListing) (s : Totals)
    → IsDistinct (listing_ids ls)
    → ((k : String) → mem k (listing_ids ls) ≡ true → has_key k s.counts_by_app ≡ false)
    → IsBalanced s
    → IsBalanced (add_listings ls s)
unfolding add_listings
add_listings-IsBalanced [] s d new h = h
add_listings-IsBalanced (l ∷ ls) s d new h =
    add_listings-IsBalanced ls (add_listing l s) d.1
      (λ k m. has_key-add_listing k l s (λ e. cc d.0) (new k (ground (arith, m))))
      (add_listing-IsBalanced l s (new l.app_id (ground (arith, eq_refl l.app_id))) h)

instances-add_listings :
    (ls : List AppListing) (s : Totals)
    → (add_listings ls s).instances ≡ s.instances ++ healthy_instances ls
unfolding add_listings add_listing add_healthy note_app
instances-add_listings [] s = sym (List.append-nil s.instances)
instances-add_listings (l ∷ ls) s = elim (Option-cases l.error) [
  | inl e ↦ rw e (
      instances-add_listings ls (add_healthy l s)
      ∙ ap (λ x. x ++ healthy_instances ls) (instances-add_instances l.instances (note_app l s))
      ∙ List.append_assoc s.instances l.instances (healthy_instances ls))
  | inr (reason, e) ↦ rw e (instances-add_listings ls _)
]

pub add_listings_accounts :
    (ls : List AppListing)
    → IsDistinct (listing_ids ls)
    → ((add_listings ls no_totals).instances ≡ healthy_instances ls)
      × IsBalanced (add_listings ls no_totals)
add_listings_accounts ls d = (
  instances-add_listings ls no_totals,
  add_listings-IsBalanced ls no_totals d (λ k m. refl)
      (record { by_workflow = refl; by_status = refl; by_app = refl }),
)
