-- ===== src/Workflow/Listing/Sums/Agreement.antt =====
-- What the maps of `list_workflows` say of each app.
use dapr_mcp.Base.{
  ℕ, String, true, false, Option, none, some, List, [], ◌∷◌, if◌then◌else◌, ltb, length, lookup,
  mem, IsDistinct, In, All, All-of_In, ◌==◌, ◌≡◌, refl, ap, arith, eq_iff, eq_refl, lookup-insert,
  inl, inr, Option-cases,
}
use dapr_mcp.Workflow.Listing.Workers.{AppListing}
use dapr_mcp.Workflow.Listing.Sums.{
  Totals, no_totals, listing_failed, metadata_missing, note_app, add_healthy, add_listing,
  add_listings,
}
use dapr_mcp.Workflow.Listing.Sums.Counts.{
  healthy_instances, IsBalanced, add_listings_accounts, listing_ids, maps-add_instances,
}

-- The warning, the continuation token and the count that a listing gives its app.
abbrev pub warning_of : AppListing → Option String
warning_of l = elim l.error [
  | some e ↦ some (listing_failed e)
  | none ↦ if ltb 0 l.skipped then some (metadata_missing l.skipped) else none
]

abbrev pub token_of : AppListing → Option String
token_of l = elim l.error [
  | some e ↦ none
  | none ↦ if l.continuation_token == "" then none else some l.continuation_token
]

abbrev pub count_of : AppListing → Option ℕ
count_of l = elim l.error [ some e ↦ none | none ↦ some (length l.instances) ]

abbrev pub Says : Totals → String → Option String → Option String → Option ℕ → Type 0
Says s k warning token n =
    (lookup k s.warnings ≡ warning)
    × (lookup k s.continuation_tokens ≡ token)
    × (lookup k s.counts_by_app ≡ n)

-- The maps say of the listing's app what the listing says, and of other apps what they said.
Says-add_listing_self :
    (l : AppListing) (s : Totals)
    → Says s l.app_id none none none
    → Says (add_listing l s) l.app_id (warning_of l) (token_of l) (count_of l)
unfolding add_listing add_healthy note_app
Says-add_listing_self l s h = elim (Option-cases l.error) [
  | inl healthy ↦ ground (
    arith,
    healthy,
    maps-add_instances l.instances (note_app l s),
    eq_refl l.app_id,
    lookup-insert l.app_id l.app_id (length l.instances) s.counts_by_app,
    lookup-insert l.app_id l.app_id l.continuation_token s.continuation_tokens,
    lookup-insert l.app_id l.app_id (metadata_missing l.skipped) s.warnings,
  )
  | inr (reason, failed) ↦ ground (
    arith,
    failed,
    eq_refl l.app_id,
    lookup-insert l.app_id l.app_id (listing_failed reason) s.warnings,
  )
]

Says-add_listing_ne :
    (k : String) (l : AppListing) (s : Totals) (warning token : Option String) (n : Option ℕ)
    → (k == l.app_id) ≡ false
    → Says s k warning token n
    → Says (add_listing l s) k warning token n
unfolding add_listing add_healthy note_app
Says-add_listing_ne k l s warning token n d h = elim (Option-cases l.error) [
  | inl healthy ↦ ground (
    arith,
    healthy,
    maps-add_instances l.instances (note_app l s),
    lookup-insert l.app_id k (length l.instances) s.counts_by_app,
    lookup-insert l.app_id k l.continuation_token s.continuation_tokens,
    lookup-insert l.app_id k (metadata_missing l.skipped) s.warnings,
  )
  | inr (reason, failed) ↦
      ground (arith, failed, lookup-insert l.app_id k (listing_failed reason) s.warnings)
]

Says-add_listings_ne :
    (k : String) (ls : List AppListing) (s : Totals) (warning token : Option String) (n : Option ℕ)
    → mem k (listing_ids ls) ≡ false
    → Says s k warning token n
    → Says (add_listings ls s) k warning token n
unfolding add_listings
Says-add_listings_ne k [] s warning token n d h = h
Says-add_listings_ne k (l ∷ ls) s warning token n d h =
    Says-add_listings_ne k ls (add_listing l s) warning token n (ground arith)
      (Says-add_listing_ne k l s warning token n (ground arith) h)

Says-add_listings :
    (l : AppListing) (ls : List AppListing) (s : Totals)
    → IsDistinct (listing_ids ls)
    → ((k : String) → mem k (listing_ids ls) ≡ true → Says s k none none none)
    → In l ls
    → Says (add_listings ls s) l.app_id (warning_of l) (token_of l) (count_of l)
unfolding add_listings
Says-add_listings l [] s d new m = elim m [ ]
Says-add_listings l (f ∷ ls) s d new (inl e) = rw e (
    Says-add_listings_ne f.app_id ls (add_listing f s) (warning_of f) (token_of f) (count_of f) d.0
      (Says-add_listing_self f s (new f.app_id (ground (arith, eq_refl f.app_id)))))
Says-add_listings l (f ∷ ls) s d new (inr m) =
    Says-add_listings l ls (add_listing f s) d.1
      (λ k p.
        Says-add_listing_ne k f s none none none
          (ground (arith, eq_iff k f.app_id, ap (λ x. mem x (listing_ids ls))))
          (new k (ground arith)))
      m

pub add_listings-Says :
    (ls : List AppListing) (l : AppListing)
    → IsDistinct (listing_ids ls)
    → In l ls
    → Says (add_listings ls no_totals) l.app_id (warning_of l) (token_of l) (count_of l)
add_listings-Says ls l d m = Says-add_listings l ls no_totals d (λ k p. (refl, refl, refl)) m

-- For listings of distinct apps: the result holds the instances of every app whose listing did not
-- fail, in order and no others; the counts by workflow, by status and by app each add up to their
-- number; and the maps of the result hold for each app exactly what its listing says: a warning if
-- it failed or skipped an instance, a continuation token if it has one and did not fail, and the
-- number of its instances if it did not fail.
pub add_listings_agree :
    (ls : List AppListing)
    → IsDistinct (listing_ids ls)
    → ((add_listings ls no_totals).instances ≡ healthy_instances ls)
      × IsBalanced (add_listings ls no_totals)
      × All
          (λ l. Says (add_listings ls no_totals) l.app_id (warning_of l) (token_of l) (count_of l))
          ls
add_listings_agree ls d =
    let sums = add_listings_accounts ls d in
    (sums.0, sums.1, All-of_In _ ls (λ l m. add_listings-Says ls l d m))
