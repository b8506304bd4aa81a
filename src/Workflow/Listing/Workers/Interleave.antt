-- ===== src/Workflow/Listing/Workers/Interleave.antt =====
-- pkg/workflow/tools.go: the goroutines of `list_workflows`. Each one makes the calls of `listApp`
-- for its target and writes its own slot; between two of its calls any other may run.
use dapr_mcp.Base.{
  ℕ, zero, suc, ◌-◌, String, List, [], ◌∷◌, map, length, All, ◌≡◌, refl, sym, ap, ◌∙◌, arith,
  Result, ok, err, false, some, subst,
}
use dapr_mcp.Workflow.Client.{TimeFormat, InstancePage}
use dapr_mcp.Workflow.Registry.{Target}
use dapr_mcp.Workflow.Listing.Workers.{
  AppListing, add_instance, fetch_all, start_page, list_app, list_apps, empty_listing, list_options,
}

-- A goroutine: before its first call, between its metadata fetches, and at its end.
pub data Worker (W : Type 0) : Type 0 where
  waiting : Target W → Worker W
  fetching : Target W → List String → AppListing → Worker W
  done : AppListing → Worker W

abbrev page_calls : Result String InstancePage → ℕ
page_calls (err e) = 1
page_calls (ok page) = suc (suc (length page.instance_ids))

page_calls-ne-zero : (r : Result String InstancePage) → page_calls r ≡ 0 → ⊥
page_calls-ne-zero (err e) h = omega (arith, h)
page_calls-ne-zero (ok page) h = omega (arith, h)

-- The steps that goroutines need, after a schedule has given them some.
abbrev pub one_less : ℕ → List ℕ → List ℕ
one_less i [] = []
one_less zero (n ∷ ns) = (n - 1) ∷ ns
one_less (suc i) (n ∷ ns) = n ∷ one_less i ns

abbrev pub left_after : List ℕ → List ℕ → List ℕ
left_after [] ns = ns
left_after (i ∷ is) ns = left_after is (one_less i ns)

module _ {W : Type 0} (time : TimeFormat) (size : ℕ) (token : String) where
  open_page : Target W → AppListing → Result String InstancePage × W → Worker W × W
  open_page t l (err e, w) = (done (record l { error = some e }), w)
  open_page t l (ok page, w) =
      (fetching t page.instance_ids (record l { continuation_token = page.continuation_token }), w)

  -- One call of a goroutine, or its return.
  pub step : Worker W → W → Worker W × W
  step (waiting t) w =
      open_page t (empty_listing t.app_id) (t.client.list_instance_ids (list_options size token) w)
  step (fetching t [] l) w = (done l, w)
  step (fetching t (id ∷ ids) l) w =
      let (meta, w') = t.client.fetch_workflow_metadata id false w in
      (fetching t ids (add_instance time id meta l), w')
  step (done l) w = (done l, w)

  -- The goroutine at an index makes a step; an index out of range does nothing.
  pub step_at : ℕ → List (Worker W) → W → List (Worker W) × W
  step_at i [] w = ([], w)
  step_at zero (x ∷ xs) w = let (x', w') = step x w in (x' ∷ xs, w')
  step_at (suc i) (x ∷ xs) w = let (xs', w') = step_at i xs w in (x ∷ xs', w')

  -- A schedule names the goroutine that runs next.
  pub run : List ℕ → List (Worker W) → W → List (Worker W) × W
  run [] xs w = (xs, w)
  run (i ∷ is) xs w = let (xs', w') = step_at i xs w in run is xs' w'

  -- The client's queries at this state of the world change nothing.
  pub record IsReadOnly (w : W) (t : Target W) : Type 0 where
    pub list : (t.client.list_instance_ids (list_options size token) w).1 ≡ w
    pub fetch : (id : String) → (t.client.fetch_workflow_metadata id false w).1 ≡ w

  abbrev IsQuiet : W → Worker W → Type 0
  IsQuiet w (waiting t) = IsReadOnly w t
  IsQuiet w (fetching t ids l) = IsReadOnly w t
  IsQuiet w (done l) = Unit

  -- The listing that a goroutine ends with if it runs alone.
  abbrev outcome : W → Worker W → AppListing
  outcome w (waiting t) = (list_app time size token t w).0
  outcome w (fetching t ids l) = (fetch_all time t ids l w).0
  outcome w (done l) = l

  -- The steps that a goroutine still needs, its return included.
  abbrev pub calls_left : W → Worker W → ℕ
  calls_left w (waiting t) = page_calls (t.client.list_instance_ids (list_options size token) w).0
  calls_left w (fetching t ids l) = suc (length ids)
  calls_left w (done l) = 0

  abbrev Keeps : W → Worker W → Worker W × W → Type 0
  Keeps w x r = (r.1 ≡ w) × (outcome w r.0 ≡ outcome w x) × IsQuiet w r.0

  open_page-Keeps :
      (w : W) (t : Target W) (r : Result String InstancePage) (w' : W)
      → IsReadOnly w t
      → w' ≡ w
      → ((open_page t (empty_listing t.app_id) (r, w')).1 ≡ w)
        × (outcome w (open_page t (empty_listing t.app_id) (r, w')).0
            ≡ (start_page time t (empty_listing t.app_id) (r, w')).0)
        × IsQuiet w (open_page t (empty_listing t.app_id) (r, w')).0
  unfolding open_page start_page
  open_page-Keeps w t (err e) w' h same = (same, refl, tt)
  open_page-Keeps w t (ok page) w' h same = (same, rw same, h)

  step-Keeps : (w : W) (x : Worker W) → IsQuiet w x → Keeps w x (step x w)
  unfolding step list_app fetch_all
  step-Keeps w (waiting t) h =
      let (r, w') = t.client.list_instance_ids (list_options size token) w in
      open_page-Keeps w t r w' h h.list
  step-Keeps w (fetching t [] l) h = (refl, refl, tt)
  step-Keeps w (fetching t (id ∷ ids) l) h =
      let (meta, w') = t.client.fetch_workflow_metadata id false w in
      (
        h.fetch id,
        ap (λ v. (fetch_all time t ids (add_instance time id meta l) v).0) (sym (h.fetch id)),
        h,
      )
  step-Keeps w (done l) h = (refl, refl, tt)

  step_at-Keeps :
      (i : ℕ) (xs : List (Worker W)) (w : W)
      → All (IsQuiet w) xs
      → ((step_at i xs w).1 ≡ w)
        × (map (outcome w) (step_at i xs w).0 ≡ map (outcome w) xs)
        × All (IsQuiet w) (step_at i xs w).0
  unfolding step_at
  step_at-Keeps i [] w h = (refl, refl, tt)
  step_at-Keeps zero (x ∷ xs) w h =
      let one = step-Keeps w x h.0 in (one.0, ap (λ y. y ∷ map (outcome w) xs) one.1, (one.2, h.1))
  step_at-Keeps (suc i) (x ∷ xs) w h =
      let more = step_at-Keeps i xs w h.1 in (more.0, ap (◌∷◌ (outcome w x)) more.1, (h.0, more.2))

  run-Keeps :
      (is : List ℕ) (xs : List (Worker W)) (w : W)
      → All (IsQuiet w) xs
      → ((run is xs w).1 ≡ w) × (map (outcome w) (run is xs w).0 ≡ map (outcome w) xs)
  unfolding run
  run-Keeps [] xs w h = (refl, refl)
  run-Keeps (i ∷ is) xs w h =
      let one = step_at-Keeps i xs w h in
      let more = run-Keeps is (step_at i xs w).0 w one.2 in rw (one.0, run) (more.0, more.1 ∙ one.1)

  calls-step : (w : W) (x : Worker W) → calls_left w (step x w).0 ≡ calls_left w x - 1
  unfolding step open_page
  calls-step w (waiting t) = ground arith
  calls-step w (fetching t [] l) = omega arith
  calls-step w (fetching t (id ∷ ids) l) = omega arith
  calls-step w (done l) = omega arith

  calls-step_at :
      (i : ℕ) (xs : List (Worker W)) (w : W)
      → map (calls_left w) (step_at i xs w).0 ≡ one_less i (map (calls_left w) xs)
  unfolding step_at
  calls-step_at i [] w = refl
  calls-step_at zero (x ∷ xs) w = ap (λ n. n ∷ map (calls_left w) xs) (calls-step w x)
  calls-step_at (suc i) (x ∷ xs) w = ap (◌∷◌ (calls_left w x)) (calls-step_at i xs w)

  calls-run :
      (is : List ℕ) (xs : List (Worker W)) (w : W)
      → All (IsQuiet w) xs
      → map (calls_left w) (run is xs w).0 ≡ left_after is (map (calls_left w) xs)
  unfolding run
  calls-run [] xs w h = refl
  calls-run (i ∷ is) xs w h =
      let one = step_at-Keeps i xs w h in
      rw (one.0, run)
        (calls-run is (step_at i xs w).0 w one.2 ∙ ap (left_after is) (calls-step_at i xs w))

  -- Goroutines that need no step have returned.
  returned :
      (w : W) (xs : List (Worker W))
      → All (λ n. n ≡ 0) (map (calls_left w) xs)
      → xs ≡ map done (map (outcome w) xs)
  returned w [] h = refl
  returned w (done l ∷ xs) h = ap (◌∷◌ (done l)) (returned w xs h.1)
  returned w (waiting t ∷ xs) h = absurd (page_calls-ne-zero _ h.0)
  returned w (fetching t ids l ∷ xs) h = absurd (omega arith)

  fetch_all-world :
      (t : Target W) (ids : List String) (l : AppListing) (w : W)
      → IsReadOnly w t
      → (fetch_all time t ids l w).1 ≡ w
  unfolding fetch_all
  fetch_all-world t [] l w h = refl
  fetch_all-world t (id ∷ ids) l w h =
      let (meta, w') = t.client.fetch_workflow_metadata id false w in
      ap (λ v. (fetch_all time t ids (add_instance time id meta l) v).1) (h.fetch id)
      ∙ fetch_all-world t ids (add_instance time id meta l) w h

  start_page-world :
      (t : Target W) (l : AppListing) (r : Result String InstancePage) (w w' : W)
      → IsReadOnly w t
      → w' ≡ w
      → (start_page time t l (r, w')).1 ≡ w
  unfolding start_page
  start_page-world t l (err e) w w' h same = same
  start_page-world t l (ok page) w w' h same =
      let l' = record l { continuation_token = page.continuation_token } in
      ap (λ v. (fetch_all time t page.instance_ids l' v).1) same
      ∙ fetch_all-world t page.instance_ids l' w h

  pub list_app-world :
      (t : Target W) (w : W) → IsReadOnly w t → (list_app time size token t w).1 ≡ w
  unfolding list_app
  list_app-world t w h =
      let (r, w') = t.client.list_instance_ids (list_options size token) w in
      start_page-world t (empty_listing t.app_id) r w w' h h.list

  outcomes :
      (ts : List (Target W)) (w : W)
      → All (IsReadOnly w) ts
      → map (outcome w) (map waiting ts) ≡ (list_apps time size token ts w).0
  unfolding list_apps
  outcomes [] w h = refl
  outcomes (t ∷ ts) w h =
      rw (list_app-world t w h.0) (ap (◌∷◌ (list_app time size token t w).0) (outcomes ts w h.1))

  IsQuiet-waiting :
      (ts : List (Target W)) (w : W) → All (IsReadOnly w) ts → All (IsQuiet w) (map waiting ts)
  IsQuiet-waiting [] w h = tt
  IsQuiet-waiting (t ∷ ts) w h = (h.0, IsQuiet-waiting ts w h.1)

  -- However the calls of the goroutines are interleaved: if the sidecars' queries change nothing,
  -- and the schedule gives each goroutine the steps that it needs, then all have returned, their
  -- listings are those of running one after the other, and the world is unchanged.
  pub run-list_apps :
      (is : List ℕ) (ts : List (Target W)) (w : W)
      → All (IsReadOnly w) ts
      → All (λ n. n ≡ 0) (left_after is (map (calls_left w) (map waiting ts)))
      → run is (map waiting ts) w ≡ (map done (list_apps time size token ts w).0, w)
  run-list_apps is ts w h enough =
      let quiet = IsQuiet-waiting ts w h in
      let kept = run-Keeps is (map waiting ts) w quiet in
      let finished =
        returned w (run is (map waiting ts) w).0
          (subst (All (λ n. n ≡ 0)) (sym (calls-run is (map waiting ts) w quiet)) enough) in
      cc (finished, kept.0, kept.1, outcomes ts w h)
