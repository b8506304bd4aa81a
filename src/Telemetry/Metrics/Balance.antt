-- ===== src/Telemetry/Metrics/Balance.antt =====
-- The counters while timers are started and stopped, by any number of concurrent tool runs. `Stop`
-- makes its measurements one by one, and those of other runs may come between them.
use dapr_mcp.Base.{
  ℕ, suc, ◌+◌, ◌-◌, ◌≤◌, String, Bool, false, ◌&&◌, Option, none, some, List, [], ◌∷◌, ◌++◌, ℤ, pos,
  negsuc, lookup, if◌then◌else◌, ◌==◌, ◌≡◌, arith, All,
}
use dapr_mcp.Telemetry.Metrics.{
  Instrument, invocations, errors, duration, in_progress, Measurement, Timer, start_timer,
  stop_timer,
}

-- The timers that run, for each `Stop` under way what it still has to measure, and what has been
-- measured.
pub record Run : Type 0 where
  pub running : List Timer
  pub stopping : List (List Measurement)
  pub log : List Measurement

-- One event: a timer is started, `Stop` is called of one that runs, which is done once for a timer, or
-- one `Stop` makes its next measurement.
pub data Step : Run → Run → Type 0 where
  starts :
      (s : Run) (now : ℤ) (name pkg : String)
      → Step s (record s {
        running = (start_timer now name pkg).0 ∷ s.running;
        log = s.log ++ (start_timer now name pkg).1;
      })
  stops :
      (before after : List Timer) (t : Timer) (stopping : List (List Measurement))
      (log : List Measurement) (elapsed : ℤ) (outcome component_type : String)
      → Step
          (record { running = before ++ t ∷ after; stopping = stopping; log = log })
          (record {
            running = before ++ after;
            stopping = (stop_timer t elapsed outcome component_type).1 ∷ stopping;
            log = log;
          })
  measures :
      (running : List Timer) (before after : List (List Measurement)) (m : Measurement)
      (rest log : List Measurement)
      → Step
          (record { running = running; stopping = before ++ (m ∷ rest) ∷ after; log = log })
          (record { running = running; stopping = before ++ rest ∷ after; log = log ++ m ∷ [] })

-- Any number of events.
pub data Steps : Run → Run → Type 0 where
  done : (s : Run) → Steps s s
  next : (s t u : Run) → Step s t → Steps t u → Steps s u

abbrev pub sum : {A : Type 0} → (A → ℕ) → List A → ℕ
sum f [] = 0
sum f (x ∷ xs) = let rest = sum f xs in f x + rest

sum-append : {A : Type 0} (f : A → ℕ) (xs ys : List A) → sum f (xs ++ ys) ≡ sum f xs + sum f ys
sum-append f [] ys = omega arith
sum-append f (x ∷ xs) ys = omega (arith, sum-append f xs ys)

All-middle :
    {A : Type 0} (P : A → Type 0) (xs ys : List A) (x y : A)
    → (P x → P y)
    → All P (xs ++ x ∷ ys)
    → All P (xs ++ y ∷ ys)
All-middle P [] ys x y f (h, hs) = (f h, hs)
All-middle P (z ∷ xs) ys x y f (h, hs) = (h, All-middle P xs ys x y f hs)

All-at : {A : Type 0} (P : A → Type 0) (xs ys : List A) (x : A) → All P (xs ++ x ∷ ys) → P x
All-at P [] ys x (h, hs) = h
All-at P (z ∷ xs) ys x (h, hs) = All-at P xs ys x hs

abbrev is_text : Option String → String → Bool
is_text none s = false
is_text (some t) s = t == s

-- What a measurement adds to a counter: the amount by which that of running tools goes up or down,
-- and the amounts of the others.
abbrev amount_up : Instrument → ℤ → ℕ
amount_up in_progress (pos n) = n
amount_up in_progress (negsuc n) = 0
amount_up invocations n = 0
amount_up errors n = 0
amount_up duration n = 0

abbrev amount_down : Instrument → ℤ → ℕ
amount_down in_progress (pos n) = 0
amount_down in_progress (negsuc n) = suc n
amount_down invocations n = 0
amount_down errors n = 0
amount_down duration n = 0

abbrev amount_invoked : Instrument → ℤ → ℕ
amount_invoked in_progress n = 0
amount_invoked invocations (pos n) = n
amount_invoked invocations (negsuc n) = 0
amount_invoked errors n = 0
amount_invoked duration n = 0

abbrev amount_failed : Instrument → ℤ → ℕ
amount_failed in_progress n = 0
amount_failed invocations n = 0
amount_failed errors (pos n) = n
amount_failed errors (negsuc n) = 0
amount_failed duration n = 0

module _ (name pkg : String) where
  abbrev of_tool : Measurement → Bool
  of_tool m =
      is_text (lookup "tool.name" m.attributes) name
      && is_text (lookup "tool.package" m.attributes) pkg

  abbrev up : Measurement → ℕ
  up m = if of_tool m then amount_up m.instrument m.value else 0

  abbrev down : Measurement → ℕ
  down m = if of_tool m then amount_down m.instrument m.value else 0

  abbrev invokes : Measurement → ℕ
  invokes m = if of_tool m then amount_invoked m.instrument m.value else 0

  abbrev fails : Measurement → ℕ
  fails m = if of_tool m then amount_failed m.instrument m.value else 0

  abbrev pub ups : List Measurement → ℕ
  ups log = sum up log

  abbrev pub downs : List Measurement → ℕ
  downs log = sum down log

  abbrev pub invoked : List Measurement → ℕ
  invoked log = sum invokes log

  abbrev pub failed : List Measurement → ℕ
  failed log = sum fails log

  abbrev one_if : Timer → ℕ
  one_if t = if (t.inv.tool_name == name) && (t.inv.tool_package == pkg) then 1 else 0

  abbrev pub still_running : List Timer → ℕ
  still_running ts = sum one_if ts

  -- The failures of a `Stop` that are not preceded by its end.
  abbrev owed : List Measurement → ℕ
  owed p = failed p - downs p

  -- What a `Stop` has still to measure, from any of its measurements on: nothing goes up, the
  -- invocations come no later than the end, and the failures after it.
  abbrev InOrder : List Measurement → Type 0
  InOrder [] = Unit
  InOrder (m ∷ rest) =
      (up m ≡ 0)
      × (invoked (m ∷ rest) ≤ downs (m ∷ rest))
      × (fails m + owed rest ≤ owed (m ∷ rest) + down m)
      × InOrder rest

  -- What the counters say of the tool, at any moment.
  pub record IsBalanced (s : Run) : Type 0 where
    pub level : ups s.log ≡ downs s.log + sum downs s.stopping + still_running s.running
    pub invocations_eq : invoked s.log + sum invoked s.stopping ≡ downs s.log + sum downs s.stopping
    pub ends_le : downs s.log ≤ invoked s.log
    pub failures_le : failed s.log + sum owed s.stopping ≤ downs s.log
    pub in_order : All InOrder s.stopping

  sum-InOrder : (ps : List (List Measurement)) → All InOrder ps → sum invoked ps ≤ sum downs ps
  sum-InOrder [] h = omega arith
  sum-InOrder ([] ∷ ps) (h, hs) = omega (arith, sum-InOrder ps hs)
  sum-InOrder ((m ∷ p) ∷ ps) (h, hs) = omega (arith, h.1, sum-InOrder ps hs)

  -- All that a `Stop` has to measure.
  record IsWhole (t : Timer) (p : List Measurement) : Type 0 where
    ended : downs p ≡ one_if t
    invoked_eq : invoked p ≡ one_if t
    nothing_owed : owed p ≡ 0
    ordered : InOrder p

  IsWhole-stop_timer :
      (t : Timer) (elapsed : ℤ) (outcome kind : String)
      → IsWhole t (stop_timer t elapsed outcome kind).1
  unfolding stop_timer
  IsWhole-stop_timer t elapsed outcome kind = record {
    ended = ground arith;
    invoked_eq = ground arith;
    nothing_owed = ground arith;
    ordered = ground arith;
  }

  IsBalanced-starts :
      (s : Run) (now : ℤ) (n p : String)
      → IsBalanced s
      → IsBalanced (record s {
        running = (start_timer now n p).0 ∷ s.running;
        log = s.log ++ (start_timer now n p).1;
      })
  unfolding start_timer
  IsBalanced-starts s now n p h =
      let new = (start_timer now n p).1 in
      let u = sum-append up s.log new in
      let d = sum-append down s.log new in
      let i = sum-append invokes s.log new in
      let f = sum-append fails s.log new in
      record {
        level = ground (arith, u, d, h.level);
        invocations_eq = ground (arith, d, i, h.invocations_eq);
        ends_le = ground (arith, d, i, h.ends_le);
        failures_le = ground (arith, d, f, h.failures_le);
        in_order = h.in_order;
      }

  IsBalanced-stops :
      (before after : List Timer) (t : Timer) (stopping : List (List Measurement))
      (log p : List Measurement)
      → IsWhole t p
      → IsBalanced (record { running = before ++ t ∷ after; stopping = stopping; log = log })
      → IsBalanced (record { running = before ++ after; stopping = p ∷ stopping; log = log })
  IsBalanced-stops before after t stopping log p whole h =
      let with_t = sum-append one_if before (t ∷ after) in
      let without_t = sum-append one_if before after in
      record {
        level = omega (arith, with_t, without_t, whole.ended, h.level);
        invocations_eq = omega (arith, whole.ended, whole.invoked_eq, h.invocations_eq);
        ends_le = h.ends_le;
        failures_le = omega (arith, whole.nothing_owed, h.failures_le);
        in_order = (whole.ordered, h.in_order);
      }

  IsBalanced-measures :
      (running : List Timer) (before after : List (List Measurement)) (m : Measurement)
      (rest log : List Measurement)
      → IsBalanced
          (record { running = running; stopping = before ++ (m ∷ rest) ∷ after; log = log })
      → IsBalanced
          (record { running = running; stopping = before ++ rest ∷ after; log = log ++ m ∷ [] })
  IsBalanced-measures running before after m rest log h =
      let one = All-at InOrder before after (m ∷ rest) h.in_order in
      let in_order = All-middle InOrder before after (m ∷ rest) rest (λ o. o.3) h.in_order in
      let u = sum-append up log (m ∷ []) in
      let d = sum-append down log (m ∷ []) in
      let i = sum-append invokes log (m ∷ []) in
      let f = sum-append fails log (m ∷ []) in
      let d0 = sum-append downs before ((m ∷ rest) ∷ after) in
      let d1 = sum-append downs before (rest ∷ after) in
      let i0 = sum-append invoked before ((m ∷ rest) ∷ after) in
      let i1 = sum-append invoked before (rest ∷ after) in
      let o0 = sum-append owed before ((m ∷ rest) ∷ after) in
      let o1 = sum-append owed before (rest ∷ after) in
      let later = sum-InOrder (before ++ rest ∷ after) in_order in
      let same : invoked (log ++ m ∷ []) + sum invoked (before ++ rest ∷ after)
          ≡ downs (log ++ m ∷ []) + sum downs (before ++ rest ∷ after) =
        omega (arith, d, i, d0, d1, i0, i1, h.invocations_eq) in
      record {
        level = omega (arith, u, d, d0, d1, one.0, h.level);
        invocations_eq = same;
        ends_le = omega (arith, same, later);
        failures_le = omega (arith, d, f, o0, o1, one.2, h.failures_le);
        in_order = in_order;
      }

  IsBalanced-step : (s t : Run) → Step s t → IsBalanced s → IsBalanced t
  IsBalanced-step _ _ (starts s now n p) h = IsBalanced-starts s now n p h
  IsBalanced-step _ _ (stops before after t stopping log elapsed outcome kind) h =
      IsBalanced-stops before after t stopping log (stop_timer t elapsed outcome kind).1
        (IsWhole-stop_timer t elapsed outcome kind) h
  IsBalanced-step _ _ (measures running before after m rest log) h =
      IsBalanced-measures running before after m rest log h

  -- However the timers of concurrent tool runs are started and stopped, and however the measurements
  -- of their stops follow each other: for each tool and at any moment, the counter of running tools
  -- is the number of its timers that run and of its stops that have not yet lowered it; the
  -- invocations counted and still to be counted are as many as the ends; and no more failures are
  -- counted than ends, and no more ends than invocations.
  pub IsBalanced-Steps : (s t : Run) → Steps s t → IsBalanced s → IsBalanced t
  IsBalanced-Steps _ _ (done s) h = h
  IsBalanced-Steps _ _ (next s t u step steps) h =
      IsBalanced-Steps t u steps (IsBalanced-step s t step h)
