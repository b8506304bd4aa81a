-- ===== src/Server/Connect/Attempts.antt =====
-- When `connectWithRetry` succeeds.
use dapr_mcp.Base.{
  ℕ, zero, suc, ◌≤◌, ◌<◌, String, ok, err, Result, Result-cases, inl, inr, refl, ◌≡◌, arith, ap,
  subst, sym,
}
use dapr_mcp.Mcp.{Act}
use dapr_mcp.Server.Connect.{
  more_attempts, no_connection, last_attempt, connect_from, connect_with_retry,
}

module _ {W C : Type 0} (sleep : W → W) (connect : Act W C) where
  -- The world in which the attempt of an index is made, if all before it fail.
  abbrev pub before_attempt : ℕ → W → W
  before_attempt zero w = w
  before_attempt (suc k) w = before_attempt k (sleep (connect w).1)

  abbrev pub Fails : W → Type 0
  Fails w = (e : String) × ((connect w).0 ≡ err e)

  connect_from_first :
      (n k : ℕ) (w w' : W) (c : C)
      → k ≤ n
      → ((i : ℕ) → i < k → Fails (before_attempt i w))
      → connect (before_attempt k w) ≡ (ok c, w')
      → connect_from sleep connect n w ≡ (ok c, w')
  unfolding connect_from
  connect_from_first zero zero w w' c h before now = ap (last_attempt sleep connect) now
  connect_from_first zero (suc k) w w' c h before now = absurd (omega (arith, h))
  connect_from_first (suc n) zero w w' c h before now = ground (arith, now)
  connect_from_first (suc n) (suc k) w w' c h before now =
      let failed = before 0 (omega arith) in
      let rest =
        connect_from_first n k (sleep (connect w).1) w' c (omega (arith, h))
          (λ i l. before (suc i) (omega (arith, l))) now in
      ground (arith, failed.1, rest)

  pub connect_with_retry_first :
      (k : ℕ) (w w' : W) (c : C)
      → k ≤ more_attempts
      → ((i : ℕ) → i < k → Fails (before_attempt i w))
      → connect (before_attempt k w) ≡ (ok c, w')
      → connect_with_retry sleep connect w ≡ (ok c, w')
  unfolding connect_with_retry
  connect_with_retry_first k w w' c h before now =
      connect_from_first more_attempts k w w' c h before now

  connect_from_failed :
      (n : ℕ) (w w' : W) (e : String)
      → ((i : ℕ) → i < n → Fails (before_attempt i w))
      → connect (before_attempt n w) ≡ (err e, w')
      → connect_from sleep connect n w ≡ (err (no_connection e), w')
  unfolding connect_from
  connect_from_failed zero w w' e before now = ap (last_attempt sleep connect) now
  connect_from_failed (suc n) w w' e before now =
      let failed = before 0 (omega arith) in
      let rest =
        connect_from_failed n (sleep (connect w).1) w' e (λ i l. before (suc i) (omega (arith, l)))
          now in
      ground (arith, failed.1, rest)

  pub connect_with_retry_failed :
      (w w' : W) (e : String)
      → ((i : ℕ) → i < more_attempts → Fails (before_attempt i w))
      → connect (before_attempt more_attempts w) ≡ (err e, w')
      → connect_with_retry sleep connect w ≡ (err (no_connection e), w')
  unfolding connect_with_retry
  connect_with_retry_failed w w' e before now = connect_from_failed more_attempts w w' e before now

  -- How the attempt of index `k` ends the `n + 1` attempts: with its client, or with its error if it
  -- is the last of them.
  abbrev pub Closes : ℕ → ℕ → Result String C × W → Result String C × W → Type 0
  Closes n k (ok c, w) r = r ≡ (ok c, w)
  Closes n k (err e, w) r = (k ≡ n) × (r ≡ (err (no_connection e), w))

  abbrev pub Attempted : ℕ → W → Result String C × W → Type 0
  Attempted n w r =
      (k : ℕ) × (k ≤ n)
      × ((i : ℕ) → i < k → Fails (before_attempt i w))
      × Closes n k (connect (before_attempt k w)) r

  Closes-last : (m : Result String C × W) → Closes 0 0 m (last_attempt sleep connect m)
  Closes-last (ok c, w) = refl
  Closes-last (err e, w) = (refl, refl)

  Closes-suc : (n k : ℕ) (m r : Result String C × W) → Closes n k m r → Closes (suc n) (suc k) m r
  Closes-suc n k (ok c, w) r h = h
  Closes-suc n k (err e, w) r h = (ap suc h.0, h.1)

  Fails-before :
      (k : ℕ) (w : W)
      → Fails w
      → ((i : ℕ) → i < k → Fails (before_attempt i (sleep (connect w).1)))
      → (i : ℕ) → i < suc k
      → Fails (before_attempt i w)
  Fails-before k w now later zero l = now
  Fails-before k w now later (suc i) l = later i (omega (arith, l))

  Closes-now :
      (n : ℕ) (w : W) (c : C)
      → (connect w).0 ≡ ok c
      → Closes n 0 (connect w) (connect_from sleep connect n w)
  unfolding connect_from
  Closes-now zero w c e = ground (arith, e)
  Closes-now (suc n) w c e = ground (arith, e)

  connect_from_next :
      (n : ℕ) (w : W) (m : String)
      → (connect w).0 ≡ err m
      → connect_from sleep connect (suc n) w ≡ connect_from sleep connect n (sleep (connect w).1)
  unfolding connect_from
  connect_from_next n w m e = ground (arith, e)

  Closes-later :
      (n k : ℕ) (w : W) (m : String)
      → (connect w).0 ≡ err m
      → Closes n k
          (connect (before_attempt k (sleep (connect w).1)))
          (connect_from sleep connect n (sleep (connect w).1))
      → Closes
          (suc n)
          (suc k)
          (connect (before_attempt (suc k) w))
          (connect_from sleep connect (suc n) w)
  Closes-later n k w m e h =
      Closes-suc n k (connect (before_attempt k (sleep (connect w).1)))
        (connect_from sleep connect (suc n) w)
        (subst (Closes n k (connect (before_attempt k (sleep (connect w).1))))
          (sym (connect_from_next n w m e)) h)

  Attempted-connect_from : (n : ℕ) (w : W) → Attempted n w (connect_from sleep connect n w)
  unfolding connect_from
  Attempted-connect_from zero w =
      (0, omega arith, (λ i l. absurd (omega (arith, l))), Closes-last (connect w))
  Attempted-connect_from (suc n) w = elim (Result-cases (connect w).0) [
    | inl (c, e) ↦ (0, omega arith, (λ i l. absurd (omega (arith, l))), Closes-now (suc n) w c e)
    | inr (m, e) ↦
        let (k, below, failed, closes) = Attempted-connect_from n (sleep (connect w).1) in
        (suc k, omega (arith, below), Fails-before k w (m, e) failed, Closes-later n k w m e closes)
  ]

  -- There are at most five attempts, each in the world that the pause after the one before left. The
  -- first that succeeds ends them, with its client for the result; if all fail, the result is an
  -- error with the text of the fifth.
  pub connect_with_retry-Attempted :
      (w : W) → Attempted more_attempts w (connect_with_retry sleep connect w)
  unfolding connect_with_retry
  connect_with_retry-Attempted w = Attempted-connect_from more_attempts w
