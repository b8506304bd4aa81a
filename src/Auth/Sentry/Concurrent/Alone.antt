-- ===== src/Auth/Sentry/Concurrent/Alone.antt =====
-- A look-up that runs alone.
use dapr_mcp.Base.{
  ℕ, zero, suc, String, Option, none, some, List, [], ◌∷◌, Result, ok, err, format, ◌≡◌, refl, sym,
  ap, ◌∙◌, Bool-cases, inl, inr, nat_eq, Bool, true, false, if◌then◌else◌,
}
use dapr_mcp.Auth.Config.{DaprSentryConfig}
use dapr_mcp.Auth.Sentry.{
  WebKey, Packages, Cache, State, HttpResponse, is_stale, refresh_jwks, matching, failed, store,
  read_body, receive, request_keys, first_key, search_again, search, search_in, get_signing_key,
}
use dapr_mcp.Auth.Sentry.Concurrent.{
  Lookup, begin, expired, received, holding, missing, received_again, finished, fetched, fetch,
  chosen, write_keys, look_up_step,
}

module _ {W J K : Type 0} (p : Packages W J K) (cfg : DaprSentryConfig) where
  -- `refreshJWKS` in its two halves: the request, and the writing of what it delivered.
  abbrev written :
      State W K → Result String (List (WebKey K)) × W → Result String (Unit {0}) × State W K
  written s (err e, w) = (err e, record s { world = w })
  written s (ok keys, w) = (ok tt, write_keys p cfg keys (record s { world = w }))

  module _ (s : State W K) (c : Cache K) where
    store-written :
        (r : Result String (List (WebKey K))) (w : W)
        → store p cfg s.cache r w ≡ written s (fetched p cfg (store p cfg c r w))
    unfolding store failed
    store-written (err e) w = refl
    store-written (ok keys) w = refl

    read_body-written :
        (r : Result String String) (w : W)
        → read_body p cfg s.cache r w ≡ written s (fetched p cfg (read_body p cfg c r w))
    unfolding read_body failed
    read_body-written (err e) w = refl
    read_body-written (ok body) w = store-written (p.unmarshal body) w

    receive-written :
        (r : Result String HttpResponse × W)
        → receive p cfg s.cache r ≡ written s (fetched p cfg (receive p cfg c r))
    unfolding receive failed
    receive-written (err e, w) = refl
    receive-written (ok resp, w) = elim (Bool-cases (nat_eq resp.status_code 200)) [
      | inl e ↦ rw e (read_body-written resp.body w)
      | inr e ↦ rw e refl
    ]

  request_keys-written :
      (o : Option String) (s : State W K) (c : Cache K)
      → request_keys p cfg o s
        ≡ written s (fetched p cfg (request_keys p cfg o (record { cache = c; world = s.world })))
  unfolding request_keys failed
  request_keys-written (some e) s c = refl
  request_keys-written none s c = receive-written s c (p.get cfg.jwks_url s.world)

  refresh_jwks-written : (s : State W K) → refresh_jwks p cfg s ≡ written s (fetch p cfg s.world)
  unfolding refresh_jwks fetch
  refresh_jwks-written s =
      request_keys-written (p.request_error cfg.jwks_url) s
        (record { jwks = none; last_refresh = 0 })

  -- A number of steps of one look-up, with no other between them.
  unfoldable pub steps : ℕ → Lookup K → State W K → Lookup K × State W K
  steps zero x s = (x, s)
  steps (suc n) x s = let (y, t) = look_up_step p cfg x s in steps n y t

  abbrev pub ended : String → Result String K × State W K → Lookup K × State W K
  ended id (r, s) = (finished id r, s)

  steps-finished :
      (n : ℕ) (id : String) (r : Result String K) (s : State W K)
      → steps n (finished id r) s ≡ (finished id r, s)
  unfolding steps look_up_step
  steps-finished zero id r s = refl
  steps-finished (suc n) id r s = steps-finished n id r s

  module _ (n : ℕ) (id : String) where
    steps-first_key :
        (found : List (WebKey K)) (s : State W K)
        → steps n
            (chosen p cfg id found
              (finished id (err (format ("key " ∷ p.quote id ∷ " not found in JWKS" ∷ [])))))
            s
          ≡ ended id (first_key p cfg id found s)
    unfolding first_key
    steps-first_key [] s =
        steps-finished n id (err (format ("key " ∷ p.quote id ∷ " not found in JWKS" ∷ []))) s
    steps-first_key (k ∷ ks) s = steps-finished n id (ok k.key) s

    steps-search_again :
        (f : Result String (List (WebKey K)) × W) (s : State W K)
        → steps (suc (suc n)) (received_again id f.0) (record s { world = f.1 })
          ≡ ended id (search_again p cfg id (written s f))
    unfolding search_again steps look_up_step
    steps-search_again (err e, w) s =
        steps-finished (suc n) id
          (err (format ("key " ∷ p.quote id ∷ " not found and refresh failed: " ∷ e ∷ [])))
          (record s { world = w })
    steps-search_again (ok keys, w) s =
        steps-first_key (matching p cfg id keys) (write_keys p cfg keys (record s { world = w }))

    steps-search :
        (found : List (WebKey K)) (s : State W K)
        → steps (suc (suc (suc n))) (chosen p cfg id found (missing id)) s
          ≡ ended id (search p cfg id found s)
    unfolding search first_key steps look_up_step
    steps-search [] s =
        steps-search_again (fetch p cfg s.world) s
        ∙ ap (λ r. ended id (search_again p cfg id r)) (sym (refresh_jwks-written s))
    steps-search (k ∷ ks) s = steps-finished (suc (suc (suc n))) id (ok k.key) s

    steps-search_in :
        (o : Option (List (WebKey K))) (s : State W K)
        → steps (suc (suc (suc (suc n)))) (holding id o) s ≡ ended id (search_in p cfg id o s)
    unfolding search_in steps look_up_step
    steps-search_in none s = steps-finished (suc (suc (suc n))) id (err "no JWKS available") s
    steps-search_in (some keys) s = steps-search (matching p cfg id keys) s

    steps-received :
        (f : Result String (List (WebKey K)) × W) (s : State W K)
        → steps (suc (suc (suc (suc (suc (suc n)))))) (received id f.0) (record s { world = f.1 })
          ≡ ended id (search_in p cfg id (written s f).1.cache.jwks (written s f).1)
    unfolding steps look_up_step
    steps-received (err e, w) s = steps-search_in s.cache.jwks (record s { world = w })
    steps-received (ok keys, w) s =
        steps-search_in (some keys) (write_keys p cfg keys (record s { world = w }))

  abbrev search_from : String → Bool → State W K → Result String K × State W K
  search_from id b s =
      let t = if b then (refresh_jwks p cfg s).1 else s in search_in p cfg id t.cache.jwks t

  steps-begin :
      (n : ℕ) (id : String) (s : State W K) (b : Bool)
      → is_stale (p.now s.world) s.cache.last_refresh cfg.refresh_interval ≡ b
      → steps (suc n) (begin id) s ≡ steps n (if b then expired id else holding id s.cache.jwks) s
  unfolding steps look_up_step
  steps-begin n id s b e =
      ap (λ b'. steps n (if b' then expired id else holding id s.cache.jwks) s) e

  steps-expired :
      (n : ℕ) (id : String) (s : State W K)
      → steps (suc n) (expired id) s
        ≡ steps n
            (received id (fetch p cfg s.world).0)
            (record s { world = (fetch p cfg s.world).1 })
  unfolding steps look_up_step
  steps-expired n id s = refl

  -- A look-up that no other interrupts ends within eight steps, with the result of `getSigningKey`,
  -- and leaves the cache and the world that it leaves.
  pub steps-get_signing_key :
      (id : String) (s : State W K) → steps 8 (begin id) s ≡ ended id (get_signing_key p cfg id s)
  unfolding get_signing_key
  steps-get_signing_key id s =
      elim (Bool-cases (is_stale (p.now s.world) s.cache.last_refresh cfg.refresh_interval)) [
        | inl e ↦
            steps-begin 7 id s true e
            ∙ steps-expired 6 id s
            ∙ steps-received 0 id (fetch p cfg s.world) s
            ∙ ap (λ r. ended id (search_in p cfg id r.1.cache.jwks r.1))
                (sym (refresh_jwks-written s))
            ∙ sym (ap (λ b. ended id (search_from id b s)) e)
        | inr e ↦
            steps-begin 7 id s false e
            ∙ steps-search_in 3 id s.cache.jwks s
            ∙ sym (ap (λ b. ended id (search_from id b s)) e)
      ]
