-- ===== src/Auth/Sentry/Concurrent/Sound.antt =====
-- Keys that concurrent look-ups of pkg/auth/sentry.go end with.
use dapr_mcp.Base.{
  ℕ, zero, suc, String, Option, none, some, List, [], ◌∷◌, Result, ok, err, format, All, ◌≡◌, refl,
  sym, ap, ◌∙◌, subst, Bool-cases, inl, inr, map,
}
use dapr_mcp.Auth.Config.{DaprSentryConfig}
use dapr_mcp.Auth.Sentry.{
  WebKey, Packages, State, is_stale, keys_of, refresh_jwks, matching, started, new_authenticator,
}
use dapr_mcp.Auth.Sentry.Refresh.{Leaves, refresh_jwks-Leaves}
use dapr_mcp.Auth.Sentry.Concurrent.{
  Lookup, begin, expired, received, refreshed, holding, missing, received_again, refreshed_again,
  finished, id_of, fetched, fetch, chosen, look_up_step, look_up_step_at, look_ups,
}

module _ {W J K : Type 0} (p : Packages W J K) (cfg : DaprSentryConfig) where
  -- For any property that the endpoint's keys have whenever they are asked for.
  module _ (Served : List (WebKey K) → Type 0) where
    abbrev pub IsServed : Result String (List (WebKey K)) → Type 0
    IsServed (ok keys) = Served keys
    IsServed (err e) = Unit

    abbrev pub IsCached : Option (List (WebKey K)) → Type 0
    IsCached none = ⊥
    IsCached (some keys) = Served keys

    -- The key is the first match for the ID among keys with the property.
    abbrev pub IsFound : String → Result String K → Type 0
    IsFound id (err e) = Unit
    IsFound id (ok key) =
        (keys : List (WebKey K)) × (k : WebKey K) × (ks : List (WebKey K)) × Served keys
        × (matching p cfg id keys ≡ k ∷ ks)
        × (key ≡ k.key)

    abbrev pub IsSound : Lookup K → Type 0
    IsSound (begin id) = Unit
    IsSound (expired id) = Unit
    IsSound (received id r) = IsServed r
    IsSound (refreshed id) = Unit
    IsSound (holding id o) = IsCached o
    IsSound (missing id) = Unit
    IsSound (received_again id r) = IsServed r
    IsSound (refreshed_again id) = Unit
    IsSound (finished id r) = IsFound id r

    -- What a step keeps: the ID, and the property of the keys in the look-up and in the cache.
    abbrev pub Keeps : Lookup K → Lookup K × State W K → Type 0
    Keeps x (y, s) = (id_of y ≡ id_of x) × IsSound y × IsCached s.cache.jwks

    abbrev pub KeepsAll : List (Lookup K) → List (Lookup K) × State W K → Type 0
    KeepsAll xs (ys, s) = (map id_of ys ≡ map id_of xs) × All IsSound ys × IsCached s.cache.jwks

    IsFound-chosen :
        (id : String) (keys found : List (WebKey K)) (x otherwise : Lookup K) (s : State W K)
        → Served keys
        → matching p cfg id keys ≡ found
        → id_of x ≡ id
        → IsCached s.cache.jwks
        → Keeps x (otherwise, s)
        → Keeps x (chosen p cfg id found otherwise, s)
    IsFound-chosen id keys [] x otherwise s served e same cached h = h
    IsFound-chosen id keys (k ∷ ks) x otherwise s served e same cached h =
        (sym same, (keys, k, ks, served, e, refl), cached)

    Keeps-search_again :
        (id : String) (o : Option (List (WebKey K))) (s : State W K)
        → IsCached o
        → IsCached s.cache.jwks
        → Keeps (refreshed_again id) (
          chosen p cfg id
              (matching p cfg id (keys_of p cfg o))
              (finished id (err (format ("key " ∷ p.quote id ∷ " not found in JWKS" ∷ [])))),
          s,
        )
    Keeps-search_again id none s h c = elim h [ ]
    Keeps-search_again id (some keys) s h c =
        IsFound-chosen id keys (matching p cfg id keys) (refreshed_again id)
          (finished id (err (format ("key " ∷ p.quote id ∷ " not found in JWKS" ∷ [])))) s h refl
          refl c (refl, tt, c)

    module _ (serves : (w : W) → IsServed (fetch p cfg w).0) where
      Keeps-look_up_step :
          (x : Lookup K) (s : State W K)
          → IsSound x
          → IsCached s.cache.jwks
          → Keeps x (look_up_step p cfg x s)
      unfolding look_up_step
      Keeps-look_up_step (begin id) s h c =
          elim (Bool-cases (is_stale (p.now s.world) s.cache.last_refresh cfg.refresh_interval)) [
            | inl e ↦ rw e (refl, tt, c)
            | inr e ↦ rw e (refl, c, c)
          ]
      Keeps-look_up_step (expired id) s h c = (refl, serves s.world, c)
      Keeps-look_up_step (received id (err e)) s h c = (refl, tt, c)
      Keeps-look_up_step (received id (ok keys)) s h c = (refl, tt, h)
      Keeps-look_up_step (refreshed id) s h c = (refl, c, c)
      Keeps-look_up_step (holding id none) s h c = elim h [ ]
      Keeps-look_up_step (holding id (some keys)) s h c =
          IsFound-chosen id keys (matching p cfg id keys) (holding id (some keys)) (missing id) s h
            refl refl c (refl, tt, c)
      Keeps-look_up_step (missing id) s h c = (refl, serves s.world, c)
      Keeps-look_up_step (received_again id (err e)) s h c = (refl, tt, c)
      Keeps-look_up_step (received_again id (ok keys)) s h c = (refl, tt, h)
      Keeps-look_up_step (refreshed_again id) s h c = Keeps-search_again id s.cache.jwks s c c
      Keeps-look_up_step (finished id r) s h c = (refl, h, c)

      KeepsAll-look_up_step_at :
          (i : ℕ) (xs : List (Lookup K)) (s : State W K)
          → All IsSound xs
          → IsCached s.cache.jwks
          → KeepsAll xs (look_up_step_at p cfg i xs s)
      unfolding look_up_step_at
      KeepsAll-look_up_step_at i [] s h c = (refl, tt, c)
      KeepsAll-look_up_step_at zero (x ∷ xs) s h c =
          let (same, sound, cached) = Keeps-look_up_step x s h.0 c in
          (ap (λ id. id ∷ map id_of xs) same, (sound, h.1), cached)
      KeepsAll-look_up_step_at (suc i) (x ∷ xs) s h c =
          let (same, sound, cached) = KeepsAll-look_up_step_at i xs s h.1 c in
          (ap (λ ids. id_of x ∷ ids) same, (h.0, sound), cached)

      KeepsAll-look_ups :
          (is : List ℕ) (xs : List (Lookup K)) (s : State W K)
          → All IsSound xs
          → IsCached s.cache.jwks
          → KeepsAll xs (look_ups p cfg is xs s)
      unfolding look_ups
      KeepsAll-look_ups [] xs s h c = (refl, h, c)
      KeepsAll-look_ups (i ∷ is) xs s h c =
          let (same, sound, cached) = KeepsAll-look_up_step_at i xs s h c in
          let r = look_up_step_at p cfg i xs s in
          let (same', sound', cached') = KeepsAll-look_ups is r.0 r.1 sound cached in
          (same' ∙ same, sound', cached')

      All-IsSound-begin : (ids : List String) → All IsSound (map begin ids)
      All-IsSound-begin [] = tt
      All-IsSound-begin (id ∷ ids) = (tt, All-IsSound-begin ids)

      abbrev IsCachedIfStarted : Result String (State W K) × W → Type 0
      IsCachedIfStarted (err e, w) = Unit
      IsCachedIfStarted (ok s, w) = IsCached s.cache.jwks

      IsCachedIfStarted-started :
          (r : Result String (Unit {0}) × State W K) (c : State W K)
          → Leaves p cfg c r
          → IsServed (fetched p cfg r).0
          → IsCachedIfStarted (started p cfg r)
      unfolding started
      IsCachedIfStarted-started (err e, s) c h served = tt
      IsCachedIfStarted-started (ok u, s) c (keys, f, e) served =
          subst (λ o. Served (keys_of p cfg o) → IsCached o) (sym (ap (λ k. k.jwks) e)) (λ m. m)
            served

      IsCachedIfStarted-new_authenticator : (w : W) → IsCachedIfStarted (new_authenticator p cfg w)
      unfolding new_authenticator fetch
      IsCachedIfStarted-new_authenticator w =
          let s : State W K = record {
            cache = record { jwks = none; last_refresh = 0 };
            world = w;
          } in
          IsCachedIfStarted-started (refresh_jwks p cfg s) s (refresh_jwks-Leaves p cfg s)
            (serves w)

      -- When the keys that the endpoint delivers always have a property, then, whatever look-ups run
      -- after the start of the authenticator, and in whatever order their steps follow each other,
      -- each look-up is for its own ID, every key that one ends with is the first match for that ID
      -- among keys with the property, and the cache never loses such keys.
      pub KeepsAll-look_ups-new_authenticator :
          (is : List ℕ) (ids : List String) (w w' : W) (s : State W K)
          → new_authenticator p cfg w ≡ (ok s, w')
          → KeepsAll (map begin ids) (look_ups p cfg is (map begin ids) s)
      KeepsAll-look_ups-new_authenticator is ids w w' s e =
          KeepsAll-look_ups is (map begin ids) s (All-IsSound-begin ids)
            (subst IsCachedIfStarted e (IsCachedIfStarted-new_authenticator w))
