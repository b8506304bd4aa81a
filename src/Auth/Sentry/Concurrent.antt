-- ===== src/Auth/Sentry/Concurrent.antt =====
-- pkg/auth/sentry.go: look-ups of signing keys by concurrent requests. The mutex makes each reading
-- and each writing of the cache one step; between two steps of a look-up any other may run.
pub mod Sound
pub mod Alone
use dapr_mcp.Base.{
  ℕ, zero, suc, String, Option, none, some, List, [], ◌∷◌, if◌then◌else◌, Result, ok, err, format,
  All, ◌≡◌, refl, sym, ap, subst, ◌∙◌, Bool-cases, inl, inr, map,
}
use dapr_mcp.Auth.Config.{DaprSentryConfig}
use dapr_mcp.Auth.Sentry.{
  WebKey, Packages, Cache, State, is_stale, keys_of, refresh_jwks, matching, started,
  new_authenticator,
}

-- A call of `getSigningKey` for a key ID: before its first reading, with an expired cache, with the
-- keys of its first request, after writing them, with the keys that it has read, without a match,
-- with the keys of its second request, after writing those, and at its end.
pub data Lookup (K : Type 0) : Type 0 where
  begin : String → Lookup K
  expired : String → Lookup K
  received : String → Result String (List (WebKey K)) → Lookup K
  refreshed : String → Lookup K
  holding : String → Option (List (WebKey K)) → Lookup K
  missing : String → Lookup K
  received_again : String → Result String (List (WebKey K)) → Lookup K
  refreshed_again : String → Lookup K
  finished : String → Result String K → Lookup K

abbrev pub id_of : {K : Type 0} → Lookup K → String
id_of (begin id) = id
id_of (expired id) = id
id_of (received id r) = id
id_of (refreshed id) = id
id_of (holding id o) = id
id_of (missing id) = id
id_of (received_again id r) = id
id_of (refreshed_again id) = id
id_of (finished id r) = id

module _ {W J K : Type 0} (p : Packages W J K) (cfg : DaprSentryConfig) where
  abbrev pub fetched : Result String (Unit {0}) × State W K → Result String (List (WebKey K)) × W
  fetched (err e, s) = (err e, s.world)
  fetched (ok u, s) = (ok (keys_of p cfg s.cache.jwks), s.world)

  -- `refreshJWKS` up to its writing: the keys that the endpoint delivers.
  unfoldable pub fetch : W → Result String (List (WebKey K)) × W
  fetch w =
      fetched (
        refresh_jwks p cfg (record { cache = record { jwks = none; last_refresh = 0 }; world = w }))

  -- The end of `refreshJWKS`, under the lock.
  abbrev pub write_keys : List (WebKey K) → State W K → State W K
  write_keys keys s = record s { cache = record { jwks = some keys; last_refresh = p.now s.world } }

  abbrev pub chosen : String → List (WebKey K) → Lookup K → Lookup K
  chosen id [] otherwise = otherwise
  chosen id (k ∷ ks) otherwise = finished id (ok k.key)

  abbrev pub sent :
      (Result String (List (WebKey K)) → Lookup K)
      → State W K
      → Result String (List (WebKey K)) × W
      → Lookup K × State W K
  sent next s (r, w) = (next r, record s { world = w })

  -- One step of a look-up.
  unfoldable pub look_up_step : Lookup K → State W K → Lookup K × State W K
  unfolding fetch
  look_up_step (begin id) s = (
    if is_stale (p.now s.world) s.cache.last_refresh cfg.refresh_interval
        then expired id
        else holding id s.cache.jwks,
    s,
  )
  look_up_step (expired id) s = sent (received id) s (fetch s.world)
  look_up_step (received id (err e)) s = (refreshed id, s)
  look_up_step (received id (ok keys)) s = (refreshed id, write_keys keys s)
  look_up_step (refreshed id) s = (holding id s.cache.jwks, s)
  look_up_step (holding id none) s = (finished id (err "no JWKS available"), s)
  look_up_step (holding id (some keys)) s = (chosen id (matching p cfg id keys) (missing id), s)
  look_up_step (missing id) s = sent (received_again id) s (fetch s.world)
  look_up_step (received_again id (err e)) s = (
    finished id (err (format ("key " ∷ p.quote id ∷ " not found and refresh failed: " ∷ e ∷ []))),
    s,
  )
  look_up_step (received_again id (ok keys)) s = (refreshed_again id, write_keys keys s)
  look_up_step (refreshed_again id) s = (
    chosen id (matching p cfg id (keys_of p cfg s.cache.jwks))
        (finished id (err (format ("key " ∷ p.quote id ∷ " not found in JWKS" ∷ [])))),
    s,
  )
  look_up_step (finished id r) s = (finished id r, s)

  -- The look-up at an index makes a step; a schedule names the look-ups in turn.
  unfoldable pub look_up_step_at : ℕ → List (Lookup K) → State W K → List (Lookup K) × State W K
  look_up_step_at i [] s = ([], s)
  look_up_step_at zero (x ∷ xs) s = let (x', s') = look_up_step x s in (x' ∷ xs, s')
  look_up_step_at (suc i) (x ∷ xs) s = let (xs', s') = look_up_step_at i xs s in (x ∷ xs', s')

  unfoldable pub look_ups : List ℕ → List (Lookup K) → State W K → List (Lookup K) × State W K
  look_ups [] xs s = (xs, s)
  look_ups (i ∷ is) xs s = let (xs', s') = look_up_step_at i xs s in look_ups is xs' s'
