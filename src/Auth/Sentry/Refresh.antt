-- ===== src/Auth/Sentry/Refresh.antt =====
-- When the cached keys are fetched again, and what a failed fetch leaves.
use dapr_mcp.Base.{
  String, false, Option, none, some, List, [], ◌∷◌, Result, ok, err, ◌≡◌, ◌≢◌, arith, refl, ap, ◌∙◌,
  nat_eq, inl, inr, Bool-cases,
}
use dapr_mcp.Auth.Config.{DaprSentryConfig}
use dapr_mcp.Auth.Sentry.{
  WebKey, HttpResponse, Packages, State, is_stale, store, failed, read_body, receive, request_keys,
  keys_of, refresh_jwks, matching, first_key, search_again, search, search_in, get_signing_key,
}

module _ {W J K : Type 0} (p : Packages W J K) (cfg : DaprSentryConfig) where
  -- What the endpoint is found to have: keys, if the request can be made and is answered with code
  -- 200 and a body that can be read and parsed, and none otherwise; and the world after the request.
  pub data Fetched (s : State W K) : Option (List (WebKey K)) → W → Type 0 where
    not_requested : (e : String) → p.request_error cfg.jwks_url ≡ some e → Fetched s none s.world
    not_answered :
        (e : String) (v : W)
        → p.request_error cfg.jwks_url ≡ none
        → p.get cfg.jwks_url s.world ≡ (err e, v)
        → Fetched s none v
    refused :
        (answer : HttpResponse) (v : W)
        → p.request_error cfg.jwks_url ≡ none
        → p.get cfg.jwks_url s.world ≡ (ok answer, v)
        → answer.status_code ≢ 200
        → Fetched s none v
    not_read :
        (answer : HttpResponse) (e : String) (v : W)
        → p.request_error cfg.jwks_url ≡ none
        → p.get cfg.jwks_url s.world ≡ (ok answer, v)
        → answer.body ≡ err e
        → Fetched s none v
    not_parsed :
        (answer : HttpResponse) (body e : String) (v : W)
        → p.request_error cfg.jwks_url ≡ none
        → p.get cfg.jwks_url s.world ≡ (ok answer, v)
        → answer.body ≡ ok body
        → p.unmarshal body ≡ err e
        → Fetched s none v
    delivered :
        (answer : HttpResponse) (body : String) (keys : List (WebKey K)) (v : W)
        → p.request_error cfg.jwks_url ≡ none
        → p.get cfg.jwks_url s.world ≡ (ok answer, v)
        → answer.status_code ≡ 200
        → answer.body ≡ ok body
        → p.unmarshal body ≡ ok keys
        → Fetched s (some keys) v

  abbrev pub Leaves : State W K → Result String (Unit {0}) × State W K → Type 0
  Leaves s (err e, s') = Fetched s none s'.world × (s'.cache ≡ s.cache)
  Leaves s (ok u, s') =
      (keys : List (WebKey K)) × Fetched s (some keys) s'.world
      × (s'.cache ≡ record { jwks = some keys; last_refresh = p.now s'.world })

  module _ (s : State W K) (made : p.request_error cfg.jwks_url ≡ none) where
    module _ (answer : HttpResponse) (v : W)
        (answered : p.get cfg.jwks_url s.world ≡ (ok answer, v)) where
      Leaves-store :
          (body : String) (r : Result String (List (WebKey K)))
          → answer.status_code ≡ 200
          → answer.body ≡ ok body
          → p.unmarshal body ≡ r
          → Leaves s (store p cfg s.cache r v)
      unfolding store failed
      Leaves-store body (err e) good read r =
          (not_parsed answer body e v made answered read r, refl)
      Leaves-store body (ok keys) good read r =
          (keys, delivered answer body keys v made answered good read r, refl)

      Leaves-read_body :
          (b : Result String String)
          → answer.status_code ≡ 200
          → answer.body ≡ b
          → Leaves s (read_body p cfg s.cache b v)
      unfolding read_body failed
      Leaves-read_body (err e) good read = (not_read answer e v made answered read, refl)
      Leaves-read_body (ok body) good read = Leaves-store body (p.unmarshal body) good read refl

    Leaves-receive :
        (r : Result String HttpResponse × W)
        → p.get cfg.jwks_url s.world ≡ r
        → Leaves s (receive p cfg s.cache r)
    unfolding receive failed
    Leaves-receive (err e, v) answered = (not_answered e v made answered, refl)
    Leaves-receive (ok answer, v) answered = elim (Bool-cases (nat_eq answer.status_code 200)) [
      | inl e ↦ rw e (Leaves-read_body answer v answered answer.body (ground (arith, e)) refl)
      | inr e ↦ rw e (refused answer v made answered (λ same. ground (arith, e, same)), refl)
    ]

  Leaves-request_keys :
      (s : State W K) (o : Option String)
      → p.request_error cfg.jwks_url ≡ o
      → Leaves s (request_keys p cfg o s)
  unfolding request_keys failed
  Leaves-request_keys s (some e) h = (not_requested e h, refl)
  Leaves-request_keys s none h = Leaves-receive s h (p.get cfg.jwks_url s.world) refl

  -- A refresh asks the endpoint once. If the request can be made and is answered with code 200 and a
  -- body that parses to keys, it succeeds, and the cache holds just these keys, dated with the time
  -- after the request. In every other case it fails, and leaves the cached keys and their date as
  -- they were.
  pub refresh_jwks-Leaves : (s : State W K) → Leaves s (refresh_jwks p cfg s)
  unfolding refresh_jwks
  refresh_jwks-Leaves s = Leaves-request_keys s (p.request_error cfg.jwks_url) refl

  -- While the cached keys are fresh and one of them matches, that key is the answer, and nothing is
  -- requested: the cache and the world stay as they are.
  pub get_signing_key_cached :
      (key_id : String) (s : State W K) (keys rest : List (WebKey K)) (k : WebKey K)
      → is_stale (p.now s.world) s.cache.last_refresh cfg.refresh_interval ≡ false
      → s.cache.jwks ≡ some keys
      → matching p cfg key_id keys ≡ k ∷ rest
      → get_signing_key p cfg key_id s ≡ (ok k.key, s)
  unfolding get_signing_key search_in search first_key
  get_signing_key_cached key_id s keys rest k fresh cached found =
      rw fresh
        (ap (λ o. search_in p cfg key_id o s) cached ∙ ap (λ ks. search p cfg key_id ks s) found)

  -- A key that the fresh cache does not have is asked for once: if the refresh brings keys of which
  -- one matches, that key is the answer.
  pub get_signing_key_rotated :
      (key_id : String) (s s' : State W K) (keys fetched rest : List (WebKey K)) (k : WebKey K)
      → is_stale (p.now s.world) s.cache.last_refresh cfg.refresh_interval ≡ false
      → s.cache.jwks ≡ some keys
      → matching p cfg key_id keys ≡ []
      → refresh_jwks p cfg s ≡ (ok tt, s')
      → s'.cache.jwks ≡ some fetched
      → matching p cfg key_id fetched ≡ k ∷ rest
      → get_signing_key p cfg key_id s ≡ (ok k.key, s')
  unfolding get_signing_key search_in search search_again first_key
  get_signing_key_rotated key_id s s' keys fetched rest k fresh cached missing refreshed stored
        found =
      rw fresh (
        ap (λ o. search_in p cfg key_id o s) cached
        ∙ ap (λ ks. search p cfg key_id ks s) missing
        ∙ ap (search_again p cfg key_id) refreshed
        ∙ ap (λ o. first_key p cfg key_id (matching p cfg key_id (keys_of p cfg o)) s') stored
        ∙ ap (λ ks. first_key p cfg key_id ks s') found)
