-- ===== src/Examples/Sentry.antt =====
-- pkg/auth/sentry.go at concrete inputs.
use dapr_mcp.Examples.Auth.{sentry}
use dapr_mcp.Base.{
  ℕ, suc, pos, String, false, none, some, List, [], ◌∷◌, ok, err, if◌then◌else◌, ◌==◌, ◌≡◌, ◌↔◌,
  refl, arith, Lacks, has_prefix, trim_prefix, cut, format,
}
use dapr_mcp.Auth.Sentry.{
  WebKey, SentryClaims, Packages, State, is_stale, is_valid_spiffe_id, identity_of, check_claims,
  refresh_jwks, get_signing_key, authenticate, new_authenticator,
}
use dapr_mcp.Auth.Sentry.Claims.{Meets, check_claims_iff}
use dapr_mcp.Auth.Sentry.Keys.{IsProven, authenticate_sound}
use dapr_mcp.Auth.Sentry.Refresh.{Leaves, refresh_jwks-Leaves}
use dapr_mcp.Auth.Sentry.Concurrent.{
  begin, finished, fetch, look_up_step, look_up_step_at, look_ups,
}
use dapr_mcp.Auth.Sentry.Concurrent.Sound.{IsServed, KeepsAll, KeepsAll-look_ups-new_authenticator}

pub no_slash : Lacks b'/' "td"
no_slash = ground arith

abbrev claims : SentryClaims
claims = record {
  id = "1";
  use_claim = "";
  subject = "spiffe://td/app";
  audience = "mcp" ∷ [];
  issued_at = none;
  not_before = none;
  expiry = some (pos 20);
}

check_claims_iff_example :
    (check_claims (λ s. s) sentry 5 claims ≡ ok (identity_of claims))
    ↔ (Meets sentry 5 claims × (identity_of claims ≡ identity_of claims))
check_claims_iff_example = check_claims_iff (λ s. s) sentry 5 claims (identity_of claims) no_slash

-- Keys are numbers, a token is its own parse and is signed by the key 7, and the world is the time.
abbrev pub packages : Packages ℕ String ℕ
packages = record {
  parse_signed = ok;
  header_key_ids = λ jwt. "k" ∷ [];
  verify = λ jwt key. ok claims;
  find_key = λ keys id. if id == "k" then keys else [];
  request_error = λ url. none;
  get = λ url n. (ok (record { status_code = 200; body = ok "keys" }), suc n);
  unmarshal = λ body. ok (record { key_id = "k"; key = 7 } ∷ []);
  now = λ n. n;
  quote = λ s. s;
}

abbrev pub seven : WebKey ℕ
seven = record { key_id = "k"; key = 7 }

abbrev fresh : State ℕ ℕ
fresh = record { cache = record { jwks = some (seven ∷ []); last_refresh = 4 }; world = 5 }

abbrev pub empty : State ℕ ℕ
empty = record { cache = record { jwks = some []; last_refresh = 4 }; world = 5 }

not_stale : is_stale 5 4 (pos 300) ≡ false
unfolding is_stale
not_stale = refl

accepted : authenticate packages sentry "token" fresh ≡ (ok (identity_of claims), fresh)
unfolding authenticate get_signing_key is_stale check_claims is_valid_spiffe_id has_prefix
    trim_prefix cut
accepted = refl

authenticate_sound_example : IsProven packages sentry "token" (identity_of claims) fresh
authenticate_sound_example =
    authenticate_sound packages sentry "token" no_slash fresh fresh (identity_of claims) accepted

refresh_jwks-Leaves_example : Leaves packages sentry empty (refresh_jwks packages sentry empty)
refresh_jwks-Leaves_example = refresh_jwks-Leaves packages sentry empty

abbrev refreshed : State ℕ ℕ
refreshed = record { cache = record { jwks = some (seven ∷ []); last_refresh = 6 }; world = 6 }

refresh_run : refresh_jwks packages sentry empty ≡ (ok tt, refreshed)
unfolding refresh_jwks
refresh_run = refl

-- The cached key is the only one that the endpoint has.
abbrev IsOnlySeven : List (WebKey ℕ) → Type 0
IsOnlySeven keys = keys ≡ seven ∷ []

serves_seven : (w : ℕ) → IsServed packages sentry IsOnlySeven (fetch packages sentry w).0
unfolding fetch refresh_jwks
serves_seven w = refl

started_run : new_authenticator packages sentry 5 ≡ (ok refreshed, 6)
unfolding new_authenticator
started_run = refl

KeepsAll-look_ups-new_authenticator_example :
    KeepsAll packages sentry IsOnlySeven (begin "k" ∷ begin "other" ∷ []) (
      look_ups packages sentry
        (0 ∷ 1 ∷ 1 ∷ 0 ∷ 1 ∷ 1 ∷ 1 ∷ [])
        (begin "k" ∷ begin "other" ∷ [])
        refreshed)
KeepsAll-look_ups-new_authenticator_example =
    KeepsAll-look_ups-new_authenticator packages sentry IsOnlySeven serves_seven
      (0 ∷ 1 ∷ 1 ∷ 0 ∷ 1 ∷ 1 ∷ 1 ∷ []) ("k" ∷ "other" ∷ []) 5 6 refreshed started_run

-- The two look-ups of that run are at their ends.
look_ups_run :
    look_ups packages sentry
      (0 ∷ 1 ∷ 1 ∷ 0 ∷ 1 ∷ 1 ∷ 1 ∷ [])
      (begin "k" ∷ begin "other" ∷ [])
      refreshed
    ≡ (
      finished "k" (ok 7) ∷ finished "other" (err "key other not found in JWKS") ∷ [],
      record { cache = record { jwks = some (seven ∷ []); last_refresh = 7 }; world = 7 },
    )
unfolding look_ups look_up_step_at look_up_step fetch is_stale refresh_jwks format
look_ups_run = refl
