-- ===== src/Examples/Server.antt =====
-- cmd/dapr-mcp-server at concrete inputs. The world counts the seconds slept.
use dapr_mcp.Base.{
  has_suffix, has_prefix, trim_suffix, ℕ, ◌+◌, String, true, none, [], ◌∷◌, Dict, has_key, IsMap,
  ok, err, if◌then◌else◌, ◌==◌, ltb, ◌≡◌, ◌≢◌, refl, split, cut, trim_space,
}
use dapr_mcp.Mcp.{Act}
use dapr_mcp.Workflow.Config.{apps_env_var, parse_apps_config}
use dapr_mcp.Workflow.Registry.{new_registry, client_for}
use dapr_mcp.Workflow.Registry.Laws.{is_ok}
use dapr_mcp.Auth.{Identity, Authenticator}
use dapr_mcp.Auth.Config.{validate, validate_oidc}
use dapr_mcp.Server.Connect.{connect_with_retry, more_attempts, initialize_workflow_apps}
use dapr_mcp.Server.Connect.Attempts.{Attempted, connect_with_retry-Attempted}
use dapr_mcp.Server.Connect.Pool.{initialize_workflow_apps_accepts}
use dapr_mcp.Server.Authentication.{Constructors, auth_middleware, build_authenticators}
use dapr_mcp.Server.Start.{Outside, start, started_with, protect}
use dapr_mcp.Server.Start.Ready.{IsReady, start-IsReady}
use dapr_mcp.Server.Http.{Propagator, http_routes, http_middleware, mcp_endpoint, http_server}
use dapr_mcp.Server.Http.Routes.{is_open, Guards, http_server-Guards}
use dapr_mcp.Health.{Reply}
use dapr_mcp.Health as Health
use dapr_mcp.Metadata.{MetadataClient, get_live_component_list}
use dapr_mcp.Auth.Middleware.{Handler, Request, Response, should_skip, extract_token_with_source}
use dapr_mcp.Examples.Workflow.{sidecar, Log}
use dapr_mcp.Examples.Auth.{settings}

-- A sidecar that is up after four seconds.
abbrev late : Act ℕ String
late n = if ltb n 4 then (err "refused", n) else (ok "client", n)

abbrev two_seconds : ℕ → ℕ
two_seconds n = n + 2

connect_with_retry-Attempted_example :
    Attempted two_seconds late more_attempts 0 (connect_with_retry two_seconds late 0)
connect_with_retry-Attempted_example = connect_with_retry-Attempted two_seconds late 0

abbrev dial : String → Act Log String
dial addr w = (ok addr, w)

abbrev one_address : Dict String
one_address = ("a", "h:1") ∷ []

parsed : parse_apps_config "a=h:1" ≡ ok (("a", "h:1") ∷ [])
unfolding parse_apps_config split cut trim_space
parsed = refl

started :
    initialize_workflow_apps (λ w. w) dial (λ c. sidecar) (λ m. m) "a=h:1" []
    ≡ (ok (("a", sidecar) ∷ []), [])
unfolding initialize_workflow_apps connect_with_retry parse_apps_config split cut trim_space
started = refl

initialize_workflow_apps_accepts_example :
    IsMap (("a", sidecar) ∷ [])
    × ((k : String) → has_key k (("a", sidecar) ∷ []) ≡ has_key k one_address)
    × ((k : String)
        → has_key k one_address ≡ true
        → k ≢ ""
        → is_ok (client_for (new_registry sidecar "server" (("a", sidecar) ∷ [])) k) ≡ true)
initialize_workflow_apps_accepts_example =
    initialize_workflow_apps_accepts (λ w. w) dial (λ c. sidecar) (λ m. m) "a=h:1" one_address
      sidecar "server" (("a", sidecar) ∷ []) [] [] (λ k. refl) parsed started

abbrev anyone : Authenticator ℕ
anyone = record { mode = "oidc"; authenticate = λ token n. (ok nobody, n) }
  where
    nobody : Identity
    nobody = record {
      subject = "";
      issuer = "";
      audience = [];
      email = "";
      name = "";
      claims = [];
      auth_method = "oidc";
    }

abbrev constructors : Constructors ℕ
constructors = record {
  new_oidc = λ c n. (ok anyone, n);
  new_spiffe = λ c n. (ok anyone, n);
  new_dapr_sentry = λ c n. (err "down", n);
}

valid : validate settings ≡ none
unfolding validate validate_oidc
valid = refl

-- A sidecar without components and without an ID.
abbrev bare : MetadataClient Log
bare = record { get_metadata = λ w. (ok [], w) }

abbrev pub outside : Outside Log String
outside = record {
  getenv = λ key. if key == apps_env_var then "a=h:1" else "";
  sleep = λ w. w;
  connect = λ w. (ok "client", w);
  dial = dial;
  workflow_client = λ c. sidecar;
  metadata_client = λ c. bare;
  metadata_id = λ c w. (ok none, w);
  order = λ m. m;
}

start-IsReady_example :
    IsReady outside one_address (started_with outside "client" "default" (("a", sidecar) ∷ []) [])
unfolding start initialize_workflow_apps connect_with_retry parse_apps_config split cut trim_space
    get_live_component_list
start-IsReady_example = start-IsReady outside one_address [] (λ k. refl) parsed

abbrev anonymous : Request
anonymous = record { path = "/mcp"; header = λ name. ""; context = record { identity = none } }

abbrev silent : Handler ℕ
silent r n = (record { status = 200; body = "" }, n)

-- The trace context is not looked at, and replies are their codes.
abbrev untraced : Propagator ℕ
untraced = record { extract = λ header n. n; inject = λ n. n }

abbrev by_code : Reply → Response
by_code reply = record { status = reply.code; body = "" }

abbrev probes : Health.Handler ℕ
probes = Health.new_handler none (λ v w. "0s") "v1"

not_skipped : should_skip settings.skip_paths anonymous.path ≡ true → is_open anonymous.path ≡ true
unfolding should_skip has_suffix has_prefix trim_suffix
not_skipped e = cc

http_server-Guards_example :
    Guards
      (λ f. "")
      (λ c. "")
      constructors
      settings
      untraced
      by_code
      probes
      silent
      anonymous
      (http_routes by_code probes (
        auth_middleware constructors settings
          (λ c. "")
          (anyone ∷ [])
          (http_middleware untraced (mcp_endpoint untraced silent))))
unfolding http_server protect validate validate_oidc build_authenticators should_skip
    extract_token_with_source has_suffix has_prefix trim_suffix
http_server-Guards_example =
    http_server-Guards (λ f. "") (λ c. "") constructors settings untraced by_code probes silent
      anonymous 0 refl refl refl not_skipped
