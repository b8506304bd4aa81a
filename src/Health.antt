-- ===== src/Health.antt =====
-- pkg/health/health.go: the answers to the probes of Kubernetes.
pub mod Probes
use dapr_mcp.Base.{
  ℕ, String, Bool, true, false, not, ◌&&◌, Option, none, some, List, [], ◌∷◌, ◌++◌, if◌then◌else◌,
  Result, ok, err,
}

pub data Status : Type 0 where
  healthy : Status
  unhealthy : Status
  degraded : Status

pub record CheckResult : Type 0 where
  pub status : Status
  pub component : String
  pub message : String
  pub latency : String

pub record HealthResponse : Type 0 where
  pub status : Status
  pub checks : List CheckResult
  pub version : String

-- What a handler writes: the status code, and the response that is encoded as JSON.
pub record Reply : Type 0 where
  pub code : ℕ
  pub response : HealthResponse

-- `Handler`, without its logger. The client's `GetMetadata`, its time-out included, acts on the
-- world; `elapsed` is the text of the time between two worlds.
pub record Handler (W : Type 0) : Type 0 where
  pub dapr_client : Option (W → Result String (Unit {0}) × W)
  pub elapsed : W → W → String
  pub version : String
  pub ready : Bool
  pub startup_done : Bool

abbrev server_checks : Bool → List CheckResult
server_checks true = []
server_checks false =
    record { status = unhealthy; component = "server"; message = "server not ready"; latency = "" }
    ∷ []

abbrev is_healthy : Status → Bool
is_healthy healthy = true
is_healthy unhealthy = false
is_healthy degraded = false

-- The overall status after the check of the sidecar.
abbrev lowered : Status → Status → Status
lowered check overall =
    if is_healthy check then overall else if is_healthy overall then degraded else overall

module _ {W : Type 0} where
  abbrev pub new_handler :
      Option (W → Result String (Unit {0}) × W) → (W → W → String) → String → Handler W
  new_handler client elapsed version = record {
    dapr_client = client;
    elapsed = elapsed;
    version = version;
    ready = true;
    startup_done = true;
  }

  -- `NewChecker`: a handler without a version.
  abbrev pub new_checker : Option (W → Result String (Unit {0}) × W) → (W → W → String) → Handler W
  new_checker client elapsed = new_handler client elapsed ""

  abbrev pub set_ready : Bool → Handler W → Handler W
  set_ready b h = record h { ready = b }

  abbrev pub set_startup_done : Bool → Handler W → Handler W
  set_startup_done b h = record h { startup_done = b }

  -- `LivenessHandler`.
  abbrev pub liveness : Handler W → W → Reply × W
  liveness h w = (
    record { code = 200; response = record { status = healthy; checks = []; version = h.version } },
    w,
  )

  -- `StartupHandler`.
  pub startup : Handler W → W → Reply × W
  startup h w = (
    record {
      code = if h.startup_done then 200 else 503;
      response = record {
        status = if h.startup_done then healthy else unhealthy;
        checks = [];
        version = h.version;
      };
    },
    w,
  )

  reported : Handler W → W → Result String (Unit {0}) × W → CheckResult × W
  reported h before (err e, w) = (
    record { status = unhealthy; component = "dapr"; message = e; latency = h.elapsed before w },
    w,
  )
  reported h before (ok u, w) = (
    record {
      status = healthy;
      component = "dapr";
      message = "sidecar connected";
      latency = h.elapsed before w;
    },
    w,
  )

  check_client : Handler W → Option (W → Result String (Unit {0}) × W) → W → CheckResult × W
  check_client h none w = (
    record {
      status = unhealthy;
      component = "dapr";
      message = "dapr client not initialized";
      latency = "";
    },
    w,
  )
  check_client h (some get_metadata) w = reported h w (get_metadata w)

  -- `checkDapr`.
  pub check_dapr : Handler W → W → CheckResult × W
  unfolding reported check_client
  check_dapr h w = check_client h h.dapr_client w

  abbrev server_status : Handler W → Status
  server_status h = if h.ready then healthy else unhealthy

  ready_reply : Handler W → Status → List CheckResult → Reply
  ready_reply h status checks = record {
    code = if h.ready then 200 else 503;
    response = record { status = status; checks = checks; version = h.version };
  }

  with_check : Handler W → CheckResult × W → Reply × W
  with_check h (check, w) = (
    ready_reply h (lowered check.status (server_status h)) (server_checks h.ready ++ check ∷ []),
    w,
  )

  ready_with : Handler W → Option (W → Result String (Unit {0}) × W) → W → Reply × W
  ready_with h none w = (ready_reply h (server_status h) (server_checks h.ready), w)
  ready_with h (some get_metadata) w = with_check h (check_dapr h w)

  -- `ReadinessHandler`.
  pub readiness : Handler W → W → Reply × W
  unfolding check_dapr ready_reply with_check ready_with
  readiness h w = ready_with h h.dapr_client w
