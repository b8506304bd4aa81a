-- ===== src/Telemetry/Middleware.antt =====
-- pkg/telemetry/middleware.go: the response writer that notes the status code and counts the bytes
-- written. The writer below it is a parameter.
use dapr_mcp.Base.{ℕ, String, List, ◌+◌, Option}

-- `http.ResponseWriter`, with its headers left out: the number of bytes written comes with an error.
pub record ResponseWriter (W : Type 0) : Type 0 where
  pub write_header : ℕ → W → W
  pub write : List ℕ → W → (ℕ × Option String) × W

-- `ResponseWriterWrapper`, beside the writer that it wraps.
pub record Wrapper : Type 0 where
  pub status_code : ℕ
  pub written : ℕ

-- `NewResponseWriterWrapper`.
abbrev pub new_wrapper : Wrapper
new_wrapper = record { status_code = 200; written = 0 }

module _ {W : Type 0} (below : ResponseWriter W) where
  -- `WriteHeader` and `Write`.
  unfoldable pub write_header : ℕ → Wrapper × W → Wrapper × W
  write_header code (r, w) = (record r { status_code = code }, below.write_header code w)

  abbrev pub count_written : Wrapper → (ℕ × Option String) × W → (ℕ × Option String) × Wrapper × W
  count_written r ((n, e), w) = ((n, e), record r { written = r.written + n }, w)

  unfoldable pub write : List ℕ → Wrapper × W → (ℕ × Option String) × Wrapper × W
  write bytes (r, w) = count_written r (below.write bytes w)
