-- ===== src/Mcp.antt =====
-- What the tools of all packages share: the results that a tool returns to the MCP client, and the
-- way a handler calls the Dapr client and returns early with an error result.
pub mod Outcomes
pub mod Calls
use dapr_mcp.Base.{
  String, Bool, true, false, Option, none, some, List, [], ◌∷◌, Dict, insert, ℤ, Result, ok, err,
  if◌then◌else◌, ◌==◌,
}

-- The values that stand in the structured results: texts, numbers and flags, tables of these
-- (`map[string]string`, `map[string]int`), and lists of such tables.
pub data Scalar : Type 0 where
  text : String → Scalar
  number : ℤ → Scalar
  flag : Bool → Scalar

pub data Value : Type 0 where
  scalar : Scalar → Value
  table : Dict Scalar → Value
  rows : List (Dict Scalar) → Value

-- The structured result of a tool: an object, a nil map in its place, a list of objects, or what
-- `json.Unmarshal` makes of the text of an object.
pub data Structured : Type 0 where
  object : Dict Value → Structured
  null_object : Structured
  array : List (Dict Scalar) → Structured
  decoded : String → Structured

-- `mcp.CallToolResult` with the structured result beside it. A handler's Go error is always nil.
pub record ToolResult : Type 0 where
  pub text : String
  pub is_error : Bool
  pub structured : Option Structured

-- `toolError`.
abbrev pub tool_error : String → ToolResult
tool_error message = record { text = message; is_error = true; structured = none }

-- `toolSuccess`.
abbrev pub tool_success : String → Dict Value → ToolResult
tool_success message structured = record {
  text = message;
  is_error = false;
  structured = some (object structured);
}

-- `propagator.Inject`: adds the entries of the request's trace context to a map.
abbrev pub Inject : Type 0
Inject = Dict String → Dict String

-- The loop that copies the user's metadata into a new map.
unfoldable pub copy_into : Dict String → Dict String → Dict String
copy_into [] out = out
copy_into ((k, v) ∷ m) out = copy_into m (insert k v out)

-- The metadata that a request carries: the user's, and the trace context.
unfoldable pub with_context : Inject → Dict String → Dict String
unfolding copy_into
with_context inject metadata = inject (copy_into metadata [])

-- A call of a Dapr client acts on the world outside and returns a value or an error's text.
abbrev pub Act : Type 0 → Type 0 → Type 0
Act W A = W → Result String A × W

module _ {W A : Type 0} where
  abbrev pub pure : A → Act W A
  pure a w = (ok a, w)

  -- `return toolError(message), nil, nil`.
  abbrev pub fail : String → Act W A
  fail message w = (err message, w)

  abbrev pub lift : Result String A → Act W A
  lift r w = (r, w)

  abbrev pub wrap_error : (String → String) → Result String A × W → Result String A × W
  wrap_error message (ok a, w) = (ok a, w)
  wrap_error message (err e, w) = (err (message e), w)

  -- A call whose error is reported by the message made of it.
  abbrev pub call : Act W A → (String → String) → Act W A
  call m message w = wrap_error message (m w)

module _ {W A B : Type 0} where
  abbrev pub continue : (A → Act W B) → Result String A × W → Result String B × W
  continue f (ok a, w) = f a w
  continue f (err e, w) = (err e, w)

  infixl 5 ◌>>=◌ ◌>>◌
  abbrev pub ◌>>=◌ : Act W A → (A → Act W B) → Act W B
  ◌>>=◌ m f w = continue f (m w)

  abbrev pub ◌>>◌ : Act W A → Act W B → Act W B
  m >> n = m >>= λ _. n

-- An error of the chain is the tool's error result.
abbrev pub answer : {W : Type 0} → Result String ToolResult × W → ToolResult × W
answer (ok r, w) = (r, w)
answer (err e, w) = (tool_error e, w)

-- Entries of a structured result.
abbrev pub text_value : String → Value
text_value s = scalar (text s)

abbrev pub number_value : ℤ → Value
number_value n = scalar (number n)

abbrev pub flag_value : Bool → Value
flag_value b = scalar (flag b)

-- An entry that is set only if there is a value for it.
abbrev pub entry_if {ℓ} : {V : Type ℓ} → String → Option V → Dict V
entry_if key none = []
entry_if key (some v) = (key, v) ∷ []

-- A text that counts only if it is not empty.
abbrev pub unless_empty : String → Option String
unless_empty s = if s == "" then none else some s
