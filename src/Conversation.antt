-- ===== src/Conversation.antt =====
-- pkg/conversation/tools.go: the tool that sends a prompt to a language model. The type `F` of
-- temperatures, the random UUIDs and the JSON functions are parameters.
pub mod Outcome
use dapr_mcp.Base.{
  String, Bool, true, false, Option, none, some, List, [], ◌∷◌, ◌++◌, ℕ, suc, if◌then◌else◌, ltb,
  length, decimal, format, Result, ok, err, ◌==◌,
}
use dapr_mcp.Mcp.{
  ToolResult, Structured, null_object, decoded, Act, pure, fail, call, ◌>>=◌, answer, unless_empty,
}

pub record ConverseArgs (F : Type 0) : Type 0 where
  pub name : String
  pub prompt : String
  pub context_id : String
  pub temperature : F

-- `dapr.ConversationRequestAlpha2`, for one input with one message of the user; parameters, metadata
-- and tools are empty, and the tool choice is none.
pub record ConversationRequest (F : Type 0) : Type 0 where
  pub name : String
  pub context_id : Option String
  pub prompt : String
  pub scrub_pii : Bool
  pub temperature : F

-- One choice of the model. The tool calls are their texts in JSON.
pub record Message : Type 0 where
  pub content : String
  pub tool_calls : List String

pub record Choice : Type 0 where
  pub finish_reason : String
  pub message : Option Message

-- `dapr.ConversationResponseAlpha2`: the choices of each output.
abbrev pub ConversationResponse : Type 0
ConversationResponse = List (List Choice)

pub record ConversationClient (F W : Type 0) : Type 0 where
  pub converse_alpha2 : ConversationRequest F → Act W ConversationResponse

-- `temperature == 0.0` and the literal `0.7`.
pub record Temperatures (F : Type 0) : Type 0 where
  pub is_zero : F → Bool
  pub default : F

-- `json.MarshalIndent` of tool calls, and the JSON text of a response that `json.Unmarshal` reads
-- back into a map, if it does.
pub record Printing : Type 0 where
  pub print_calls : List String → String
  pub print_response : ConversationResponse → Option String

-- The context ID, from the result of `uuid.NewRandom` if the client gave none.
abbrev pub or_default_session : {W : Type 0} → Result String String × W → String × W
or_default_session (ok uuid, w) = (uuid, w)
or_default_session (err e, w) = ("default-session-id", w)

unfoldable pub context_of : {W : Type 0} → Act W String → String → W → String × W
context_of new_random id w = if id == "" then or_default_session (new_random w) else (id, w)

unfoldable pub converse_request :
    {F : Type 0} → Temperatures F → ConverseArgs F → String → ConversationRequest F
converse_request t args id = record {
  name = args.name;
  context_id = unless_empty id;
  prompt = args.prompt;
  scrub_pii = false;
  temperature = if t.is_zero args.temperature then t.default else args.temperature;
}

abbrev tool_call_lines : Printing → String → List String → List String
tool_call_lines json reason calls =
    if ltb 0 (length calls)
    then "Status: **TOOL CALL** (Reason: "
      ∷ reason
      ∷ ")\nTool Calls:\n"
      ∷ json.print_calls calls
      ∷ "\n"
      ∷ []
    else []

abbrev content_lines : String → String → List String
content_lines reason content =
    if content == ""
    then []
    else "Status: **MESSAGE** (Reason: " ∷ reason ∷ ")\nResponse Content:\n" ∷ content ∷ "\n" ∷ []

abbrev pub message_lines : Printing → ℕ → String → Option Message → List String
message_lines json i reason none = []
message_lines json i reason (some m) =
    "\n--- Choice " ∷ decimal i ∷ " ---\n" ∷ []
    ++ tool_call_lines json reason m.tool_calls
    ++ content_lines reason m.content

-- The loop over the choices, from the index `i` on.
unfoldable pub choice_lines : Printing → ℕ → List Choice → List String
choice_lines json i [] = []
choice_lines json i (c ∷ cs) =
    message_lines json i c.finish_reason c.message ++ choice_lines json (suc i) cs

abbrev pub structured_response : Option String → Structured
structured_response none = null_object
structured_response (some s) = decoded s

-- The last output, if there is one.
unfoldable pub last_output : ConversationResponse → Option (List Choice)
last_output [] = none
last_output (o ∷ []) = some o
last_output (o ∷ p ∷ os) = last_output (p ∷ os)

-- The result of the choices of the last output.
unfoldable pub choices_result :
    {W : Type 0}
    → Printing
    → String
    → ConversationResponse
    → Option (List Choice)
    → Act W ToolResult
unfolding choice_lines
choices_result json name resp none =
    fail (format ("LLM '" ∷ name ∷ "' returned an empty outputs list" ∷ []))
choices_result json name resp (some []) =
    fail (format ("LLM '" ∷ name ∷ "' returned no choices in the last output" ∷ []))
choices_result json name resp (some (c ∷ cs)) = pure (record {
  text = format (
      "LLM Conversation completed successfully with component '"
      ∷ name
      ∷ "'.\n"
      ∷ choice_lines json 0 (c ∷ cs));
  is_error = false;
  structured = some (structured_response (json.print_response resp));
})

module _ {F W : Type 0} (t : Temperatures F) (json : Printing) (new_random : Act W String) where
  -- `converseTool` after the choice of the context ID.
  unfoldable pub converse_in : ConversationClient F W → ConverseArgs F → String × W → ToolResult × W
  unfolding converse_request last_output choices_result
  converse_in client args (id, w) = answer (
      (do
        resp ←
            call (client.converse_alpha2 (converse_request t args id)) λ e.
              format ("dapr API error while conversing with LLM '" ∷ args.name ∷ "': " ∷ e ∷ [])
        choices_result json args.name resp (last_output resp))
        w)

  unfoldable pub converse_tool : ConversationClient F W → ConverseArgs F → W → ToolResult × W
  unfolding context_of converse_in
  converse_tool client args w = converse_in client args (context_of new_random args.context_id w)
