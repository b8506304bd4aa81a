-- ===== src/Invoke.antt =====
-- pkg/invoke/tools.go: the tool that calls a method of another service. `json.Indent` and
-- `json.Unmarshal` are parameters.
use dapr_mcp.Base.{
  String, Bool, false, Option, none, some, [], ◌∷◌, if◌then◌else◌, Dict, format, ◌==◌,
}
use dapr_mcp.Mcp.{
  ToolResult, Structured, object, decoded, text_value, Act, pure, call, ◌>>=◌, answer,
}

-- `dapr.DataContent`.
pub record DataContent : Type 0 where
  pub content_type : String
  pub payload : String

pub record InvokeClient (W : Type 0) : Type 0 where
  pub invoke_method_with_content : String → String → String → DataContent → Act W String

pub record InvokeServiceArgs : Type 0 where
  pub app_id : String
  pub method : String
  pub payload : String
  pub http_verb : String
  pub metadata : Dict String

-- `json.Indent`, if the text is JSON, and whether `json.Unmarshal` reads it into a map.
pub record Json : Type 0 where
  pub indent : String → Option String
  pub is_object : String → Bool

unfoldable pub verb_of : InvokeServiceArgs → String
verb_of args = if args.http_verb == "" then "POST" else args.http_verb

abbrev pub or_raw : String → Option String → String
or_raw raw none = raw
or_raw raw (some s) = s

-- The structured result of `invokeServiceTool`.
unfoldable pub service_result : Json → InvokeServiceArgs → String → Structured
service_result json args resp =
    if resp == ""
    then object (
        ("status", text_value "success_no_content")
        ∷ ("app_id", text_value args.app_id)
        ∷ ("method", text_value args.method)
        ∷ [])
    else if json.is_object resp
    then decoded resp
    else object (
        ("raw_response", text_value resp)
        ∷ ("app_id", text_value args.app_id)
        ∷ ("method", text_value args.method)
        ∷ [])

-- The metadata is merged with the trace context, and the result not used.
module _ {W : Type 0} (client : InvokeClient W) (json : Json) where
  unfoldable pub invoke_service_tool : InvokeServiceArgs → W → ToolResult × W
  unfolding verb_of service_result
  invoke_service_tool args w = answer (
      (do
        resp ←
            call
              (client.invoke_method_with_content args.app_id args.method (verb_of args)
                (record { content_type = "application/json"; payload = args.payload }))
              λ e. format ("failed to invoke service method: " ∷ e ∷ [])
        pure (record {
          text = format (
              "Successfully invoked service '"
              ∷ args.app_id
              ∷ "' method '"
              ∷ args.method
              ∷ "' ("
              ∷ verb_of args
              ∷ "). The service responded with data/status.\n\nResponse:\n"
              ∷ or_raw resp (json.indent resp)
              ∷ []);
          is_error = false;
          structured = some (service_result json args resp);
        }))
        w)
