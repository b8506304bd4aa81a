-- ===== src/Bindings.antt =====
-- pkg/bindings/tools.go: the tool that invokes an output binding. A result of none is the panic of
-- the handler when it reads the data of a nil response.
pub mod Outcome
use dapr_mcp.Base.{
  String, true, false, Option, none, some, List, [], ◌∷◌, if◌then◌else◌, Dict, format, Result, ok,
  err, ◌==◌,
}
use dapr_mcp.Mcp.{
  ToolResult, tool_error, tool_success, text_value, Act, Inject, with_context, unless_empty,
}
use dapr_mcp.Invoke.{Json}

-- `dapr.InvokeBindingRequest`; its data is nil if there is none.
pub record InvokeBindingRequest : Type 0 where
  pub name : String
  pub operation : String
  pub payload : Option String
  pub metadata : Dict String

-- The response is a pointer to a `dapr.BindingEvent`, of which the data is read.
pub record BindingsClient (W : Type 0) : Type 0 where
  pub invoke_binding : InvokeBindingRequest → Act W (Option String)

pub record InvokeBindingArgs : Type 0 where
  pub binding_name : String
  pub operation : String
  pub payload : String
  pub metadata : Dict String

abbrev pub binding_request : Inject → InvokeBindingArgs → InvokeBindingRequest
binding_request inject args = record {
  name = args.binding_name;
  operation = args.operation;
  payload = unless_empty args.payload;
  metadata = with_context inject args.metadata;
}

abbrev pub data_text : String → Option String → String
data_text raw none = format ("\n\nResponse Data (Raw):\n" ∷ raw ∷ [])
data_text raw (some pretty) = format ("\n\nResponse Data:\n" ∷ pretty ∷ [])

-- The handler after the call.
abbrev pub binding_result :
    {W : Type 0}
    → Json
    → InvokeBindingArgs
    → Result String (Option String) × W
    → Option ToolResult × W
binding_result json args (err e, w) = (
  some (
      tool_error (
        format (
          "Failed to invoke binding '" ∷ args.binding_name ∷ "' with operation '" ∷ args.operation
          ∷ "'. Dapr Error: " ∷ e ∷ []))),
  w,
)
binding_result json args (ok none, w) = (none, w)
binding_result json args (ok (some payload), w) = (
  some (
      tool_success
        (format (
          "Successfully invoked output binding '"
          ∷ args.binding_name
          ∷ "' with operation '"
          ∷ args.operation
          ∷ "'."
          ∷ (if payload == "" then "" else data_text payload (json.indent payload))
          ∷ []))
        (("binding_name", text_value args.binding_name)
          ∷ ("operation", text_value args.operation)
          ∷ ("response_data", text_value payload)
          ∷ [])),
  w,
)

module _ {W : Type 0} (client : BindingsClient W) (inject : Inject) (json : Json) where
  unfoldable pub invoke_output_binding_tool : InvokeBindingArgs → W → Option ToolResult × W
  invoke_output_binding_tool args w =
      binding_result json args (client.invoke_binding (binding_request inject args) w)
