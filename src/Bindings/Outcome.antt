-- ===== src/Bindings/Outcome.antt =====
-- How the invocation of a binding ends.
use dapr_mcp.Base.{String, true, false, Option, none, some, [], ◌∷◌, Result, ok, err, ◌≡◌, refl}
use dapr_mcp.Mcp.{ToolResult, Inject, object, text_value}
use dapr_mcp.Invoke.{Json}
use dapr_mcp.Bindings.{
  BindingsClient, InvokeBindingArgs, binding_request, binding_result, invoke_output_binding_tool,
}

-- An error is reported, a response is returned with its payload, and no response is a panic.
abbrev pub Ends :
    {W : Type 0}
    → InvokeBindingArgs
    → Result String (Option String) × W
    → Option ToolResult × W
    → Type 0
Ends args (err e, w) t = (t.1 ≡ w) × ((r : ToolResult) × (t.0 ≡ some r) × (r.is_error ≡ true))
Ends args (ok none, w) t = t ≡ (none, w)
Ends args (ok (some payload), w) t =
    (t.1 ≡ w)
    × ((r : ToolResult) × (t.0 ≡ some r)
        × (r.is_error ≡ false)
        × (r.structured
            ≡ some (
                object (
                  ("binding_name", text_value args.binding_name)
                  ∷ ("operation", text_value args.operation)
                  ∷ ("response_data", text_value payload)
                  ∷ []))))

module _ {W : Type 0} (client : BindingsClient W) (inject : Inject) (json : Json) where
  ends :
      (args : InvokeBindingArgs) (r : Result String (Option String) × W)
      → Ends args r (binding_result json args r)
  ends args (err e, w) = (refl, (_, refl, refl))
  ends args (ok none, w) = refl
  ends args (ok (some payload), w) = (refl, (_, refl, refl, refl))

  -- The tool makes one call, with the user's arguments. A failed call is reported as an error, and
  -- the payload of a response is returned; the handler panics exactly when the client returns neither
  -- a response nor an error.
  pub invoke_output_binding_tool-Ends :
      (args : InvokeBindingArgs) (w : W)
      → Ends args
          (client.invoke_binding (binding_request inject args) w)
          (invoke_output_binding_tool client inject json args w)
  unfolding invoke_output_binding_tool
  invoke_output_binding_tool-Ends args w =
      ends args (client.invoke_binding (binding_request inject args) w)
