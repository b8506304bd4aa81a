-- ===== src/Secrets.antt =====
-- pkg/secrets/tools.go: the tools that read secrets. The entries of a map stand in the order in
-- which `range` delivers them; `json.MarshalIndent` is a parameter.
use dapr_mcp.Base.{
  String, true, some, [], ◌∷◌, length, map, Dict, keys, join, decimal, format, Result, ok, err,
}
use dapr_mcp.Mcp.{
  ToolResult, tool_success, null_object, text, table, text_value, Act, Inject, with_context, pure,
  call, ◌>>=◌,
}

pub record SecretsClient (W : Type 0) : Type 0 where
  pub get_secret : String → String → Dict String → Act W (Dict String)
  pub get_bulk_secret : String → Dict String → Act W (Dict (Dict String))

pub record GetSecretArgs : Type 0 where
  pub store_name : String
  pub secret_name : String
  pub metadata : Dict String

pub record GetBulkSecretArgs : Type 0 where
  pub store_name : String
  pub metadata : Dict String

abbrev pub values_of : {A B : Type 0} → (A → B) → Dict A → Dict B
values_of f m = map (λ e. (e.0, f e.1)) m

-- The structured result of a failed call is a nil map.
abbrev pub answer_typed : {W : Type 0} → Result String ToolResult × W → ToolResult × W
answer_typed (ok r, w) = (r, w)
answer_typed (err e, w) = (record { text = e; is_error = true; structured = some null_object }, w)

module _ {W : Type 0} (client : SecretsClient W) (inject : Inject) where
  unfoldable pub get_secret_tool : (Dict String → String) → GetSecretArgs → W → ToolResult × W
  get_secret_tool print args w = answer_typed (
      (do
        secrets ←
            call
              (client.get_secret args.store_name args.secret_name
                (with_context inject args.metadata))
              λ e. format ("failed to get secret '" ∷ args.secret_name ∷ "': " ∷ e ∷ [])
        pure (
            tool_success
              (format (
                "Successfully retrieved secret '"
                ∷ args.secret_name
                ∷ "' from store '"
                ∷ args.store_name
                ∷ "'. It contains the following key(s): "
                ∷ join (keys secrets) ", "
                ∷ ".\n\nJSON Value:\n"
                ∷ print secrets
                ∷ []))
              (values_of text_value secrets)))
        w)

  unfoldable pub get_bulk_secret_tool :
      (Dict (Dict String) → String) → GetBulkSecretArgs → W → ToolResult × W
  get_bulk_secret_tool print args w = answer_typed (
      (do
        secrets ←
            call (client.get_bulk_secret args.store_name (with_context inject args.metadata)) λ e.
              format ("failed to get bulk secrets from store '" ∷ args.store_name ∷ "': " ∷ e ∷ [])
        pure (
            tool_success
              (format (
                "Successfully retrieved "
                ∷ decimal (length secrets)
                ∷ " secret(s) in bulk from store '"
                ∷ args.store_name
                ∷ "'. Names retrieved: "
                ∷ join (keys secrets) ", "
                ∷ ".\n\nJSON Value:\n"
                ∷ print secrets
                ∷ []))
              (values_of (λ m. table (values_of text m)) secrets)))
        w)
