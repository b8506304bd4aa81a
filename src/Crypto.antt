-- ===== src/Crypto.antt =====
-- pkg/crypto/tools.go: the tools that encrypt and decrypt a text. A stream that the client returns
-- is the action of reading it to its end. A text that goes to the client or comes from it stands for
-- any bytes, as in a string of Go: the cipher text is neither encoded nor decoded.
use dapr_mcp.Base.{String, [], ◌∷◌, format}
use dapr_mcp.Mcp.{ToolResult, tool_success, text_value, Act, pure, call, ◌>>=◌, answer}

-- `dapr.EncryptOptions` and `dapr.DecryptOptions`.
pub record EncryptOptions : Type 0 where
  pub component_name : String
  pub key_name : String
  pub key_wrap_algorithm : String

pub record DecryptOptions : Type 0 where
  pub component_name : String
  pub key_name : String

pub record CryptoClient (W : Type 0) : Type 0 where
  pub encrypt : String → EncryptOptions → Act W (Act W String)
  pub decrypt : String → DecryptOptions → Act W (Act W String)

pub record EncryptArgs : Type 0 where
  pub component_name : String
  pub plain_text : String

pub record DecryptArgs : Type 0 where
  pub component_name : String
  pub cipher_text : String

abbrev pub rsa_key : String
rsa_key = "rsa-private-key.pem"

abbrev pub encrypt_options : EncryptArgs → EncryptOptions
encrypt_options args = record {
  component_name = args.component_name;
  key_name = rsa_key;
  key_wrap_algorithm = "RSA";
}

abbrev pub decrypt_options : DecryptArgs → DecryptOptions
decrypt_options args = record { component_name = args.component_name; key_name = rsa_key }

abbrev pub encrypted : EncryptArgs → String → ToolResult
encrypted args cipher =
    tool_success
      (format (
        "Successfully encrypted message using component '" ∷ args.component_name
        ∷ "'. Cipher text:\n" ∷ cipher ∷ []))
      (("cipher_text", text_value cipher) ∷ [])

abbrev pub decrypted : DecryptArgs → String → ToolResult
decrypted args plain =
    tool_success
      (format (
        "Successfully decrypted message using component '" ∷ args.component_name
        ∷ "'. Plain text:\n" ∷ plain ∷ []))
      (("plain_text", text_value plain) ∷ ("component_name", text_value args.component_name) ∷ [])

module _ {W : Type 0} (client : CryptoClient W) where
  unfoldable pub encrypt_tool : EncryptArgs → W → ToolResult × W
  encrypt_tool args w = answer (
      (do
        stream ←
            call (client.encrypt args.plain_text (encrypt_options args))
              λ e. format ("dapr Encrypt failed: " ∷ e ∷ [])
        cipher ← call stream λ e. format ("failed to read encrypted stream: " ∷ e ∷ [])
        pure (encrypted args cipher))
        w)

  unfoldable pub decrypt_tool : DecryptArgs → W → ToolResult × W
  decrypt_tool args w = answer (
      (do
        stream ←
            call (client.decrypt args.cipher_text (decrypt_options args))
              λ e. format ("dapr Decrypt failed: " ∷ e ∷ [])
        plain ← call stream λ e. format ("failed to read decrypted stream: " ∷ e ∷ [])
        pure (decrypted args plain))
        w)
