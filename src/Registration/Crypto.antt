-- ===== src/Registration/Crypto.antt =====
-- pkg/crypto/tools.go: the tools that `RegisterTools` registers.
use dapr_mcp.Base.{true, false, List, [], ◌∷◌, some, format}
use dapr_mcp.Registration.Tool.{Tool}
use dapr_mcp.Mcp.{ToolResult}
use dapr_mcp.Crypto.{CryptoClient, EncryptArgs, DecryptArgs, encrypt_tool, decrypt_tool}

module _ {W : Type 0} (client : CryptoClient W) where
  unfoldable pub encrypt_data_entry : Tool W
  encrypt_data_entry = record {
    name = "encrypt_data";
    title = "Encrypt Sensitive Data for Confidentiality";
    description = format (
        "Encrypts arbitrary plain text data using a Dapr cryptography component. **This is a SIDE-EFFECT action (mutates data form) that is NOT IDEMPOTENT.** Use ONLY when the user explicitly says 'encrypt this' or 'store this encrypted'.\n\n"
        ∷ "**GUIDANCE:**\n"
        ∷ "1. Use `get_components` to find the `ComponentName` of the cryptography component.\n\n"
        ∷ "**ARGUMENT RULES:**\n"
        ∷ "1. **REQUIRED INPUTS**: You MUST provide non-empty values for `ComponentName` and `PlainText`.\n"
        ∷ "3. **CLARIFICATION**: If any required input is missing, you MUST ask the user for clarification.\n\n"
        ∷ "**WORKFLOW RULE**: The output from `encrypt_data` is the ciphertext to be used in subsequent storage or publication steps."
        ∷ []);
    annotations = record {
      read_only_hint = false;
      destructive_hint = some true;
      idempotent_hint = false;
      open_world_hint = some true;
    };
    Args = EncryptArgs;
    Reply = ToolResult;
    handler = encrypt_tool client;
  }

  unfoldable pub decrypt_data_entry : Tool W
  decrypt_data_entry = record {
    name = "decrypt_data";
    title = "Decrypt Sensitive Cipher Text";
    description = format (
        "Decrypts encrypted cipher text data back into its original plain text form. **This is a Data Retrieval operation (Read-Only) that IS IDEMPOTENT.** Use ONLY when the user explicitly requests to read data that was previously encrypted.\n\n"
        ∷ "**GUIDANCE:**\n"
        ∷ "1. Use `get_components` to find the `ComponentName` of the cryptography component.\n"
        ∷ "2. Ensure the `ComponentName` matches a valid cryptography component name.\n\n"
        ∷ "**ARGUMENT RULES:**\n"
        ∷ "1. **REQUIRED INPUTS**: You MUST provide non-empty values for `ComponentName` and `CipherText`.\n"
        ∷ "2. **OPTIONAL INPUTS**: If the required key is not embedded in the ciphertext header, you MUST ask the user for the explicit `KeyName`.\n"
        ∷ "3. **CLARIFICATION**: If any required input is missing, you MUST ask the user for clarification.\n\n"
        ∷ "**DEFAULTS:**\n"
        ∷ "- If `KeyName` is not provided, the tool will attempt to use the key embedded in the ciphertext header, if available."
        ∷ []);
    annotations = record {
      read_only_hint = true;
      destructive_hint = some false;
      idempotent_hint = true;
      open_world_hint = some true;
    };
    Args = DecryptArgs;
    Reply = ToolResult;
    handler = decrypt_tool client;
  }

  unfoldable pub crypto_tools : List (Tool W)
  unfolding encrypt_data_entry decrypt_data_entry
  crypto_tools = encrypt_data_entry ∷ decrypt_data_entry ∷ []
