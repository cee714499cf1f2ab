-- ===== src/Srv/Kms.antt =====
-- vtok_srv/src/worker.rs, `decrypt_token_keys`. The KMS client (aws_ne) and the base64 crate are
-- arguments.
pub mod Decrypted
use aws_nitro_enclaves_acm.Prelude.{
  Option, List, [], ◌∷◌, Bytes, from_utf8, Result, ok, ok_or, ◌>>=◌,
}
use aws_nitro_enclaves_acm.Common.Config
use aws_nitro_enclaves_acm.Rpc.Schema.{
  EnvelopeKey, kms, PrivateKey, ApiError, token_key_decoding_failed, kms_decrypt_failed,
  token_provisioning_failed,
}

pub record Kms : Type 0 where
  -- aws_ne::kms_decrypt: region, access key id, secret access key, session token, ciphertext
  pub kms_decrypt : Bytes → Bytes → Bytes → Bytes → Bytes → Option Bytes
  -- base64::decode
  pub decode : Bytes → Option Bytes

-- The plaintext of a ciphertext under the envelope key.
unfoldable pub decrypt_with : Kms → EnvelopeKey → Bytes → Option Bytes
decrypt_with k (kms region access_key_id secret_access_key session_token) ciphertext =
    k.kms_decrypt region access_key_id secret_access_key session_token ciphertext

unfoldable pub decrypt_pem : Kms → EnvelopeKey → Bytes → Result ApiError Bytes
decrypt_pem k envelope_key encrypted_pem_b64 = do
  ciphertext ← ok_or (k.decode encrypted_pem_b64) token_key_decoding_failed
  plaintext ← ok_or (decrypt_with k envelope_key ciphertext) kms_decrypt_failed
  ok_or (from_utf8 plaintext) token_provisioning_failed

unfoldable pub decrypt_token_keys :
    Kms → EnvelopeKey → List PrivateKey → Result ApiError (List Config.PrivateKey)
decrypt_token_keys k envelope_key [] = ok []
decrypt_token_keys k envelope_key (key ∷ keys) = do
  pem ← decrypt_pem k envelope_key key.encrypted_pem_b64
  rest ← decrypt_token_keys k envelope_key keys
  ok (
      record {
        pem = pem;
        encrypted_pem_b64 = key.encrypted_pem_b64;
        id = key.id;
        label = key.label;
        cert_pem = key.cert_pem;
      }
      ∷ rest)
