-- ===== src/Rpc/Schema.antt =====
-- vtok_rpc/src/api.rs, the module `schema::v1`, with the error type of `validators`.
use aws_nitro_enclaves_acm.Prelude.{ℕ, Option, List, Bytes, Result}

-- validators::Error
pub data ArgError : Type 0 where
  duplicate_key_id : ℕ → ArgError
  duplicate_key_label : Bytes → ArgError
  label_too_long label_too_short pin_too_long pin_too_short : ArgError

pub data EnvelopeKey : Type 0 where
  kms : (region access_key_id secret_access_key session_token : Bytes) → EnvelopeKey

pub record PrivateKey : Type 0 where
  pub encrypted_pem_b64 : Bytes
  pub id : ℕ
  pub label : Bytes
  pub cert_pem : Option Bytes

pub record Token : Type 0 where
  pub label : Bytes
  pub pin : Bytes
  pub envelope_key : EnvelopeKey
  pub keys : List PrivateKey

pub data ApiRequest : Type 0 where
  add_token : Token → ApiRequest
  describe_device : ApiRequest
  describe_token : (label pin : Bytes) → ApiRequest
  refresh_token : (label pin : Bytes) → EnvelopeKey → ApiRequest
  remove_token : (label pin : Bytes) → ApiRequest
  update_token : (label pin : Bytes) → Token → ApiRequest

pub record PrivateKeyDescription : Type 0 where
  pub label : Bytes
  pub id : ℕ
  pub uri : Bytes

pub record TokenDescription : Type 0 where
  pub label : Bytes
  pub slot_id : ℕ
  pub ttl_secs : ℕ
  pub keys : Option (List PrivateKeyDescription)

pub record DeviceDescription : Type 0 where
  pub free_slot_count : ℕ
  pub tokens : List TokenDescription

pub data ApiOk : Type 0 where
  nothing : ApiOk
  device_description : DeviceDescription → ApiOk
  token_description : TokenDescription → ApiOk

pub data ApiError : Type 0 where
  access_denied empty_token : ApiError
  invalid_args : ArgError → ApiError
  internal_error token_label_in_use token_not_found too_many_tokens : ApiError
  token_provisioning_failed token_refresh_failed token_key_decoding_failed : ApiError
  kms_decrypt_failed : ApiError

abbrev pub ApiResponse : Type 0
ApiResponse = Result ApiError ApiOk
