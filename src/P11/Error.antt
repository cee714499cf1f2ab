-- ===== src/P11/Error.antt =====
-- vtok_p11: the errors of crypto/mod.rs, backend/token.rs and lib.rs, and their return values.
use aws_nitro_enclaves_acm.Prelude.{ℕ}
use aws_nitro_enclaves_acm.P11.Ck.Rv

-- crypto::Error
pub data CryptoError : Type 0 where
  bad_flow bad_mech bad_mgf bad_sig_format bignum_alloc data_missing : CryptoError
  digest_failed digest_init digest_final digest_sign digest_sign_final : CryptoError
  digest_sign_update digest_update direct_sign md_ctx_init general_failure : CryptoError
  operation_active pkey_ctx_init pkey_ctx_ctl sign_init verify_init digest_verify : CryptoError
  digest_verify_final digest_verify_update direct_verify decrypt_init : CryptoError
  direct_decrypt encrypt_init encrypt_failed bad_key_type unknown_key_type : CryptoError
  cert_bad_pem cert_name cert_issuer cert_serial_no cert_der_encode : CryptoError
  cert_chain_err cert_chain_invalid : CryptoError

-- backend::db::Error
pub data DbError : Type 0 where
  db_general_error : DbError
  db_crypto_error pem_error : CryptoError → DbError

-- backend::token::Error
pub data TokenError : Type 0 where
  db_load : DbError → TokenError
  mech_not_found pin_incorrect session_count bad_session_handle : TokenError
  lock_poisoned already_logged_in not_logged_in uninitialised : TokenError

pub data Error : Type 0 where
  ck_error : ℕ → Error
  crypto_error : CryptoError → Error
  key_handle_invalid key_type_inconsistent mechanism_invalid : Error
  operation_not_initialized session_handle_invalid session_lock_poisoned : Error
  slot_id_invalid user_not_logged_in : Error
  token_error : TokenError → Error
  token_not_present token_uninit general_error : Error

unfoldable pub ck_rv : Error → ℕ
ck_rv (ck_error code) = code
ck_rv (crypto_error data_missing) = Rv.ckr_data_len_range
ck_rv (crypto_error operation_active) = Rv.ckr_operation_active
ck_rv (crypto_error digest_verify_final) = Rv.ckr_signature_invalid
ck_rv (crypto_error digest_verify) = Rv.ckr_signature_invalid
ck_rv (crypto_error direct_verify) = Rv.ckr_signature_invalid
ck_rv key_handle_invalid = Rv.ckr_key_handle_invalid
ck_rv key_type_inconsistent = Rv.ckr_key_type_inconsistent
ck_rv mechanism_invalid = Rv.ckr_mechanism_invalid
ck_rv operation_not_initialized = Rv.ckr_operation_not_initialized
ck_rv session_handle_invalid = Rv.ckr_session_handle_invalid
ck_rv slot_id_invalid = Rv.ckr_slot_id_invalid
ck_rv user_not_logged_in = Rv.ckr_user_not_logged_in
ck_rv token_not_present = Rv.ckr_token_not_present
ck_rv (token_error session_count) = Rv.ckr_session_count
ck_rv (token_error bad_session_handle) = Rv.ckr_session_handle_invalid
ck_rv (token_error already_logged_in) = Rv.ckr_user_already_logged_in
ck_rv (token_error not_logged_in) = Rv.ckr_user_not_logged_in
ck_rv (token_error mech_not_found) = Rv.ckr_mechanism_invalid
ck_rv (token_error pin_incorrect) = Rv.ckr_pin_incorrect
ck_rv _ = Rv.ckr_general_error
