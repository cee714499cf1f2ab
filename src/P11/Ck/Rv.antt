-- ===== src/P11/Ck/Rv.antt =====
-- vtok_p11/src/pkcs11.rs: the return values that the provider uses.
use aws_nitro_enclaves_acm.Prelude.{ℕ}

abbrev pub ckr_ok : ℕ
ckr_ok = 0

abbrev pub ckr_slot_id_invalid : ℕ
ckr_slot_id_invalid = 3

abbrev pub ckr_general_error : ℕ
ckr_general_error = 5

abbrev pub ckr_arguments_bad : ℕ
ckr_arguments_bad = 7

abbrev pub ckr_attribute_sensitive : ℕ
ckr_attribute_sensitive = 17

abbrev pub ckr_attribute_type_invalid : ℕ
ckr_attribute_type_invalid = 18

abbrev pub ckr_data_len_range : ℕ
ckr_data_len_range = 33

abbrev pub ckr_device_error : ℕ
ckr_device_error = 48

abbrev pub ckr_key_handle_invalid : ℕ
ckr_key_handle_invalid = 96

abbrev pub ckr_key_type_inconsistent : ℕ
ckr_key_type_inconsistent = 99

abbrev pub ckr_mechanism_invalid : ℕ
ckr_mechanism_invalid = 112

abbrev pub ckr_operation_active : ℕ
ckr_operation_active = 144

abbrev pub ckr_operation_not_initialized : ℕ
ckr_operation_not_initialized = 145

abbrev pub ckr_pin_incorrect : ℕ
ckr_pin_incorrect = 160

abbrev pub ckr_session_count : ℕ
ckr_session_count = 177

abbrev pub ckr_session_handle_invalid : ℕ
ckr_session_handle_invalid = 179

abbrev pub ckr_session_parallel_not_supported : ℕ
ckr_session_parallel_not_supported = 180

abbrev pub ckr_session_read_only_exists : ℕ
ckr_session_read_only_exists = 183

abbrev pub ckr_signature_invalid : ℕ
ckr_signature_invalid = 192

abbrev pub ckr_signature_len_range : ℕ
ckr_signature_len_range = 193

abbrev pub ckr_token_not_present : ℕ
ckr_token_not_present = 224

abbrev pub ckr_token_write_protected : ℕ
ckr_token_write_protected = 226

abbrev pub ckr_user_already_logged_in : ℕ
ckr_user_already_logged_in = 256

abbrev pub ckr_user_not_logged_in : ℕ
ckr_user_not_logged_in = 257

abbrev pub ckr_user_type_invalid : ℕ
ckr_user_type_invalid = 259

abbrev pub ckr_buffer_too_small : ℕ
ckr_buffer_too_small = 336

abbrev pub ckr_cryptoki_not_initialized : ℕ
ckr_cryptoki_not_initialized = 400

abbrev pub ckr_cryptoki_already_initialized : ℕ
ckr_cryptoki_already_initialized = 401
