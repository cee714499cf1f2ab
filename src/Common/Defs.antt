-- ===== src/Common/Defs.antt =====
-- vtok_common/src/lib.rs, the module `defs`.
use aws_nitro_enclaves_acm.Prelude.{ℕ, ◌*◌, ◌^◌, Bytes, codes}

abbrev pub manufacturer : Bytes
manufacturer = codes "Amazon"

abbrev pub device_max_slots : ℕ
device_max_slots = 128

abbrev pub token_expiry_secs : ℕ
token_expiry_secs = 48 * 3600

abbrev pub token_model : Bytes
token_model = codes "p11ne-token"

abbrev pub token_min_pin_len : ℕ
token_min_pin_len = 4

abbrev pub token_max_pin_len : ℕ
token_max_pin_len = 64

abbrev pub token_min_label_len : ℕ
token_min_label_len = 1

abbrev pub token_max_label_len : ℕ
token_max_label_len = 32

abbrev pub token_max_sessions : ℕ
token_max_sessions = 1024

-- The number of values of a `u64`.
abbrev pub u64_mod : ℕ
u64_mod = 2 ^ 64
