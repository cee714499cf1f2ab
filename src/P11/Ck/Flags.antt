-- ===== src/P11/Ck/Flags.antt =====
-- vtok_p11/src/pkcs11.rs: flags, session states and user types.
use aws_nitro_enclaves_acm.Prelude.{ℕ}

abbrev pub ckf_token_present : ℕ
ckf_token_present = 1

abbrev pub ckf_rw_session : ℕ
ckf_rw_session = 2

abbrev pub ckf_serial_session : ℕ
ckf_serial_session = 4

abbrev pub ckf_hw : ℕ
ckf_hw = 1

abbrev pub ckf_encrypt : ℕ
ckf_encrypt = 256

abbrev pub ckf_decrypt : ℕ
ckf_decrypt = 512

abbrev pub ckf_digest : ℕ
ckf_digest = 1024

abbrev pub ckf_sign : ℕ
ckf_sign = 2048

abbrev pub ckf_verify : ℕ
ckf_verify = 8192

abbrev pub ckf_ec_f_p : ℕ
ckf_ec_f_p = 1048576

abbrev pub ckf_ec_namedcurve : ℕ
ckf_ec_namedcurve = 8388608

abbrev pub ckf_ec_uncompress : ℕ
ckf_ec_uncompress = 16777216

abbrev pub cku_so : ℕ
cku_so = 0

abbrev pub cku_user : ℕ
cku_user = 1

abbrev pub cku_context_specific : ℕ
cku_context_specific = 2

abbrev pub cks_ro_public_session : ℕ
cks_ro_public_session = 0

abbrev pub cks_ro_user_functions : ℕ
cks_ro_user_functions = 1
