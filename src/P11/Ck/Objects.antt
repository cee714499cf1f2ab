-- ===== src/P11/Ck/Objects.antt =====
-- vtok_p11/src/pkcs11.rs: object classes, key types and certificates.
use aws_nitro_enclaves_acm.Prelude.{ℕ}

abbrev pub ck_false : ℕ
ck_false = 0

abbrev pub ck_true : ℕ
ck_true = 1

abbrev pub cko_certificate : ℕ
cko_certificate = 1

abbrev pub cko_public_key : ℕ
cko_public_key = 2

abbrev pub cko_private_key : ℕ
cko_private_key = 3

abbrev pub cko_mechanism : ℕ
cko_mechanism = 7

abbrev pub ckk_rsa : ℕ
ckk_rsa = 0

abbrev pub ckk_ec : ℕ
ckk_ec = 3

abbrev pub ckc_x_509 : ℕ
ckc_x_509 = 0

abbrev pub ck_certificate_category_unspecified : ℕ
ck_certificate_category_unspecified = 0

abbrev pub ck_certificate_category_token_user : ℕ
ck_certificate_category_token_user = 1

abbrev pub ck_certificate_category_authority : ℕ
ck_certificate_category_authority = 2

abbrev pub ck_certificate_category_other_entity : ℕ
ck_certificate_category_other_entity = 3

-- `u64::MAX`
abbrev pub ck_unavailable_information : ℕ
ck_unavailable_information = 18446744073709551615
