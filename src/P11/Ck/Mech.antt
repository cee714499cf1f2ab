-- ===== src/P11/Ck/Mech.antt =====
-- vtok_p11/src/pkcs11.rs: the mechanism types that the provider supports.
use aws_nitro_enclaves_acm.Prelude.{ℕ}

abbrev pub ckm_rsa_pkcs : ℕ
ckm_rsa_pkcs = 1

abbrev pub ckm_rsa_x_509 : ℕ
ckm_rsa_x_509 = 3

abbrev pub ckm_sha1_rsa_pkcs : ℕ
ckm_sha1_rsa_pkcs = 6

abbrev pub ckm_rsa_pkcs_pss : ℕ
ckm_rsa_pkcs_pss = 13

abbrev pub ckm_sha1_rsa_pkcs_pss : ℕ
ckm_sha1_rsa_pkcs_pss = 14

abbrev pub ckm_sha256_rsa_pkcs : ℕ
ckm_sha256_rsa_pkcs = 64

abbrev pub ckm_sha384_rsa_pkcs : ℕ
ckm_sha384_rsa_pkcs = 65

abbrev pub ckm_sha512_rsa_pkcs : ℕ
ckm_sha512_rsa_pkcs = 66

abbrev pub ckm_sha256_rsa_pkcs_pss : ℕ
ckm_sha256_rsa_pkcs_pss = 67

abbrev pub ckm_sha384_rsa_pkcs_pss : ℕ
ckm_sha384_rsa_pkcs_pss = 68

abbrev pub ckm_sha512_rsa_pkcs_pss : ℕ
ckm_sha512_rsa_pkcs_pss = 69

abbrev pub ckm_sha224_rsa_pkcs : ℕ
ckm_sha224_rsa_pkcs = 70

abbrev pub ckm_sha224_rsa_pkcs_pss : ℕ
ckm_sha224_rsa_pkcs_pss = 71

abbrev pub ckm_sha_1 : ℕ
ckm_sha_1 = 544

abbrev pub ckm_sha256 : ℕ
ckm_sha256 = 592

abbrev pub ckm_sha224 : ℕ
ckm_sha224 = 597

abbrev pub ckm_sha384 : ℕ
ckm_sha384 = 608

abbrev pub ckm_sha512 : ℕ
ckm_sha512 = 624

abbrev pub ckm_ecdsa : ℕ
ckm_ecdsa = 4161

abbrev pub ckm_ecdsa_sha1 : ℕ
ckm_ecdsa_sha1 = 4162

abbrev pub ckm_ecdsa_sha224 : ℕ
ckm_ecdsa_sha224 = 4163

abbrev pub ckm_ecdsa_sha256 : ℕ
ckm_ecdsa_sha256 = 4164

abbrev pub ckm_ecdsa_sha384 : ℕ
ckm_ecdsa_sha384 = 4165

abbrev pub ckm_ecdsa_sha512 : ℕ
ckm_ecdsa_sha512 = 4166

abbrev pub ckg_mgf1_sha1 : ℕ
ckg_mgf1_sha1 = 1

abbrev pub ckg_mgf1_sha256 : ℕ
ckg_mgf1_sha256 = 2

abbrev pub ckg_mgf1_sha384 : ℕ
ckg_mgf1_sha384 = 3

abbrev pub ckg_mgf1_sha512 : ℕ
ckg_mgf1_sha512 = 4

abbrev pub ckg_mgf1_sha224 : ℕ
ckg_mgf1_sha224 = 5
