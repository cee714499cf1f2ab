-- ===== src/P11/Ck/Attrs.antt =====
-- vtok_p11/src/pkcs11.rs: attribute types.
use aws_nitro_enclaves_acm.Prelude.{ℕ}

abbrev pub cka_class : ℕ
cka_class = 0

abbrev pub cka_token : ℕ
cka_token = 1

abbrev pub cka_private : ℕ
cka_private = 2

abbrev pub cka_label : ℕ
cka_label = 3

abbrev pub cka_value : ℕ
cka_value = 17

abbrev pub cka_certificate_type : ℕ
cka_certificate_type = 128

abbrev pub cka_issuer : ℕ
cka_issuer = 129

abbrev pub cka_serial_number : ℕ
cka_serial_number = 130

abbrev pub cka_trusted : ℕ
cka_trusted = 134

abbrev pub cka_certificate_category : ℕ
cka_certificate_category = 135

abbrev pub cka_key_type : ℕ
cka_key_type = 256

abbrev pub cka_subject : ℕ
cka_subject = 257

abbrev pub cka_id : ℕ
cka_id = 258

abbrev pub cka_sensitive : ℕ
cka_sensitive = 259

abbrev pub cka_encrypt : ℕ
cka_encrypt = 260

abbrev pub cka_decrypt : ℕ
cka_decrypt = 261

abbrev pub cka_wrap : ℕ
cka_wrap = 262

abbrev pub cka_sign : ℕ
cka_sign = 264

abbrev pub cka_verify : ℕ
cka_verify = 266

abbrev pub cka_derive : ℕ
cka_derive = 268

abbrev pub cka_modulus : ℕ
cka_modulus = 288

abbrev pub cka_modulus_bits : ℕ
cka_modulus_bits = 289

abbrev pub cka_public_exponent : ℕ
cka_public_exponent = 290

abbrev pub cka_private_exponent : ℕ
cka_private_exponent = 291

abbrev pub cka_prime_1 : ℕ
cka_prime_1 = 292

abbrev pub cka_prime_2 : ℕ
cka_prime_2 = 293

abbrev pub cka_exponent_1 : ℕ
cka_exponent_1 = 294

abbrev pub cka_exponent_2 : ℕ
cka_exponent_2 = 295

abbrev pub cka_coefficient : ℕ
cka_coefficient = 296

abbrev pub cka_extractable : ℕ
cka_extractable = 354

abbrev pub cka_local : ℕ
cka_local = 355

abbrev pub cka_ec_params : ℕ
cka_ec_params = 384

abbrev pub cka_ec_point : ℕ
cka_ec_point = 385

abbrev pub cka_always_authenticate : ℕ
cka_always_authenticate = 514

abbrev pub cka_mechanism_type : ℕ
cka_mechanism_type = 1280
