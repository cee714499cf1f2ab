-- ===== src/P11/Crypto/X509Lib.antt =====
-- The functions of libcrypto that vtok_p11/src/crypto/cert.rs calls, and those of crypto/key.rs that
-- read the parts of a key, as a parameter. A call that yields a pointer or fills a buffer gives none
-- where it fails.
use aws_nitro_enclaves_acm.Prelude.{Bool, Option, Bytes}
use aws_nitro_enclaves_acm.P11.Crypto.Evp.{Evp}

pub record X509Lib (E : Evp) : Type 1 where
  pub Rsa : Type 0
  pub EcKey : Type 0
  pub EcGroup : Type 0
  pub X509 : Type 0
  pub X509Store : Type 0
  pub X509StoreCtx : Type 0
  pub bn_bn2bin : E.Bignum → Bytes
  pub evp_pkey_get0_rsa : E.EvpPkey → Option Rsa
  -- RSA_get0_key: the modulus and the public exponent.
  pub rsa_get0_n : Rsa → Option E.Bignum
  pub rsa_get0_e : Rsa → Option E.Bignum
  pub evp_pkey_get0_ec_key : E.EvpPkey → Option EcKey
  -- Whether a BN_CTX, a CBB and a memory BIO can be had.
  pub bn_ctx_new : Bool
  pub cbb_init : Bool
  pub bio_new : Bool
  -- The bytes written, which are none where it fails.
  pub ec_key_key2buf : EcKey → Bytes
  pub ec_key_get0_group : EcKey → Option EcGroup
  pub ec_key_marshal_curve_name : EcGroup → Option Bytes
  -- A memory BIO over a text, the next certificate in it, and whether it is at its end.
  pub Bio : Type 0
  pub bio_new_mem_buf : Bytes → Option Bio
  pub pem_read_bio_x509 : Bio → Option X509 × Bio
  pub bio_eof : Bio → Bool
  -- X509_NAME_get0_der of the subject and of the issuer.
  pub subject_der : X509 → Option Bytes
  pub issuer_der : X509 → Option Bytes
  -- ASN1_INTEGER_to_BN of X509_get0_serialNumber
  pub serial_bn : X509 → Option E.Bignum
  pub i2d_x509 : X509 → Option Bytes
  pub x509_verify : X509 → E.EvpPkey → Bool
  pub x509_store_new : Option X509Store
  -- X509_V_FLAG_X509_STRICT | X509_V_FLAG_PARTIAL_CHAIN
  pub set_store_flags : X509Store → Option X509Store
  pub store_add_cert : X509Store → X509 → Option X509Store
  pub x509_store_ctx_new : Option X509StoreCtx
  pub store_ctx_init : X509StoreCtx → X509Store → X509 → Option X509StoreCtx
  -- The callback of the verification, and its purpose.
  pub set_verify_cb : X509StoreCtx → X509StoreCtx
  pub set_purpose_any : X509StoreCtx → X509StoreCtx
  pub x509_verify_cert : X509StoreCtx → Bool
