-- ===== src/P11/Crypto/Evp.antt =====
-- The functions of libcrypto that vtok_p11/src/crypto calls (declared in crypto/ffi.rs), as a
-- parameter. A call that yields a pointer or fills a buffer gives none where it fails; one that
-- only fills a buffer gives the bytes written. A number that the code takes for an error when it is
-- not positive is 0 there. A context is a value, and a call that changes it gives the new one.
use aws_nitro_enclaves_acm.Prelude.{ℕ, Bool, Option, Bytes}

pub record Evp : Type 1 where
  pub EvpPkey : Type 0
  pub EvpMd : Type 0
  -- An EVP_MD_CTX with the EVP_PKEY_CTX that it owns, or an EVP_PKEY_CTX.
  pub EvpCtx : Type 0
  pub Bignum : Type 0
  pub pem_read_private_key : Bytes → Option EvpPkey
  pub evp_pkey_id : EvpPkey → ℕ
  pub evp_pkey_bits : EvpPkey → ℕ
  pub evp_pkey_size : EvpPkey → ℕ
  pub evp_sha1 : EvpMd
  pub evp_sha224 : EvpMd
  pub evp_sha256 : EvpMd
  pub evp_sha384 : EvpMd
  pub evp_sha512 : EvpMd
  pub evp_md_size : EvpMd → ℕ
  pub evp_md_ctx_new : Option EvpCtx
  pub evp_pkey_ctx_new : EvpPkey → Option EvpCtx
  pub evp_digest_init_ex : EvpCtx → EvpMd → Option EvpCtx
  pub evp_digest_update : EvpCtx → Bytes → EvpCtx × Bool
  pub evp_digest_final_ex : EvpCtx → Option Bytes
  pub evp_digest : EvpMd → Bytes → Option Bytes
  pub evp_digest_sign_init : EvpCtx → EvpMd → EvpPkey → Option EvpCtx
  pub evp_digest_sign_update : EvpCtx → Bytes → EvpCtx × Bool
  pub evp_digest_sign_final : EvpCtx → ℕ → Option Bytes
  pub evp_digest_sign : EvpCtx → ℕ → Bytes → Option Bytes
  pub evp_pkey_sign_init : EvpCtx → Option EvpCtx
  pub evp_pkey_sign : EvpCtx → ℕ → Bytes → Option Bytes
  pub evp_pkey_ctx_has_pkey : EvpCtx → Bool
  pub evp_digest_verify_init : EvpCtx → EvpMd → EvpPkey → Option EvpCtx
  pub evp_digest_verify_update : EvpCtx → Bytes → EvpCtx × Bool
  pub evp_digest_verify_final : EvpCtx → Bytes → Bool
  pub evp_digest_verify : EvpCtx → Bytes → Bytes → Bool
  pub evp_pkey_verify_init : EvpCtx → Option EvpCtx
  pub evp_pkey_verify : EvpCtx → Bytes → Bytes → Bool
  pub evp_pkey_encrypt_init : EvpCtx → Option EvpCtx
  pub evp_pkey_encrypt : EvpCtx → ℕ → Bytes → Option Bytes
  pub evp_pkey_decrypt_init : EvpCtx → Option EvpCtx
  pub evp_pkey_decrypt : EvpCtx → ℕ → Bytes → Option Bytes
  pub set_rsa_padding : EvpCtx → ℕ → Option EvpCtx
  pub set_signature_md : EvpCtx → EvpMd → Option EvpCtx
  pub set_rsa_mgf1_md : EvpCtx → EvpMd → Option EvpCtx
  pub set_rsa_pss_saltlen : EvpCtx → ℕ → Option EvpCtx
  pub d2i_ecdsa_sig : Bytes → Option (Option Bignum × Option Bignum)
  pub i2d_ecdsa_sig : Bignum → Bignum → Option Bytes
  pub bn_bin2bn : Bytes → Option Bignum
  pub bn_num_bytes : Bignum → ℕ
  pub bn_bn2bin_padded : ℕ → Bignum → Option Bytes
