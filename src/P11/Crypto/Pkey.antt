-- ===== src/P11/Crypto/Pkey.antt =====
-- vtok_p11/src/crypto/key.rs, and the conversions of vtok_p11/src/crypto/mod.rs.
use aws_nitro_enclaves_acm.Prelude.{
  ℕ, ◌%◌, ◌^◌, ◌+◌, ◌*◌, ◌/◌, ◌==◌, ◌||◌, leb, Option, none, some, ◌++◌, length, take, drop,
  replicate, Bytes, Result, ok, err, ok_or, ◌>>=◌, if◌then◌else◌,
}
use aws_nitro_enclaves_acm.P11.Ck.Mech
use aws_nitro_enclaves_acm.P11.Error.{
  CryptoError, bad_mech, bad_mgf, general_failure, pkey_ctx_ctl, unknown_key_type,
}
use aws_nitro_enclaves_acm.P11.Mechanism.{
  Mechanism, PssParams, digest, rsa_pkcs, rsa_pkcs_pss, rsa_x509, ecdsa,
}
use aws_nitro_enclaves_acm.P11.Crypto.Evp.{Evp}

pub data KeyAlgo : Type 0 where
  ec rsa : KeyAlgo

abbrev pub evp_pkey_rsa : ℕ
evp_pkey_rsa = 6

abbrev pub evp_pkey_ec : ℕ
evp_pkey_ec = 408

abbrev pub rsa_pkcs1_padding : ℕ
rsa_pkcs1_padding = 1

abbrev pub rsa_no_padding : ℕ
rsa_no_padding = 3

abbrev pub rsa_pkcs1_pss_padding : ℕ
rsa_pkcs1_pss_padding = 6

module _ (E : Evp) where
  -- Pkey::from_private_pem
  unfoldable pub from_private_pem : Bytes → Result CryptoError E.EvpPkey
  from_private_pem pem = ok_or (E.pem_read_private_key pem) general_failure

  -- Pkey::algo
  unfoldable pub algo : E.EvpPkey → Result CryptoError KeyAlgo
  algo pkey =
      if E.evp_pkey_id pkey == evp_pkey_rsa
      then ok rsa
      else if E.evp_pkey_id pkey == evp_pkey_ec
      then ok ec
      else err unknown_key_type

  -- Pkey::num_bits
  unfoldable pub num_bits : E.EvpPkey → Result CryptoError ℕ
  num_bits pkey =
      if E.evp_pkey_bits pkey == 0 then err general_failure else ok (E.evp_pkey_bits pkey)

  -- Pkey::sig_len
  unfoldable pub sig_len : E.EvpPkey → Result CryptoError ℕ
  sig_len pkey =
      if E.evp_pkey_size pkey == 0 then err general_failure else ok (E.evp_pkey_size pkey)

  abbrev sig_len_for : E.EvpPkey → KeyAlgo → Result CryptoError ℕ
  sig_len_for pkey ec = do bits ← num_bits pkey; ok ((bits + 7) / 8 * 2)
  sig_len_for pkey rsa = sig_len pkey

  -- Pkey::sig_len_ck
  unfoldable pub sig_len_ck : E.EvpPkey → Result CryptoError ℕ
  unfolding algo num_bits sig_len
  sig_len_ck pkey = do a ← algo pkey; sig_len_for pkey a

  unfoldable pub mech_type_to_evp_md : ℕ → Result CryptoError E.EvpMd
  mech_type_to_evp_md t =
      if t == Mech.ckm_sha_1
        || t == Mech.ckm_sha1_rsa_pkcs
        || t == Mech.ckm_sha1_rsa_pkcs_pss
        || t == Mech.ckm_ecdsa_sha1
      then ok E.evp_sha1
      else if t == Mech.ckm_sha224
          || t == Mech.ckm_sha224_rsa_pkcs
          || t == Mech.ckm_sha224_rsa_pkcs_pss
          || t == Mech.ckm_ecdsa_sha224
      then ok E.evp_sha224
      else if t == Mech.ckm_sha256
          || t == Mech.ckm_sha256_rsa_pkcs
          || t == Mech.ckm_sha256_rsa_pkcs_pss
          || t == Mech.ckm_ecdsa_sha256
      then ok E.evp_sha256
      else if t == Mech.ckm_sha384
          || t == Mech.ckm_sha384_rsa_pkcs
          || t == Mech.ckm_sha384_rsa_pkcs_pss
          || t == Mech.ckm_ecdsa_sha384
      then ok E.evp_sha384
      else if t == Mech.ckm_sha512
          || t == Mech.ckm_sha512_rsa_pkcs
          || t == Mech.ckm_sha512_rsa_pkcs_pss
          || t == Mech.ckm_ecdsa_sha512
      then ok E.evp_sha512
      else err bad_mech

  unfoldable pub mgf_to_evp_md : ℕ → Result CryptoError E.EvpMd
  mgf_to_evp_md mgf =
      if mgf == Mech.ckg_mgf1_sha1
      then ok E.evp_sha1
      else if mgf == Mech.ckg_mgf1_sha224
      then ok E.evp_sha224
      else if mgf == Mech.ckg_mgf1_sha256
      then ok E.evp_sha256
      else if mgf == Mech.ckg_mgf1_sha384
      then ok E.evp_sha384
      else if mgf == Mech.ckg_mgf1_sha512
      then ok E.evp_sha512
      else err bad_mgf

  abbrev set_padding : E.EvpCtx → ℕ → Result CryptoError E.EvpCtx
  set_padding pctx padding = ok_or (E.set_rsa_padding pctx padding) pkey_ctx_ctl

  -- The cast of the salt length to a `c_int` keeps its low 32 bits.
  abbrev set_pss : E.EvpCtx → Option PssParams → Result CryptoError E.EvpCtx
  set_pss pctx none = ok pctx
  set_pss pctx (some params) = do
    evp_md_hash ← mech_type_to_evp_md params.hash_alg
    pctx₁ ← ok_or (E.set_signature_md pctx evp_md_hash) pkey_ctx_ctl
    evp_md ← mgf_to_evp_md params.mgf
    pctx₂ ← ok_or (E.set_rsa_mgf1_md pctx₁ evp_md) pkey_ctx_ctl
    ok_or (E.set_rsa_pss_saltlen pctx₂ (params.s_len % 2 ^ 32)) pkey_ctx_ctl

  unfoldable pub config_evp_pkey_ctx : E.EvpCtx → Mechanism → Result CryptoError E.EvpCtx
  unfolding mech_type_to_evp_md mgf_to_evp_md
  config_evp_pkey_ctx pctx (digest _) = err bad_mech
  config_evp_pkey_ctx pctx rsa_x509 = set_padding pctx rsa_no_padding
  config_evp_pkey_ctx pctx (rsa_pkcs _) = set_padding pctx rsa_pkcs1_padding
  config_evp_pkey_ctx pctx (rsa_pkcs_pss _ params) = do
    pctx' ← set_padding pctx rsa_pkcs1_pss_padding
    set_pss pctx' params
  config_evp_pkey_ctx pctx (ecdsa _) = ok pctx

  -- Two halves, R and S.
  unfoldable pub ecdsa_sig_ckrs_to_der : Bytes → Result CryptoError Bytes
  ecdsa_sig_ckrs_to_der ckrs = do
    bn_r ← ok_or (E.bn_bin2bn (take (length ckrs / 2) ckrs)) general_failure
    bn_s ← ok_or (E.bn_bin2bn (drop (length ckrs / 2) ckrs)) general_failure
    ok_or (E.i2d_ecdsa_sig bn_r bn_s) general_failure

  unfoldable pub ecdsa_sig_der_to_ckrs : Bytes → Result CryptoError Bytes
  ecdsa_sig_der_to_ckrs sig_der = do
    ec_sig ← ok_or (E.d2i_ecdsa_sig sig_der) general_failure
    bn_r ← ok_or ec_sig.0 general_failure
    bn_s ← ok_or ec_sig.1 general_failure
    let order_len =
        if leb (E.bn_num_bytes bn_s) (E.bn_num_bytes bn_r)
        then E.bn_num_bytes bn_r
        else E.bn_num_bytes bn_s
    r ← ok_or (E.bn_bn2bin_padded order_len bn_r) general_failure
    s ← ok_or (E.bn_bn2bin_padded order_len bn_s) general_failure
    ok (r ++ s)

  -- A signature as libcrypto writes it, in the format of PKCS#11.
  abbrev pub to_ck_sig : KeyAlgo → Bytes → Result CryptoError Bytes
  to_ck_sig ec sig = ecdsa_sig_der_to_ckrs sig
  to_ck_sig rsa sig = ok sig

  -- A signature of PKCS#11, as libcrypto reads it.
  abbrev pub from_ck_sig : KeyAlgo → Bytes → Result CryptoError Bytes
  from_ck_sig ec sig = ecdsa_sig_ckrs_to_der sig
  from_ck_sig rsa sig = ok sig

-- `vec![0u8; n]` after a call that wrote the bytes at its start.
abbrev pub into_zeros : ℕ → Bytes → Bytes
into_zeros n bs = bs ++ drop (length bs) (replicate n 0)
