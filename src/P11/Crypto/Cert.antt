-- ===== src/P11/Crypto/Cert.antt =====
-- vtok_p11/src/crypto/cert.rs, and the parts of a key in vtok_p11/src/crypto/key.rs.
use aws_nitro_enclaves_acm.Prelude.{
  ℕ, zero, suc, ◌%◌, ◌==◌, Bool, Option, none, some, List, [], ◌∷◌, length, ltb, Bytes, Result, ok,
  err, ok_or, guard, ◌>>=◌, ◌>>◌, if◌then◌else◌,
}
use aws_nitro_enclaves_acm.P11.Error.{
  CryptoError, general_failure, bad_key_type, cert_bad_pem, cert_name, cert_issuer, cert_serial_no,
  cert_der_encode, cert_chain_err,
}
use aws_nitro_enclaves_acm.P11.Crypto.Evp.{Evp}
use aws_nitro_enclaves_acm.P11.Crypto.X509Lib.{X509Lib}

-- Bytes that are there, and not none of them.
abbrev not_empty : CryptoError → Bytes → Result CryptoError Bytes
not_empty e [] = err e
not_empty e (b ∷ bs) = ok (b ∷ bs)

module _ (E : Evp) (C : X509Lib E) where
  abbrev positive : ℕ → Result CryptoError (Unit {0})
  positive n = if n == 0 then err general_failure else ok tt

  unfoldable pub bignum_to_vec : Option E.Bignum → Result CryptoError Bytes
  bignum_to_vec bn = do
    b ← ok_or bn general_failure
    positive (E.bn_num_bytes b)
    guard (length (C.bn_bn2bin b) == E.bn_num_bytes b) general_failure
    ok (C.bn_bn2bin b)

  -- Pkey::rsa_modulus
  unfoldable pub rsa_modulus : E.EvpPkey → Result CryptoError Bytes
  unfolding bignum_to_vec
  rsa_modulus pkey = do
    rsa ← ok_or (C.evp_pkey_get0_rsa pkey) bad_key_type
    bignum_to_vec (C.rsa_get0_n rsa)

  -- Pkey::rsa_public_exponent
  unfoldable pub rsa_public_exponent : E.EvpPkey → Result CryptoError Bytes
  unfolding bignum_to_vec
  rsa_public_exponent pkey = do
    rsa ← ok_or (C.evp_pkey_get0_rsa pkey) bad_key_type
    bignum_to_vec (C.rsa_get0_e rsa)

  -- Pkey::ec_point_q_x962
  unfoldable pub ec_point_q_x962 : E.EvpPkey → Result CryptoError Bytes
  ec_point_q_x962 pkey = do
    ec ← ok_or (C.evp_pkey_get0_ec_key pkey) bad_key_type
    guard C.bn_ctx_new general_failure
    not_empty general_failure (C.ec_key_key2buf ec)

  -- Pkey::ec_params_x962
  unfoldable pub ec_params_x962 : E.EvpPkey → Result CryptoError Bytes
  ec_params_x962 pkey = do
    ec ← ok_or (C.evp_pkey_get0_ec_key pkey) bad_key_type
    group ← ok_or (C.ec_key_get0_group ec) bad_key_type
    guard C.cbb_init general_failure
    ok_or (C.ec_key_marshal_curve_name group) general_failure

  -- X509::subject_name
  unfoldable pub subject_name : C.X509 → Result CryptoError Bytes
  subject_name cert = do der ← ok_or (C.subject_der cert) cert_name; not_empty cert_name der

  -- X509::issuer
  unfoldable pub issuer : C.X509 → Result CryptoError Bytes
  issuer cert = do der ← ok_or (C.issuer_der cert) cert_issuer; not_empty cert_issuer der

  -- X509::serial_no
  unfoldable pub serial_no : C.X509 → Result CryptoError Bytes
  unfolding bignum_to_vec
  serial_no cert = do bn ← ok_or (C.serial_bn cert) cert_serial_no; bignum_to_vec (some bn)

  -- X509::to_der
  unfoldable pub to_der : C.X509 → Result CryptoError Bytes
  to_der cert = do guard C.bio_new general_failure; ok_or (C.i2d_x509 cert) cert_der_encode

  -- The loop of `chain_from_pem`, on fuel. Each certificate that is read takes a part of the text.
  unfoldable pub read_chain : ℕ → C.Bio → Result CryptoError (List C.X509)
  read_chain zero bio = err cert_bad_pem
  read_chain (suc fuel) bio = elim (C.pem_read_bio_x509 bio).0 [
    | none ↦ if C.bio_eof (C.pem_read_bio_x509 bio).1 then ok [] else err cert_bad_pem
    | some cert ↦ read_chain fuel (C.pem_read_bio_x509 bio).1 >>= λ certs. ok (cert ∷ certs)
  ]

  -- X509Chain::chain_from_pem
  unfoldable pub chain_from_pem : Bytes → Result CryptoError (List C.X509)
  chain_from_pem pem = do
    bio ← ok_or (C.bio_new_mem_buf pem) general_failure
    read_chain (suc (length pem)) bio

  -- The loop over the certificates that are stored. A position is a `u8`, so that it wraps around.
  unfoldable pub store_certs : ℕ → List C.X509 → C.X509Store → Result CryptoError C.X509Store
  store_certs pos [] store = ok store
  store_certs pos (cert ∷ certs) store =
      if ltb 0 (pos % 256)
      then (do
        store' ← ok_or (C.store_add_cert store cert) cert_chain_err
        store_certs (suc pos) certs store')
      else store_certs (suc pos) certs store

  abbrev first_cert : List C.X509 → Result CryptoError C.X509
  first_cert [] = err cert_chain_err
  first_cert (cert ∷ certs) = ok cert

  -- X509Chain::verify_chain
  unfoldable pub verify_chain : List C.X509 → Result CryptoError (Unit {0})
  unfolding store_certs
  verify_chain chain = do
    new_store ← ok_or C.x509_store_new general_failure
    flagged ← ok_or (C.set_store_flags new_store) cert_chain_err
    store ← store_certs 0 chain flagged
    ctx ← ok_or C.x509_store_ctx_new general_failure
    server ← first_cert chain
    ready ← ok_or (C.store_ctx_init ctx store server) cert_chain_err
    guard (C.x509_verify_cert (C.set_purpose_any (C.set_verify_cb ready))) cert_chain_err

  -- X509Chain::verify
  unfoldable pub verify : List C.X509 → E.EvpPkey → Result CryptoError (Unit {0})
  verify chain pkey = do server ← first_cert chain; guard (C.x509_verify server pkey) cert_chain_err

  -- X509Chain::multiple_certs
  unfoldable pub multiple_certs : List C.X509 → Bool
  multiple_certs chain = ltb 1 (length chain)
