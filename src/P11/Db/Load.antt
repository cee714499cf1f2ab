-- ===== src/P11/Db/Load.antt =====
-- vtok_p11/src/backend/db/mod.rs, `Db::from_token_config`: the objects that are made of the keys and
-- certificates of a token.
use aws_nitro_enclaves_acm.Prelude.{
  ℕ, suc, ◌+◌, ◌%◌, ◌==◌, Option, none, some, List, [], ◌∷◌, ◌++◌, map, Bytes, codes, Result, ok,
  err, map_err, ◌>>=◌, if◌then◌else◌,
}
use aws_nitro_enclaves_acm.Common.Config
use aws_nitro_enclaves_acm.Rpc.Line.{print_usize}
use aws_nitro_enclaves_acm.P11.Error.{DbError, db_crypto_error, pem_error, CryptoError}
use aws_nitro_enclaves_acm.P11.Mechanism.{
  Mechanism, digest, rsa_pkcs, rsa_pkcs_pss, rsa_x509, ecdsa, sha1, sha224, sha256, sha384, sha512,
}
use aws_nitro_enclaves_acm.P11.Object.{
  Object, CertCategory, token, authority, CertInfo, RsaKeyInfo, EcKeyInfo, new_mechanism,
  new_rsa_private_key, new_rsa_public_key, new_ec_private_key, new_ec_public_key, new_x509_cert,
}
use aws_nitro_enclaves_acm.P11.Db.{Db}
use aws_nitro_enclaves_acm.P11.Crypto.Evp.{Evp}
use aws_nitro_enclaves_acm.P11.Crypto.X509Lib.{X509Lib}
use aws_nitro_enclaves_acm.P11.Crypto.Pkey.{KeyAlgo, ec, rsa, from_private_pem, algo, num_bits}
use aws_nitro_enclaves_acm.P11.Crypto.Cert.{
  rsa_modulus, rsa_public_exponent, ec_params_x962, ec_point_q_x962, subject_name, issuer,
  serial_no, to_der, chain_from_pem, verify_chain, verify, multiple_certs,
}

-- TOKEN_MECH_LIST
abbrev pub token_mech_list : List Mechanism
token_mech_list =
    digest sha1
    ∷ digest sha224
    ∷ digest sha256
    ∷ digest sha384
    ∷ digest sha512
    ∷ rsa_pkcs none
    ∷ rsa_pkcs (some sha1)
    ∷ rsa_pkcs (some sha224)
    ∷ rsa_pkcs (some sha256)
    ∷ rsa_pkcs (some sha384)
    ∷ rsa_pkcs (some sha512)
    ∷ rsa_pkcs_pss none none
    ∷ rsa_pkcs_pss (some sha1) none
    ∷ rsa_pkcs_pss (some sha224) none
    ∷ rsa_pkcs_pss (some sha256) none
    ∷ rsa_pkcs_pss (some sha384) none
    ∷ rsa_pkcs_pss (some sha512) none
    ∷ rsa_x509
    ∷ ecdsa none
    ∷ ecdsa (some sha1)
    ∷ ecdsa (some sha224)
    ∷ ecdsa (some sha256)
    ∷ ecdsa (some sha384)
    ∷ ecdsa (some sha512)
    ∷ []

abbrev pub of_crypto {ℓ} : {A : Type ℓ} → Result CryptoError A → Result DbError A
of_crypto r = map_err (λ e. db_crypto_error e) r

module _ (E : Evp) (C : X509Lib E) where
  -- The private key and its public key, by the algorithm.
  unfoldable pub key_objects :
      Config.PrivateKey → E.EvpPkey → KeyAlgo → Result DbError (List Object)
  key_objects key_config pkey rsa = do
    bits ← of_crypto (num_bits E pkey)
    modulus ← of_crypto (rsa_modulus E C pkey)
    exponent ← of_crypto (rsa_public_exponent E C pkey)
    let info : RsaKeyInfo = record {
      id = key_config.id;
      label = key_config.label;
      priv_pem = key_config.pem;
      num_bits = bits;
      modulus = modulus;
      public_exponent = exponent;
    }
    ok (new_rsa_private_key info ∷ new_rsa_public_key info ∷ [])
  key_objects key_config pkey ec = do
    params ← of_crypto (ec_params_x962 E C pkey)
    point ← of_crypto (ec_point_q_x962 E C pkey)
    let info : EcKeyInfo = record {
      id = key_config.id;
      label = key_config.label;
      priv_pem = key_config.pem;
      params_x962 = params;
      point_q_x962 = point;
    }
    ok (new_ec_private_key info ∷ new_ec_public_key info ∷ [])

  -- The category and the ID of the certificate at a position. Both numbers are a `u8`.
  abbrev pub categ_and_id : Config.PrivateKey → ℕ → CertCategory × ℕ
  categ_and_id key_config pos =
      if pos == 0 then (token, key_config.id) else (authority, (key_config.id + pos) % 256)

  unfoldable pub cert_info : Config.PrivateKey → ℕ → C.X509 → Result DbError CertInfo
  cert_info key_config pos x509 = do
    subject ← of_crypto (subject_name E C x509)
    issued ← of_crypto (issuer E C x509)
    serno ← of_crypto (serial_no E C x509)
    der ← of_crypto (to_der E C x509)
    ok (record {
      categ = (categ_and_id key_config pos).0;
      id = (categ_and_id key_config pos).1;
      label = codes "acm-ne-cert-" ++ print_usize pos;
      subject_der = subject;
      issuer_der = issued;
      serno_der = serno;
      cert_der = der;
    })

  -- The loop over the certificates of a chain, which are pushed one by one until one fails.
  unfoldable pub cert_objects : Config.PrivateKey → ℕ → List C.X509 → List Object
  cert_objects key_config pos [] = []
  cert_objects key_config pos (x509 ∷ chain) =
      let rest = cert_objects key_config (suc pos) chain in
      elim (cert_info key_config (pos % 256) x509) [
        | err e ↦ []
        | ok info ↦ new_x509_cert info ∷ rest
      ]

  unfoldable pub verify_certs : E.EvpPkey → List C.X509 → Result CryptoError (Unit {0})
  verify_certs pkey chain =
      if multiple_certs E C chain then verify_chain E C chain else verify E C chain pkey

  abbrev pub verified_objects :
      Config.PrivateKey → List C.X509 → Result CryptoError (Unit {0}) → List Object
  verified_objects key_config chain (err e) = []
  verified_objects key_config chain (ok _) = cert_objects key_config 0 chain

  abbrev pub chain_objects :
      Config.PrivateKey → E.EvpPkey → Result CryptoError (List C.X509) → List Object
  chain_objects key_config pkey (err e) = []
  chain_objects key_config pkey (ok chain) =
      verified_objects key_config chain (verify_certs pkey chain)

  -- The closure x509_vfy: what it pushes. Its failure is only logged.
  abbrev pub x509_objects : Config.PrivateKey → E.EvpPkey → Option Bytes → List Object
  x509_objects key_config pkey none = []
  x509_objects key_config pkey (some x509_pem) =
      chain_objects key_config pkey (chain_from_pem E C x509_pem)

  -- A round of the loop over the private keys, before the rounds that give `rest`.
  unfoldable pub push_key :
      Config.PrivateKey → Result DbError (List Object) → Result DbError (List Object)
  push_key key_config rest = do
    pkey ← map_err (λ e. pem_error e) (from_private_pem E key_config.pem)
    key_algo ← of_crypto (algo E pkey)
    pair ← key_objects key_config pkey key_algo
    objects ← rest
    ok (pair ++ (x509_objects key_config pkey key_config.cert_pem ++ objects))

  unfoldable pub private_key_objects : List Config.PrivateKey → Result DbError (List Object)
  private_key_objects [] = ok []
  private_key_objects (key_config ∷ keys) = push_key key_config (private_key_objects keys)

  -- Db::from_token_config
  unfoldable pub from_token_config : Config.Token → Result DbError Db
  from_token_config token_config = do
    objects ← private_key_objects token_config.private_keys
    ok (record {
      token_pin = token_config.pin;
      objects = map new_mechanism token_mech_list ++ objects;
    })
