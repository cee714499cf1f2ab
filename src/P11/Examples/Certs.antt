-- ===== src/P11/Examples/Certs.antt =====
-- The objects of a token at concrete inputs, over a libcrypto of numbers that reads two certificates
-- from every text.
use aws_nitro_enclaves_acm.Prelude.{
  ℕ, ◌≡◌, refl, true, Option, none, some, List, [], ◌∷◌, ◌++◌, map, bytes_eq, All, false, codes, ok,
}
use aws_nitro_enclaves_acm.Prelude.Assoc.{get, insert, remove}
use aws_nitro_enclaves_acm.Common.Config
use aws_nitro_enclaves_acm.P11.Ck.Attrs
use aws_nitro_enclaves_acm.P11.Attr.{from_ck_byte, attr_eq, as_bytes, attr_len}
use aws_nitro_enclaves_acm.P11.RawAttr.{CkRawAttr, set_val_bytes}
use aws_nitro_enclaves_acm.P11.Object.{
  RsaKeyInfo, attr, inserted, is_private, new_mechanism, new_rsa_private_key, new_rsa_public_key,
  new_x509_cert,
}
use aws_nitro_enclaves_acm.P11.Object.Template.{fill_attr_template, fill_from, fill_attr}
use aws_nitro_enclaves_acm.P11.Crypto.X509Lib.{X509Lib}
use aws_nitro_enclaves_acm.P11.Crypto.Pkey.{from_private_pem, algo, num_bits}
use aws_nitro_enclaves_acm.P11.Crypto.Cert.{
  bignum_to_vec, rsa_modulus, rsa_public_exponent, subject_name, issuer, serial_no, to_der,
  chain_from_pem, read_chain, verify_chain, store_certs, multiple_certs,
}
use aws_nitro_enclaves_acm.P11.Db.{Db, object}
use aws_nitro_enclaves_acm.P11.Db.Load.{
  token_mech_list, key_objects, cert_info, cert_objects, verify_certs, push_key,
  private_key_objects, from_token_config,
}
use aws_nitro_enclaves_acm.P11.Db.Guarded.{secrets}
use aws_nitro_enclaves_acm.P11.Db.Contents.{
  without_certificates, on_db, bare, from_token_config-bare,
}
use aws_nitro_enclaves_acm.P11.Db.Secrets.{is_listed, fill_attr_template-secrets}
use aws_nitro_enclaves_acm.P11.Examples.{toy}

-- A BIO is the certificates that are left.
abbrev next_cert : List ℕ → Option ℕ × List ℕ
next_cert [] = (none, [])
next_cert (x ∷ xs) = (some x, xs)

abbrev two_certs : X509Lib toy
two_certs = record {
  Rsa = ℕ;
  EcKey = ℕ;
  EcGroup = ℕ;
  X509 = ℕ;
  X509Store = ℕ;
  X509StoreCtx = ℕ;
  bn_bn2bin = λ n. n ∷ [];
  evp_pkey_get0_rsa = λ k. some k;
  rsa_get0_n = λ k. some k;
  rsa_get0_e = λ k. some 3;
  evp_pkey_get0_ec_key = λ k. none;
  bn_ctx_new = true;
  cbb_init = true;
  bio_new = true;
  ec_key_key2buf = λ k. [];
  ec_key_get0_group = λ k. none;
  ec_key_marshal_curve_name = λ g. none;
  Bio = List ℕ;
  bio_new_mem_buf = λ pem. some (1 ∷ 2 ∷ []);
  pem_read_bio_x509 = next_cert;
  bio_eof = λ b. true;
  subject_der = λ x. some (x ∷ []);
  issuer_der = λ x. some (x ∷ []);
  serial_bn = λ x. some x;
  i2d_x509 = λ x. some (x ∷ []);
  x509_verify = λ x k. true;
  x509_store_new = some 0;
  set_store_flags = λ s. some s;
  store_add_cert = λ s x. some s;
  x509_store_ctx_new = some 0;
  store_ctx_init = λ c s x. some c;
  set_verify_cb = λ c. c;
  set_purpose_any = λ c. c;
  x509_verify_cert = λ c. true;
}

abbrev key_config : Config.PrivateKey
key_config = record {
  pem = codes "key";
  encrypted_pem_b64 = codes "sealed";
  id = 255;
  label = codes "web";
  cert_pem = some (codes "chain");
}

abbrev token_config : Config.Token
token_config = record {
  label = codes "a";
  private_keys = key_config ∷ [];
  pin = codes "1234";
  expiry_ts = 1000;
}

abbrev info : RsaKeyInfo
info = record {
  priv_pem = codes "key";
  id = 255;
  label = codes "web";
  num_bits = 2048;
  modulus = 3 ∷ [];
  public_exponent = 3 ∷ [];
}

abbrev db : Db
db = record {
  token_pin = codes "1234";
  objects =
      map new_mechanism token_mech_list
      ++ (new_rsa_private_key info
          ∷ new_rsa_public_key info
          ∷ cert_objects toy two_certs key_config 0 (1 ∷ 2 ∷ []));
}

from_token_config-db : from_token_config toy two_certs token_config ≡ ok db
unfolding from_token_config private_key_objects push_key from_private_pem algo key_objects num_bits
    rsa_modulus rsa_public_exponent bignum_to_vec chain_from_pem read_chain verify_certs
    multiple_certs verify_chain store_certs cert_objects cert_info subject_name issuer serial_no
    to_der
from_token_config-db = refl

-- The identifier of the second certificate wraps around to 0.
wrapped_id :
    map (λ o. attr o Attrs.cka_id) (cert_objects toy two_certs key_config 0 (1 ∷ 2 ∷ []))
    ≡ (some (from_ck_byte 255) ∷ some (from_ck_byte 0) ∷ [])
unfolding cert_objects cert_info subject_name issuer serial_no bignum_to_vec to_der new_x509_cert
    inserted insert remove get
wrapped_id = refl

from_token_config-bare_example :
    on_db without_certificates (from_token_config toy two_certs token_config)
    ≡ from_token_config toy two_certs (bare token_config)
from_token_config-bare_example = from_token_config-bare toy two_certs token_config

abbrev template : List CkRawAttr
template = record { type = Attrs.cka_label; value = some (0 ∷ 0 ∷ 0 ∷ []); value_len = 3 } ∷ []

key_is_private : is_private (new_rsa_private_key info) ≡ true
unfolding is_private attr_eq as_bytes new_rsa_private_key inserted insert remove get bytes_eq
key_is_private = refl

key_fills : (fill_attr_template (new_rsa_private_key info) template).1 ≡ ok tt
unfolding fill_attr_template fill_from fill_attr new_rsa_private_key inserted insert remove get
    as_bytes attr_len set_val_bytes
key_fills = refl

key_at : object db 24 ≡ some (new_rsa_private_key info)
unfolding object cert_objects cert_info subject_name issuer serial_no bignum_to_vec to_der
key_at = refl

fill_attr_template-secrets_example : All (λ raw. is_listed raw.type secrets ≡ false) template
fill_attr_template-secrets_example =
    fill_attr_template-secrets toy two_certs token_config db from_token_config-db 24
      (new_rsa_private_key info) key_at key_is_private template key_fills
