-- ===== src/P11/Object.antt =====
-- vtok_p11/src/backend/db/object.rs, and the key and certificate data of backend/db/mod.rs: the
-- objects and the attributes that they are made with.
pub mod Template
pub mod Matches
pub mod Fills
use aws_nitro_enclaves_acm.Prelude.{ℕ, Bool, true, false, Option, none, some, List, [], ◌∷◌, Bytes}
use aws_nitro_enclaves_acm.Prelude.Assoc.{Assoc, get, insert}
use aws_nitro_enclaves_acm.P11.Ck.Attrs
use aws_nitro_enclaves_acm.P11.Ck.Objects
use aws_nitro_enclaves_acm.P11.Mechanism.{Mechanism, ck_type}
use aws_nitro_enclaves_acm.P11.Attr.{
  Attr, bytes, sensitive, attr_true, attr_false, attr_eq, from_ck_byte, from_ck_key_type,
  from_ck_cert_type, from_ck_cert_category, from_ck_mechanism_type, from_ck_object_class,
  from_ck_ulong,
}

pub record RsaKeyInfo : Type 0 where
  pub priv_pem : Bytes
  pub id : ℕ
  pub label : Bytes
  pub num_bits : ℕ
  pub modulus : Bytes
  pub public_exponent : Bytes

pub record EcKeyInfo : Type 0 where
  pub priv_pem : Bytes
  pub id : ℕ
  pub label : Bytes
  pub params_x962 : Bytes
  pub point_q_x962 : Bytes

-- crypto::CertCategory
pub data CertCategory : Type 0 where
  unverified token authority other : CertCategory

pub record CertInfo : Type 0 where
  pub categ : CertCategory
  pub id : ℕ
  pub label : Bytes
  pub subject_der : Bytes
  pub issuer_der : Bytes
  pub serno_der : Bytes
  pub cert_der : Bytes

pub data ObjectKind : Type 0 where
  rsa_private_key rsa_public_key ec_private_key ec_public_key : Bytes → ObjectKind
  certificate : ObjectKind
  mechanism : Mechanism → ObjectKind

pub record Object : Type 0 where
  pub attrs : Assoc Attr
  pub kind : ObjectKind

abbrev put_all : List (ℕ × Attr) → Assoc Attr → Assoc Attr
put_all [] attrs = attrs
put_all ((k, v) ∷ kvs) attrs = put_all kvs (insert k v attrs)

-- The inserts of a constructor, the first one first.
unfoldable pub inserted : List (ℕ × Attr) → Assoc Attr
unfolding insert
inserted kvs = put_all kvs []

abbrev categ_of : CertCategory → ℕ
categ_of unverified = Objects.ck_certificate_category_unspecified
categ_of token = Objects.ck_certificate_category_token_user
categ_of authority = Objects.ck_certificate_category_authority
categ_of other = Objects.ck_certificate_category_other_entity

unfoldable pub new_mechanism : Mechanism → Object
unfolding ck_type inserted
new_mechanism mech = record {
  attrs = inserted (
      (Attrs.cka_class, from_ck_object_class Objects.cko_mechanism)
      ∷ (Attrs.cka_mechanism_type, from_ck_mechanism_type (ck_type mech))
      ∷ []);
  kind = mechanism mech;
}

unfoldable pub new_rsa_private_key : RsaKeyInfo → Object
unfolding inserted
new_rsa_private_key info = record {
  attrs = inserted (
      (Attrs.cka_class, from_ck_object_class Objects.cko_private_key)
      ∷ (Attrs.cka_key_type, from_ck_key_type Objects.ckk_rsa)
      ∷ (Attrs.cka_id, from_ck_byte info.id)
      ∷ (Attrs.cka_label, bytes info.label)
      ∷ (Attrs.cka_private, attr_true)
      ∷ (Attrs.cka_always_authenticate, attr_false)
      ∷ (Attrs.cka_sensitive, attr_true)
      ∷ (Attrs.cka_extractable, attr_false)
      ∷ (Attrs.cka_sign, attr_true)
      ∷ (Attrs.cka_decrypt, attr_true)
      ∷ (Attrs.cka_derive, attr_false)
      ∷ (Attrs.cka_wrap, attr_false)
      ∷ (Attrs.cka_local, attr_false)
      ∷ (Attrs.cka_token, attr_true)
      ∷ (Attrs.cka_modulus_bits, from_ck_ulong info.num_bits)
      ∷ (Attrs.cka_modulus, bytes info.modulus)
      ∷ (Attrs.cka_public_exponent, bytes info.public_exponent)
      ∷ (Attrs.cka_private_exponent, sensitive)
      ∷ (Attrs.cka_prime_1, sensitive)
      ∷ (Attrs.cka_prime_2, sensitive)
      ∷ (Attrs.cka_exponent_1, sensitive)
      ∷ (Attrs.cka_exponent_2, sensitive)
      ∷ (Attrs.cka_coefficient, sensitive)
      ∷ []);
  kind = rsa_private_key info.priv_pem;
}

unfoldable pub new_rsa_public_key : RsaKeyInfo → Object
unfolding inserted
new_rsa_public_key info = record {
  attrs = inserted (
      (Attrs.cka_class, from_ck_object_class Objects.cko_public_key)
      ∷ (Attrs.cka_key_type, from_ck_key_type Objects.ckk_rsa)
      ∷ (Attrs.cka_id, from_ck_byte info.id)
      ∷ (Attrs.cka_label, bytes info.label)
      ∷ (Attrs.cka_private, attr_false)
      ∷ (Attrs.cka_sensitive, attr_false)
      ∷ (Attrs.cka_extractable, attr_true)
      ∷ (Attrs.cka_verify, attr_true)
      ∷ (Attrs.cka_encrypt, attr_true)
      ∷ (Attrs.cka_derive, attr_false)
      ∷ (Attrs.cka_wrap, attr_false)
      ∷ (Attrs.cka_local, attr_false)
      ∷ (Attrs.cka_token, attr_true)
      ∷ (Attrs.cka_modulus_bits, from_ck_ulong info.num_bits)
      ∷ (Attrs.cka_modulus, bytes info.modulus)
      ∷ (Attrs.cka_public_exponent, bytes info.public_exponent)
      ∷ []);
  kind = rsa_public_key info.priv_pem;
}

unfoldable pub new_ec_private_key : EcKeyInfo → Object
unfolding inserted
new_ec_private_key info = record {
  attrs = inserted (
      (Attrs.cka_class, from_ck_object_class Objects.cko_private_key)
      ∷ (Attrs.cka_key_type, from_ck_key_type Objects.ckk_ec)
      ∷ (Attrs.cka_id, from_ck_byte info.id)
      ∷ (Attrs.cka_label, bytes info.label)
      ∷ (Attrs.cka_private, attr_true)
      ∷ (Attrs.cka_sensitive, attr_true)
      ∷ (Attrs.cka_extractable, attr_false)
      ∷ (Attrs.cka_sign, attr_true)
      ∷ (Attrs.cka_decrypt, attr_true)
      ∷ (Attrs.cka_derive, attr_false)
      ∷ (Attrs.cka_wrap, attr_false)
      ∷ (Attrs.cka_local, attr_false)
      ∷ (Attrs.cka_token, attr_true)
      ∷ (Attrs.cka_ec_params, bytes info.params_x962)
      ∷ (Attrs.cka_ec_point, bytes info.point_q_x962)
      ∷ (Attrs.cka_value, sensitive)
      ∷ []);
  kind = ec_private_key info.priv_pem;
}

unfoldable pub new_ec_public_key : EcKeyInfo → Object
unfolding inserted
new_ec_public_key info = record {
  attrs = inserted (
      (Attrs.cka_class, from_ck_object_class Objects.cko_public_key)
      ∷ (Attrs.cka_key_type, from_ck_key_type Objects.ckk_ec)
      ∷ (Attrs.cka_id, from_ck_byte info.id)
      ∷ (Attrs.cka_label, bytes info.label)
      ∷ (Attrs.cka_private, attr_false)
      ∷ (Attrs.cka_sensitive, attr_false)
      ∷ (Attrs.cka_extractable, attr_true)
      ∷ (Attrs.cka_verify, attr_true)
      ∷ (Attrs.cka_encrypt, attr_true)
      ∷ (Attrs.cka_derive, attr_false)
      ∷ (Attrs.cka_wrap, attr_false)
      ∷ (Attrs.cka_local, attr_false)
      ∷ (Attrs.cka_token, attr_true)
      ∷ (Attrs.cka_ec_params, bytes info.params_x962)
      ∷ (Attrs.cka_ec_point, bytes info.point_q_x962)
      ∷ []);
  kind = ec_public_key info.priv_pem;
}

unfoldable pub new_x509_cert : CertInfo → Object
unfolding inserted
new_x509_cert info = record {
  attrs = inserted (
      (Attrs.cka_class, from_ck_object_class Objects.cko_certificate)
      ∷ (Attrs.cka_certificate_type, from_ck_cert_type Objects.ckc_x_509)
      ∷ (Attrs.cka_certificate_category, from_ck_cert_category (categ_of info.categ))
      ∷ (Attrs.cka_id, from_ck_byte info.id)
      ∷ (Attrs.cka_label, bytes info.label)
      ∷ (Attrs.cka_token, attr_true)
      ∷ (Attrs.cka_sensitive, attr_false)
      ∷ (Attrs.cka_extractable, attr_true)
      ∷ (Attrs.cka_trusted, attr_true)
      ∷ (Attrs.cka_subject, bytes info.subject_der)
      ∷ (Attrs.cka_issuer, bytes info.issuer_der)
      ∷ (Attrs.cka_serial_number, bytes info.serno_der)
      ∷ (Attrs.cka_value, bytes info.cert_der)
      ∷ []);
  kind = certificate;
}

-- Object::attr
abbrev pub attr : Object → ℕ → Option Attr
attr o attr_type = get attr_type o.attrs

abbrev is_true : Option Attr → Bool
is_true none = false
is_true (some a) = attr_eq a attr_true

-- Object::is_private
unfoldable pub is_private : Object → Bool
unfolding attr_eq get
is_private o = is_true (attr o Attrs.cka_private)

abbrev is_mech : ObjectKind → Bool
is_mech (mechanism _) = true
is_mech _ = false

-- Object::is_mechanism
unfoldable pub is_mechanism : Object → Bool
is_mechanism o = is_mech o.kind
