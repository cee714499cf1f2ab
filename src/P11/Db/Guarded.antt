-- ===== src/P11/Db/Guarded.antt =====
-- vtok_p11/src/backend/db/mod.rs, `Db::from_token_config`: the objects of a key, of which the
-- private ones hold no secret that can be read.
use aws_nitro_enclaves_acm.Prelude.{
  ℕ, suc, ◌%◌, bytes_eq, ◌≡◌, refl, subst, Bool, true, false, Option, none, some, List, [], ◌∷◌,
  Bytes, Result, ok, err, Result-cases, All, arith, inl, inr, ◌⊎◌,
}
use aws_nitro_enclaves_acm.Common.Config
use aws_nitro_enclaves_acm.P11.Error.{DbError}
use aws_nitro_enclaves_acm.P11.Ck.Attrs
use aws_nitro_enclaves_acm.P11.Attr.{Attr, sensitive, attr_eq, as_bytes}
use aws_nitro_enclaves_acm.P11.Mechanism.{Mechanism}
use aws_nitro_enclaves_acm.Prelude.Assoc.{get, insert, remove}
use aws_nitro_enclaves_acm.P11.Object.{
  Object, ObjectKind, certificate, attr, is_private, new_mechanism, new_rsa_private_key,
  new_rsa_public_key, new_ec_private_key, new_ec_public_key, new_x509_cert, RsaKeyInfo, EcKeyInfo,
  CertInfo, inserted,
}
use aws_nitro_enclaves_acm.P11.Db.Load.{
  key_objects, cert_objects, cert_info, x509_objects, verify_certs,
}
use aws_nitro_enclaves_acm.P11.Crypto.Evp.{Evp}
use aws_nitro_enclaves_acm.P11.Crypto.X509Lib.{X509Lib}
use aws_nitro_enclaves_acm.P11.Crypto.Pkey.{KeyAlgo, ec, rsa, num_bits}
use aws_nitro_enclaves_acm.P11.Crypto.Cert.{
  chain_from_pem, rsa_modulus, rsa_public_exponent, ec_params_x962, ec_point_q_x962,
}

abbrev pub is_certificate : ObjectKind → Bool
is_certificate certificate = true
is_certificate _ = false

-- The attributes with a secret part of a key.
abbrev pub secrets : List ℕ
secrets =
    Attrs.cka_private_exponent ∷ Attrs.cka_prime_1 ∷ Attrs.cka_prime_2 ∷ Attrs.cka_exponent_1
    ∷ Attrs.cka_exponent_2 ∷ Attrs.cka_coefficient ∷ Attrs.cka_value ∷ []

abbrev pub Hidden : Option Attr → Type 0
Hidden a = (a ≡ none) ⊎ (a ≡ some sensitive)

-- A private object holds no secret attribute that can be read.
abbrev pub IsGuarded : Object → Type 0
IsGuarded o = is_private o ≡ true → All (λ t. Hidden (attr o t)) secrets

abbrev pub IsKeyObject : Object → Type 0
IsKeyObject o = (is_certificate o.kind ≡ false) × IsGuarded o

-- Of a result that is not an error.
abbrev pub OkAll : (Object → Type 0) → Result DbError (List Object) → Type 0
OkAll P (err e) = Unit
OkAll P (ok os) = All P os

not_private-IsGuarded : (o : Object) → is_private o ≡ false → IsGuarded o
not_private-IsGuarded o e h = ground (arith, e, h)

rsa_private-IsGuarded : (info : RsaKeyInfo) → IsGuarded (new_rsa_private_key info)
unfolding new_rsa_private_key inserted insert remove get
rsa_private-IsGuarded info h =
    (inr refl, (inr refl, (inr refl, (inr refl, (inr refl, (inr refl, (inl refl, tt)))))))

ec_private-IsGuarded : (info : EcKeyInfo) → IsGuarded (new_ec_private_key info)
unfolding new_ec_private_key inserted insert remove get
ec_private-IsGuarded info h =
    (inl refl, (inl refl, (inl refl, (inl refl, (inl refl, (inl refl, (inr refl, tt)))))))

rsa_public-IsGuarded : (info : RsaKeyInfo) → IsGuarded (new_rsa_public_key info)
unfolding new_rsa_public_key inserted insert remove get is_private attr_eq as_bytes bytes_eq
rsa_public-IsGuarded info = not_private-IsGuarded (new_rsa_public_key info) refl

ec_public-IsGuarded : (info : EcKeyInfo) → IsGuarded (new_ec_public_key info)
unfolding new_ec_public_key inserted insert remove get is_private attr_eq as_bytes bytes_eq
ec_public-IsGuarded info = not_private-IsGuarded (new_ec_public_key info) refl

x509_cert-IsGuarded : (info : CertInfo) → IsGuarded (new_x509_cert info)
unfolding new_x509_cert inserted insert remove get is_private attr_eq as_bytes
x509_cert-IsGuarded info = not_private-IsGuarded (new_x509_cert info) refl

pub mechanism-IsGuarded : (m : Mechanism) → IsGuarded (new_mechanism m)
unfolding new_mechanism inserted insert remove get is_private attr_eq as_bytes
mechanism-IsGuarded m = not_private-IsGuarded (new_mechanism m) refl

module _ (E : Evp) (C : X509Lib E) where
  key_objects-AllKeyObjects :
      (k : Config.PrivateKey) (pkey : E.EvpPkey) (a : KeyAlgo)
      → OkAll IsKeyObject (key_objects E C k pkey a)
  unfolding key_objects new_rsa_private_key new_rsa_public_key new_ec_private_key new_ec_public_key
  key_objects-AllKeyObjects k pkey rsa = elim (Result-cases (num_bits E pkey)) [
    | inr (x, e) ↦ rw e tt
    | inl (bits, e) ↦ rw e (elim (Result-cases (rsa_modulus E C pkey)) [
      | inr (x, e') ↦ rw e' tt
      | inl (modulus, e') ↦ rw e' (elim (Result-cases (rsa_public_exponent E C pkey)) [
        | inr (x, e'') ↦ rw e'' tt
        | inl (exponent, e'') ↦
            rw e'' ((refl, rsa_private-IsGuarded _), ((refl, rsa_public-IsGuarded _), tt))
      ])
    ])
  ]
  key_objects-AllKeyObjects k pkey ec = elim (Result-cases (ec_params_x962 E C pkey)) [
    | inr (x, e) ↦ rw e tt
    | inl (params, e) ↦ rw e (elim (Result-cases (ec_point_q_x962 E C pkey)) [
      | inr (x, e') ↦ rw e' tt
      | inl (point, e') ↦
          rw e' ((refl, ec_private-IsGuarded _), ((refl, ec_public-IsGuarded _), tt))
    ])
  ]

  pub cert_objects-AllGuarded :
      (k : Config.PrivateKey) (pos : ℕ) (chain : List C.X509)
      → All IsGuarded (cert_objects E C k pos chain)
  unfolding cert_objects
  cert_objects-AllGuarded k pos [] = tt
  cert_objects-AllGuarded k pos (x ∷ chain) =
      let rest = cert_objects-AllGuarded k (suc pos) chain in
      elim (Result-cases (cert_info E C k (pos % 256) x)) [
        | inl (info, e) ↦ rw (e, All) (x509_cert-IsGuarded info, rest)
        | inr (r, e) ↦ rw (e, All) tt
      ]

  -- What the closure pushes is a part of what it would push for its chain, or nothing.
  pub x509_objects-Either :
      (P : List Object → Type 0) (k : Config.PrivateKey) (pkey : E.EvpPkey) (pem : Option Bytes)
      → P []
      → ((chain : List C.X509) → P (cert_objects E C k 0 chain))
      → P (x509_objects E C k pkey pem)
  x509_objects-Either P k pkey none h g = h
  x509_objects-Either P k pkey (some pem) h g = elim (Result-cases (chain_from_pem E C pem)) [
    | inr (r, e) ↦ rw e h
    | inl (chain, e) ↦ rw e (elim (Result-cases (verify_certs E C pkey chain)) [
      | inr (r, e') ↦ rw e' h
      | inl (t, e') ↦ rw e' (g chain)
    ])
  ]

  pub pair-AllKeyObjects :
      (k : Config.PrivateKey) (pkey : E.EvpPkey) (a : KeyAlgo) (pair : List Object)
      → key_objects E C k pkey a ≡ ok pair
      → All IsKeyObject pair
  pair-AllKeyObjects k pkey a pair e =
      subst (OkAll IsKeyObject) e (key_objects-AllKeyObjects k pkey a)
