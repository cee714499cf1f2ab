-- ===== src/P11/Db/Contents.antt =====
-- vtok_p11/src/backend/db/mod.rs, `Db::from_token_config`: what the certificates of a token do to its
-- objects.
use aws_nitro_enclaves_acm.Prelude.{
  ℕ, suc, ◌%◌, ◌≡◌, refl, ap, ◌∙◌, none, List, [], ◌∷◌, ◌++◌, map, Bytes, Result, ok, err,
  Result-cases, ◌>>=◌, All, Bool-cases, inl, inr, if◌then◌else◌,
}
use aws_nitro_enclaves_acm.Common.Config
use aws_nitro_enclaves_acm.P11.Error.{DbError}
use aws_nitro_enclaves_acm.P11.Object.{Object, new_mechanism, new_x509_cert}
use aws_nitro_enclaves_acm.P11.Db.{Db}
use aws_nitro_enclaves_acm.P11.Db.Guarded.{
  is_certificate, IsKeyObject, x509_objects-Either, pair-AllKeyObjects,
}
use aws_nitro_enclaves_acm.P11.Db.Load.{
  token_mech_list, key_objects, cert_objects, cert_info, x509_objects, push_key,
  private_key_objects, from_token_config,
}
use aws_nitro_enclaves_acm.P11.Crypto.Evp.{Evp}
use aws_nitro_enclaves_acm.P11.Crypto.X509Lib.{X509Lib}
use aws_nitro_enclaves_acm.P11.Crypto.Pkey.{KeyAlgo, ec, rsa, from_private_pem, algo}

unfoldable pub without_certificates : List Object → List Object
without_certificates [] = []
without_certificates (o ∷ os) =
    let rest = without_certificates os in if is_certificate o.kind then rest else o ∷ rest

abbrev pub bare_key : Config.PrivateKey → Config.PrivateKey
bare_key key_config = record key_config { cert_pem = none }

abbrev pub bare : Config.Token → Config.Token
bare token_config = record token_config { private_keys = map bare_key token_config.private_keys }

-- Results of objects, on which a function of lists is applied.
abbrev pub on_objects :
    (List Object → List Object) → Result DbError (List Object) → Result DbError (List Object)
on_objects f r = r >>= λ objects. ok (f objects)

abbrev pub on_db : (List Object → List Object) → Result DbError Db → Result DbError Db
on_db f r = r >>= λ db. ok (record db { objects = f db.objects })

without_certificates-append :
    (os ps : List Object)
    → without_certificates (os ++ ps) ≡ without_certificates os ++ without_certificates ps
unfolding without_certificates
without_certificates-append [] ps = refl
without_certificates-append (o ∷ os) ps =
    let ih = without_certificates-append os ps in
    elim (Bool-cases (is_certificate o.kind)) [
      | inl e ↦ rw e ih
      | inr e ↦ rw e (ap (λ xs. o ∷ xs) ih)
    ]

loaded_bare :
    (pin : Bytes) (r : Result DbError (List Object))
    → on_db without_certificates (
        r >>= λ os.
        ok (record { token_pin = pin; objects = map new_mechanism token_mech_list ++ os }))
      ≡ (on_objects without_certificates r >>= λ os.
          ok (record { token_pin = pin; objects = map new_mechanism token_mech_list ++ os }))
unfolding without_certificates new_mechanism
loaded_bare pin (err x) = refl
loaded_bare pin (ok os) = refl

module _ (E : Evp) (C : X509Lib E) where
  cert_objects-certificates :
      (k : Config.PrivateKey) (pos : ℕ) (chain : List C.X509)
      → without_certificates (cert_objects E C k pos chain) ≡ []
  unfolding cert_objects without_certificates new_x509_cert
  cert_objects-certificates k pos [] = refl
  cert_objects-certificates k pos (x ∷ chain) =
      let rest = cert_objects-certificates k (suc pos) chain in
      elim (Result-cases (cert_info E C k (pos % 256) x)) [
        | inl (info, e) ↦ rw (e, without_certificates) rest
        | inr (r, e) ↦ rw (e, without_certificates) refl
      ]

  without_certificates-keys : (os : List Object) → All IsKeyObject os → without_certificates os ≡ os
  unfolding without_certificates
  without_certificates-keys [] h = refl
  without_certificates-keys (o ∷ os) h =
      rw h.0.0 (ap (λ xs. o ∷ xs) (without_certificates-keys os h.1))

  -- Of one key: its pair, its certificates, and the objects of the keys after it.
  without_certificates-key :
      (pair certs rest : List Object)
      → All IsKeyObject pair
      → without_certificates certs ≡ []
      → without_certificates (pair ++ (certs ++ rest)) ≡ pair ++ without_certificates rest
  without_certificates-key pair certs rest h e =
      without_certificates-append pair (certs ++ rest)
      ∙ (ap (λ xs. xs ++ without_certificates (certs ++ rest)) (without_certificates-keys pair h)
          ∙ ap (λ xs. pair ++ xs)
              (without_certificates-append certs rest
                ∙ ap (λ xs. xs ++ without_certificates rest) e))

  key_objects-bare_key :
      (k : Config.PrivateKey) (pkey : E.EvpPkey) (a : KeyAlgo)
      → key_objects E C (bare_key k) pkey a ≡ key_objects E C k pkey a
  unfolding key_objects
  key_objects-bare_key k pkey rsa = refl
  key_objects-bare_key k pkey ec = refl

  -- After the pair of a key, what is pushed for the certificates is dropped.
  pushed-bare :
      (k : Config.PrivateKey) (pkey : E.EvpPkey) (pair : List Object)
      → All IsKeyObject pair
      → (rest : Result DbError (List Object))
      → on_objects without_certificates
          (rest >>= λ os. ok (pair ++ (x509_objects E C k pkey k.cert_pem ++ os)))
        ≡ (on_objects without_certificates rest >>= λ os. ok (pair ++ ([] ++ os)))
  unfolding without_certificates
  pushed-bare k pkey pair h (err x) = refl
  pushed-bare k pkey pair h (ok os) =
      ap (λ xs. ok xs)
        (without_certificates-key pair _ os h (
          x509_objects-Either E C (λ xs. without_certificates xs ≡ []) k pkey k.cert_pem refl
            (cert_objects-certificates k 0)))

  push_key-bare_key :
      (k : Config.PrivateKey) (rest : Result DbError (List Object))
      → on_objects without_certificates (push_key E C k rest)
        ≡ push_key E C (bare_key k) (on_objects without_certificates rest)
  unfolding push_key
  push_key-bare_key k rest = elim (Result-cases (from_private_pem E k.pem)) [
    | inr (x, e) ↦ rw e refl
    | inl (pkey, e) ↦ rw e (elim (Result-cases (algo E pkey)) [
      | inr (x, e1) ↦ rw e1 refl
      | inl (a, e1) ↦ rw e1 (
          rw (key_objects-bare_key k pkey a) (elim (Result-cases (key_objects E C k pkey a)) [
            | inr (x, e2) ↦ rw e2 refl
            | inl (pair, e2) ↦
                rw e2 (pushed-bare k pkey pair (pair-AllKeyObjects E C k pkey a pair e2) rest)
          ]))
    ])
  ]

  private_key_objects-bare :
      (keys : List Config.PrivateKey)
      → on_objects without_certificates (private_key_objects E C keys)
        ≡ private_key_objects E C (map bare_key keys)
  unfolding private_key_objects without_certificates
  private_key_objects-bare [] = refl
  private_key_objects-bare (k ∷ keys) =
      push_key-bare_key k (private_key_objects E C keys)
      ∙ ap (push_key E C (bare_key k)) (private_key_objects-bare keys)

-- A token with certificates loads like the same token without them, but for certificate objects: it
-- fails with the same error, or has the same PIN and the same other objects in the same order. So a
-- certificate that cannot be read or verified never keeps a key from being loaded.
pub from_token_config-bare :
    (E : Evp) (C : X509Lib E) (token_config : Config.Token)
    → on_db without_certificates (from_token_config E C token_config)
      ≡ from_token_config E C (bare token_config)
unfolding from_token_config
from_token_config-bare E C c =
    loaded_bare c.pin (private_key_objects E C c.private_keys)
    ∙ ap
        (λ r. r >>= λ os.
          ok (record { token_pin = c.pin; objects = map new_mechanism token_mech_list ++ os }))
        (private_key_objects-bare E C c.private_keys)
