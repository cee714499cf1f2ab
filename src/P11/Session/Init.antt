-- ===== src/P11/Session/Init.antt =====
-- What it takes to start an operation with a key.
use aws_nitro_enclaves_acm.Prelude.{
  ℕ, ◌≡◌, ◌⊎◌, refl, some, Bytes, Result, ok, err, ◌>>=◌, ◌>>◌, arith, Option-cases, Result-cases,
  inl, inr,
}
use aws_nitro_enclaves_acm.P11.Error.{Error}
use aws_nitro_enclaves_acm.P11.Mechanism.{
  Mechanism, digest, rsa_pkcs, rsa_pkcs_pss, rsa_x509, ecdsa,
}
use aws_nitro_enclaves_acm.P11.Object.{
  Object, ObjectKind, rsa_private_key, rsa_public_key, ec_private_key, ec_public_key, certificate,
  mechanism,
}
use aws_nitro_enclaves_acm.P11.Db.{object}
use aws_nitro_enclaves_acm.P11.Crypto.Evp.{Evp}
use aws_nitro_enclaves_acm.P11.Session.{
  Session, SessionState, ro_public, ro_user, started, check_user_logged_in, private_key, public_key,
  rsa_private, ec_private, rsa_public, ec_public, private_key_for_mech, public_key_for_mech,
  sign_init, verify_init, encrypt_init, decrypt_init,
}

pub data Operation : Type 0 where
  signing verifying encrypting decrypting : Operation

abbrev rsa_kind : Operation → Bytes → ObjectKind
rsa_kind signing = rsa_private_key
rsa_kind decrypting = rsa_private_key
rsa_kind verifying = rsa_public_key
rsa_kind encrypting = rsa_public_key

abbrev ec_kind : Operation → Bytes → ObjectKind
ec_kind signing = ec_private_key
ec_kind decrypting = ec_private_key
ec_kind verifying = ec_public_key
ec_kind encrypting = ec_public_key

-- RSA mechanisms want RSA keys, and ECDSA wants EC keys; signing and decrypting want the private one.
abbrev pub Wants : Operation → Mechanism → ObjectKind → Type 0
Wants op (digest _) kind = ⊥
Wants op (ecdsa _) kind = (pem : Bytes) × (kind ≡ ec_kind op pem)
Wants op (rsa_pkcs _) kind = (pem : Bytes) × (kind ≡ rsa_kind op pem)
Wants op (rsa_pkcs_pss _ _) kind = (pem : Bytes) × (kind ≡ rsa_kind op pem)
Wants op rsa_x509 kind = (pem : Bytes) × (kind ≡ rsa_kind op pem)

Wants-decrypting :
    (mech : Mechanism) (kind : ObjectKind) → Wants signing mech kind → Wants decrypting mech kind
Wants-decrypting (digest d) kind w = w
Wants-decrypting (ecdsa d) kind w = w
Wants-decrypting (rsa_pkcs d) kind w = w
Wants-decrypting (rsa_pkcs_pss d p) kind w = w
Wants-decrypting rsa_x509 kind w = w

Wants-encrypting :
    (mech : Mechanism) (kind : ObjectKind) → Wants verifying mech kind → Wants encrypting mech kind
Wants-encrypting (digest d) kind w = w
Wants-encrypting (ecdsa d) kind w = w
Wants-encrypting (rsa_pkcs d) kind w = w
Wants-encrypting (rsa_pkcs_pss d p) kind w = w
Wants-encrypting rsa_x509 kind w = w

SessionState-cases : (s : SessionState) → (s ≡ ro_user) ⊎ (s ≡ ro_public)
SessionState-cases ro_user = inl refl
SessionState-cases ro_public = inr refl

module _ (E : Evp) where
  rsa_private-ok :
      (kind : ObjectKind) (pkey : E.EvpPkey)
      → rsa_private E kind ≡ ok pkey
      → (pem : Bytes) × (kind ≡ rsa_private_key pem)
  rsa_private-ok (rsa_private_key x) pkey h = (x, refl)
  rsa_private-ok (rsa_public_key x) pkey h = ground arith
  rsa_private-ok (ec_private_key x) pkey h = ground arith
  rsa_private-ok (ec_public_key x) pkey h = ground arith
  rsa_private-ok certificate pkey h = ground arith
  rsa_private-ok (mechanism x) pkey h = ground arith

  ec_private-ok :
      (kind : ObjectKind) (pkey : E.EvpPkey)
      → ec_private E kind ≡ ok pkey
      → (pem : Bytes) × (kind ≡ ec_private_key pem)
  ec_private-ok (rsa_private_key x) pkey h = ground arith
  ec_private-ok (rsa_public_key x) pkey h = ground arith
  ec_private-ok (ec_private_key x) pkey h = (x, refl)
  ec_private-ok (ec_public_key x) pkey h = ground arith
  ec_private-ok certificate pkey h = ground arith
  ec_private-ok (mechanism x) pkey h = ground arith

  rsa_public-ok :
      (kind : ObjectKind) (pkey : E.EvpPkey)
      → rsa_public E kind ≡ ok pkey
      → (pem : Bytes) × (kind ≡ rsa_public_key pem)
  rsa_public-ok (rsa_private_key x) pkey h = ground arith
  rsa_public-ok (rsa_public_key x) pkey h = (x, refl)
  rsa_public-ok (ec_private_key x) pkey h = ground arith
  rsa_public-ok (ec_public_key x) pkey h = ground arith
  rsa_public-ok certificate pkey h = ground arith
  rsa_public-ok (mechanism x) pkey h = ground arith

  ec_public-ok :
      (kind : ObjectKind) (pkey : E.EvpPkey)
      → ec_public E kind ≡ ok pkey
      → (pem : Bytes) × (kind ≡ ec_public_key pem)
  ec_public-ok (rsa_private_key x) pkey h = ground arith
  ec_public-ok (rsa_public_key x) pkey h = ground arith
  ec_public-ok (ec_private_key x) pkey h = ground arith
  ec_public-ok (ec_public_key x) pkey h = (x, refl)
  ec_public-ok certificate pkey h = ground arith
  ec_public-ok (mechanism x) pkey h = ground arith

  private_key-Wants :
      (mech : Mechanism) (kind : ObjectKind) (pkey : E.EvpPkey)
      → private_key E mech kind ≡ ok pkey
      → Wants signing mech kind
  private_key-Wants (digest d) kind pkey h = ground arith
  private_key-Wants (ecdsa d) kind pkey h = ec_private-ok kind pkey h
  private_key-Wants (rsa_pkcs d) kind pkey h = rsa_private-ok kind pkey h
  private_key-Wants (rsa_pkcs_pss d p) kind pkey h = rsa_private-ok kind pkey h
  private_key-Wants rsa_x509 kind pkey h = rsa_private-ok kind pkey h

  public_key-Wants :
      (mech : Mechanism) (kind : ObjectKind) (pkey : E.EvpPkey)
      → public_key E mech kind ≡ ok pkey
      → Wants verifying mech kind
  public_key-Wants (digest d) kind pkey h = ground arith
  public_key-Wants (ecdsa d) kind pkey h = ec_public-ok kind pkey h
  public_key-Wants (rsa_pkcs d) kind pkey h = rsa_public-ok kind pkey h
  public_key-Wants (rsa_pkcs_pss d p) kind pkey h = rsa_public-ok kind pkey h
  public_key-Wants rsa_x509 kind pkey h = rsa_public-ok kind pkey h

module _ {E : Evp} where
  abbrev pub start : Operation → Mechanism → ℕ → Session E → Result Error (Unit {0}) × Session E
  start signing = sign_init
  start verifying = verify_init
  start encrypting = encrypt_init
  start decrypting = decrypt_init

  started-error :
      {A : Type 0} (put : A → Session E) (s : Session E) (r : Result Error A) (e : Error)
      → (started put s r).0 ≡ err e
      → (started put s r).1 ≡ s
  started-error put s (ok a) e h = ground arith
  started-error put s (err e') e h = refl

  -- Where an operation cannot be started, the session is as it was, and keeps the operation that was
  -- active, if any.
  pub start-error_unchanged :
      (op : Operation) (mech : Mechanism) (key : ℕ) (s : Session E) (e : Error)
      → (start op mech key s).0 ≡ err e
      → (start op mech key s).1 ≡ s
  unfolding sign_init verify_init encrypt_init decrypt_init
  start-error_unchanged signing mech key s e h = started-error _ s _ e h
  start-error_unchanged verifying mech key s e h = started-error _ s _ e h
  start-error_unchanged encrypting mech key s e h = started-error _ s _ e h
  start-error_unchanged decrypting mech key s e h = started-error _ s _ e h

  -- The session's user is logged in, and the handle is that of a key for the operation.
  abbrev pub Ready : Operation → Mechanism → ℕ → Session E → Type 0
  Ready op mech key s =
      (s.state ≡ ro_user) × (obj : Object) × (object s.db key ≡ some obj) × Wants op mech obj.kind

  started-ok :
      {A : Type 0} (put : A → Session E) (s : Session E) (r : Result Error A)
      → (started put s r).0 ≡ ok tt
      → (a : A) × (r ≡ ok a)
  started-ok put s (ok a) h = (a, refl)
  started-ok put s (err e) h = ground arith

  chain-ok :
      {A : Type 0} (s : Session E) (keys : Result Error E.EvpPkey)
      (rest : E.EvpPkey → Result Error A) (a : A)
      → (do check_user_logged_in s; pkey ← keys; rest pkey) ≡ ok a
      → (s.state ≡ ro_user) × (pkey : E.EvpPkey) × (keys ≡ ok pkey)
  unfolding check_user_logged_in
  chain-ok s keys rest a h = elim (SessionState-cases s.state) [
    | inr public ↦ ground arith
    | inl user ↦ elim (Result-cases keys) [
      | inr (e, failed) ↦ ground arith
      | inl (pkey, good) ↦ (user, pkey, good)
    ]
  ]

  private-Ready :
      (s : Session E) (mech : Mechanism) (key : ℕ) (pkey : E.EvpPkey)
      → s.state ≡ ro_user
      → private_key_for_mech s mech key ≡ ok pkey
      → Ready signing mech key s
  unfolding private_key_for_mech
  private-Ready s mech key pkey user h = elim (Option-cases (object s.db key)) [
    | inl none_ ↦ ground arith
    | inr (obj, found) ↦ (user, obj, found, private_key-Wants E mech obj.kind pkey (ground arith))
  ]

  public-Ready :
      (s : Session E) (mech : Mechanism) (key : ℕ) (pkey : E.EvpPkey)
      → s.state ≡ ro_user
      → public_key_for_mech s mech key ≡ ok pkey
      → Ready verifying mech key s
  unfolding public_key_for_mech
  public-Ready s mech key pkey user h = elim (Option-cases (object s.db key)) [
    | inl none_ ↦ ground arith
    | inr (obj, found) ↦ (user, obj, found, public_key-Wants E mech obj.kind pkey (ground arith))
  ]

  -- An operation starts only in a session whose user is logged in, with the handle of an object that
  -- is a key of the mechanism's kind, private for signing and decrypting and public for verifying
  -- and encrypting.
  pub start-Ready :
      (op : Operation) (mech : Mechanism) (key : ℕ) (s : Session E)
      → (start op mech key s).0 ≡ ok tt
      → Ready op mech key s
  unfolding sign_init verify_init encrypt_init decrypt_init
  start-Ready signing mech key s h =
      let (a, r) = started-ok _ s _ h in
      let (user, pkey, k) = chain-ok s _ _ a r in private-Ready s mech key pkey user k
  start-Ready decrypting mech key s h =
      let (a, r) = started-ok _ s _ h in
      let (user, pkey, k) = chain-ok s _ _ a r in
      let (u, obj, found, wants) = private-Ready s mech key pkey user k in
      (u, obj, found, Wants-decrypting mech obj.kind wants)
  start-Ready verifying mech key s h =
      let (a, r) = started-ok _ s _ h in
      let (user, pkey, k) = chain-ok s _ _ a r in public-Ready s mech key pkey user k
  start-Ready encrypting mech key s h =
      let (a, r) = started-ok _ s _ h in
      let (user, pkey, k) = chain-ok s _ _ a r in
      let (u, obj, found, wants) = public-Ready s mech key pkey user k in
      (u, obj, found, Wants-encrypting mech obj.kind wants)
