-- ===== src/P11/Db/Secrets.antt =====
-- vtok_p11/src/backend/db/mod.rs, `Db::from_token_config`: the private objects of a token keep
-- their secrets to themselves.
use aws_nitro_enclaves_acm.Prelude.{
  ℕ, zero, leb, length, ==_iff, suc, ◌==◌, ◌≡◌, refl, ap, subst, ◌∙◌, Bool, true, false, some, List,
  [], ◌∷◌, ◌++◌, map, Bytes, Result, ok, err, Result-cases, ◌>>=◌, All, arith, Bool-cases, inl, inr,
  get_elem?, if◌then◌else◌,
}
use aws_nitro_enclaves_acm.Common.Config
use aws_nitro_enclaves_acm.P11.Error.{DbError}
use aws_nitro_enclaves_acm.P11.RawAttr.{CkRawAttr}
use aws_nitro_enclaves_acm.P11.Mechanism.{Mechanism}
use aws_nitro_enclaves_acm.P11.Object.{Object, attr, is_private, new_mechanism}
use aws_nitro_enclaves_acm.P11.Object.Template.{fill_attr_template}
use aws_nitro_enclaves_acm.P11.Object.Fills.{Fillable, fill_attr_template_iff}
use aws_nitro_enclaves_acm.P11.Db.{Db, object}
use aws_nitro_enclaves_acm.Rpc.Line.Print.{All-append_intro}
use aws_nitro_enclaves_acm.P11.Db.Guarded.{
  secrets, Hidden, IsGuarded, IsKeyObject, OkAll, mechanism-IsGuarded, cert_objects-AllGuarded,
  x509_objects-Either, pair-AllKeyObjects,
}
use aws_nitro_enclaves_acm.P11.Db.Load.{
  token_mech_list, key_objects, x509_objects, push_key, private_key_objects, from_token_config,
}
use aws_nitro_enclaves_acm.P11.Crypto.Evp.{Evp}
use aws_nitro_enclaves_acm.P11.Crypto.X509Lib.{X509Lib}
use aws_nitro_enclaves_acm.P11.Crypto.Pkey.{from_private_pem, algo}

abbrev pub is_listed : ℕ → List ℕ → Bool
is_listed t [] = false
is_listed t (u ∷ us) = if u == t then true else is_listed t us

All-get_elem? :
    (P : Object → Type 0) (os : List Object) (i : ℕ) (o : Object)
    → All P os
    → get_elem? os i ≡ some o
    → P o
All-get_elem? P [] i o h e = ground arith
All-get_elem? P (p ∷ os) zero o h e = let same : p ≡ o = ground (arith, e) in subst P same h.0
All-get_elem? P (p ∷ os) (suc i) o h e = All-get_elem? P os i o h.1 e

Fillable-not_listed :
    (o : Object) (raw : CkRawAttr) (ts : List ℕ)
    → Fillable o raw
    → All (λ t. Hidden (attr o t)) ts
    → is_listed raw.type ts ≡ false
Fillable-not_listed o raw [] f h = refl
Fillable-not_listed o raw (t ∷ ts) f h =
    let rest = Fillable-not_listed o raw ts f h.1 in
    elim (Bool-cases (t == raw.type)) [
      | inr e ↦ rw e rest
      | inl e ↦
          let (a, found, open_, fits) = f in
          let found' : attr o t ≡ some a = ap (attr o) ((==_iff t raw.type).0 e) ∙ found in
          absurd (ground (arith, found', open_, h.0))
    ]

All-not_listed :
    (o : Object) (tpl : List CkRawAttr)
    → All (λ t. Hidden (attr o t)) secrets
    → All (Fillable o) tpl
    → All (λ raw. is_listed raw.type secrets ≡ false) tpl
All-not_listed o [] h f = tt
All-not_listed o (raw ∷ tpl) h f =
    (Fillable-not_listed o raw secrets f.0 h, All-not_listed o tpl h f.1)

mechanisms-AllGuarded : (ms : List Mechanism) → All IsGuarded (map new_mechanism ms)
mechanisms-AllGuarded [] = tt
mechanisms-AllGuarded (m ∷ ms) = (mechanism-IsGuarded m, mechanisms-AllGuarded ms)

IsGuarded-keys : (os : List Object) → All IsKeyObject os → All IsGuarded os
IsGuarded-keys [] h = tt
IsGuarded-keys (o ∷ os) h = (h.0.1, IsGuarded-keys os h.1)

built-AllGuarded :
    (pin : Bytes) (r : Result DbError (List Object))
    → OkAll IsGuarded r
    → (db : Db)
    → (r >>= λ os.
        ok (record { token_pin = pin; objects = map new_mechanism token_mech_list ++ os }))
      ≡ ok db
    → All IsGuarded db.objects
built-AllGuarded pin (err x) g db h = absurd (ground (arith, h))
built-AllGuarded pin (ok os) g db h =
    let built : Db = record {
      token_pin = pin;
      objects = map new_mechanism token_mech_list ++ os;
    } in
    let same : built ≡ db = ap (λ r. elim r [ err e ↦ built | ok d ↦ d ]) h in
    subst (λ d. All IsGuarded d.objects) same
      (All-append_intro IsGuarded (map new_mechanism token_mech_list) os
        (mechanisms-AllGuarded token_mech_list) g)

get_elem?-object :
    (db : Db) (i : ℕ) (o : Object) → object db i ≡ some o → get_elem? db.objects i ≡ some o
unfolding object
get_elem?-object db i o e = elim (Bool-cases (leb (length db.objects) i)) [
  | inl b ↦ absurd (ground (arith, e, b))
  | inr b ↦ ground (arith, e, b)
]

module _ (E : Evp) (C : X509Lib E) where
  pushed-AllGuarded :
      (k : Config.PrivateKey) (pkey : E.EvpPkey) (pair : List Object)
      → All IsGuarded pair
      → (rest : Result DbError (List Object)) → OkAll IsGuarded rest
      → OkAll IsGuarded (rest >>= λ os. ok (pair ++ (x509_objects E C k pkey k.cert_pem ++ os)))
  pushed-AllGuarded k pkey pair g (err x) h = tt
  pushed-AllGuarded k pkey pair g (ok os) h = All-append_intro IsGuarded pair _ g (
      All-append_intro IsGuarded _ os
        (x509_objects-Either E C (All IsGuarded) k pkey k.cert_pem tt
          (cert_objects-AllGuarded E C k 0))
        h)

  push_key-AllGuarded :
      (k : Config.PrivateKey) (rest : Result DbError (List Object))
      → OkAll IsGuarded rest
      → OkAll IsGuarded (push_key E C k rest)
  unfolding push_key
  push_key-AllGuarded k rest h = elim (Result-cases (from_private_pem E k.pem)) [
    | inr (x, e) ↦ rw e tt
    | inl (pkey, e) ↦ rw e (elim (Result-cases (algo E pkey)) [
      | inr (x, e1) ↦ rw e1 tt
      | inl (a, e1) ↦ rw e1 (elim (Result-cases (key_objects E C k pkey a)) [
        | inr (x, e2) ↦ rw e2 tt
        | inl (pair, e2) ↦ rw e2 (
            pushed-AllGuarded k pkey pair
              (IsGuarded-keys pair (pair-AllKeyObjects E C k pkey a pair e2)) rest h)
      ])
    ])
  ]

  private_key_objects-AllGuarded :
      (keys : List Config.PrivateKey) → OkAll IsGuarded (private_key_objects E C keys)
  unfolding private_key_objects
  private_key_objects-AllGuarded [] = tt
  private_key_objects-AllGuarded (k ∷ keys) =
      push_key-AllGuarded k (private_key_objects E C keys) (private_key_objects-AllGuarded keys)

  loaded-AllGuarded :
      (c : Config.Token) (db : Db) → from_token_config E C c ≡ ok db → All IsGuarded db.objects
  unfolding from_token_config
  loaded-AllGuarded c db h =
      built-AllGuarded c.pin (private_key_objects E C c.private_keys)
        (private_key_objects-AllGuarded c.private_keys) db h

-- No template that a private object of a loaded token fills successfully asks it for a secret part of
-- its key.
pub fill_attr_template-secrets :
    (E : Evp) (C : X509Lib E) (c : Config.Token) (db : Db)
    → from_token_config E C c ≡ ok db
    → (i : ℕ) (o : Object) → object db i ≡ some o
    → is_private o ≡ true
    → (tpl : List CkRawAttr) → (fill_attr_template o tpl).1 ≡ ok tt
    → All (λ raw. is_listed raw.type secrets ≡ false) tpl
fill_attr_template-secrets E C c db h i o e p tpl f =
    All-not_listed o tpl
      (All-get_elem? IsGuarded db.objects i o (loaded-AllGuarded E C c db h)
        (get_elem?-object db i o e) p)
      ((fill_attr_template_iff o tpl).0 f)
